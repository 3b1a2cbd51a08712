-- ===== src/Lob/OrderBook/Release.antt =====
-- The loops of the destructor of 02_LOB_Engine/src/OrderBook.cpp: objects given back to their pools.
use object_oriented_programm.Prelude.{
  ℕ, suc, ◌+◌, ◌≡◌, refl, ◌≤◌, false, Option, some, none, List, [], ◌∷◌, ◌==◌, if◌then◌else◌,
  length, lookup, erase, lookup-erase, arith, Bool-cases, inl, inr, sym, ◌∙◌, ok,
}
use object_oriented_programm.Lob.Types.{Ptr, null}
use object_oriented_programm.Lob.Pool.{Pool, write}
use object_oriented_programm.Lob.Pool.Access.{deallocate-ok, write-other}
use object_oriented_programm.Lob.OrderBook.{OrderBook}
use object_oriented_programm.Lob.OrderBook.View.{count}
use object_oriented_programm.Lob.OrderBook.UniqueKeys.{UniqueKeys, erase-UniqueKeys}
use object_oriented_programm.Lob.OrderBook.Queries.{release_orders, release_levels}

abbrev pub values : List (ℕ × Ptr) → List Ptr
values [] = []
values ((k, p) ∷ m) = p ∷ values m

module _ {T : Type 0} where
  -- Objects live at all of the addresses.
  abbrev pub AllLive : (Ptr → Option T) → List Ptr → Type 0
  AllLive h [] = Unit {0}
  AllLive h (p ∷ ps) = ((p == null) ≡ false) × ((x : T) × (h p ≡ some x)) × AllLive h ps

  AllLive-write :
      (h : Ptr → Option T) (p : Ptr) (ps : List Ptr)
      → count p ps ≡ 0
      → AllLive h ps
      → AllLive (write h p none) ps
  AllLive-write h p [] c l = tt
  AllLive-write h p (q ∷ ps) c (ne, (x, e), l) =
      (ne, (x, write-other h p q none (ground arith) ∙ e), AllLive-write h p ps (ground arith) l)

  abbrev pub given_back : List Ptr → Pool T → Pool T
  given_back [] s = s
  given_back (p ∷ ps) s =
      given_back ps (record s { storage = write s.storage p none; free_list = p ∷ s.free_list })

  pub given_back-lem :
      (ps : List Ptr) (s : Pool T)
      → ((a : Ptr) → count a (given_back ps s).free_list ≡ count a ps + count a s.free_list)
        × (length (given_back ps s).free_list ≡ length ps + length s.free_list)
        × ((given_back ps s).capacity ≡ s.capacity)
  given_back-lem [] s = (λ a. omega arith, omega arith, refl)
  given_back-lem (p ∷ ps) s =
      let (c, l, n) =
        given_back-lem ps
          (record s { storage = write s.storage p none; free_list = p ∷ s.free_list }) in
      (λ a. omega (arith, c a), omega (arith, l), n)

  -- Other objects live on.
  pub given_back-AllLive :
      (ps qs : List Ptr) (s : Pool T)
      → ((a : Ptr) → count a ps + count a qs ≤ 1)
      → AllLive s.storage qs
      → AllLive (given_back ps s).storage qs
  given_back-AllLive [] qs s c l = l
  given_back-AllLive (p ∷ ps) qs s c l =
      given_back-AllLive ps qs
        (record s { storage = write s.storage p none; free_list = p ∷ s.free_list })
        (λ a. omega (arith, c a)) (AllLive-write s.storage p qs (ground (arith, c p)) l)

pub release_orders-ok :
    (m : List (ℕ × Ptr)) (b : OrderBook)
    → ((a : Ptr) → count a (values m) ≤ 1)
    → AllLive b.order_pool.storage (values m)
    → release_orders m b ≡ ok tt (record b { order_pool = given_back (values m) b.order_pool })
unfolding release_orders
release_orders-ok [] b c l = refl
release_orders-ok ((id, p) ∷ m) b c (ne, (x, e), l) =
    let s = b.order_pool in
    let next = record b {
      order_pool = record s { storage = write s.storage p none; free_list = p ∷ s.free_list };
    } in
    rw
      (
        deallocate-ok p s ne e,
        release_orders-ok m next (λ a. omega (arith, c a))
            (AllLive-write s.storage p (values m) (ground (arith, c p)) l),
      )
      refl

pub release_levels-ok :
    (m : List (ℕ × Ptr)) (b : OrderBook)
    → ((a : Ptr) → count a (values m) ≤ 1)
    → AllLive b.level_pool.storage (values m)
    → release_levels m b ≡ ok tt (record b { level_pool = given_back (values m) b.level_pool })
unfolding release_levels
release_levels-ok [] b c l = refl
release_levels-ok ((price, p) ∷ m) b c (ne, (x, e), l) =
    let s = b.level_pool in
    let next = record b {
      level_pool = record s { storage = write s.storage p none; free_list = p ∷ s.free_list };
    } in
    rw
      (
        deallocate-ok p s ne e,
        release_levels-ok m next (λ a. omega (arith, c a))
            (AllLive-write s.storage p (values m) (ground (arith, c p)) l),
      )
      refl

erase-absent : (k : ℕ) (m : List (ℕ × Ptr)) → lookup k m ≡ none → erase k m ≡ m
unfolding erase
erase-absent k [] h = refl
erase-absent k ((j, q) ∷ m) h = elim (Bool-cases (j == k)) [
  | inl same ↦ let e = rw same at h in cc
  | inr other ↦ rw (other, erase-absent k m (rw other at h)) refl
]

some-injective : {p q : Ptr} → some p ≡ some q → p ≡ q
some-injective h = cc

lookup_first : (k : ℕ) (p : Ptr) (m : List (ℕ × Ptr)) → lookup k ((k, p) ∷ m) ≡ some p
lookup_first k p m = ground arith

lookup-tail :
    (k j : ℕ) (p : Ptr) (m n : List (ℕ × Ptr))
    → lookup k m ≡ none
    → lookup j ((k, p) ∷ m) ≡ lookup j n
    → lookup j m ≡ lookup j (erase k n)
lookup-tail k j p m n gone h = elim (Bool-cases (k == j)) [
  | inl same ↦
      let e : k ≡ j = ground arith in (rw e at gone) ∙ sym (lookup-erase k j n ∙ rw same refl)
  | inr other ↦ (rw other at h) ∙ sym (lookup-erase k j n ∙ rw other refl)
]

-- Two maps with each key once that find the same have the same values.
values-erase :
    (k : ℕ) (p : Ptr) (m : List (ℕ × Ptr))
    → UniqueKeys m
    → lookup k m ≡ some p
    → ((a : Ptr) → count a (values m) ≡ (if p == a then 1 else 0) + count a (values (erase k m)))
      × (length m ≡ suc (length (erase k m)))
unfolding erase
values-erase k p [] u h = cc
values-erase k p ((j, q) ∷ m) (gone, u) h = elim (Bool-cases (j == k)) [
  | inl same ↦
      let e : j ≡ k = ground arith in
      let f : q ≡ p = some-injective (rw same at h) in
      let kept = erase-absent k m (rw e at gone) in rw (same, kept) (λ a. rw f refl, refl)
  | inr other ↦
      let (c, l) = values-erase k p m u (rw other at h) in
      rw other (λ a. omega (arith, c a), omega (arith, l))
]

pub values_same :
    (m n : List (ℕ × Ptr))
    → UniqueKeys m
    → UniqueKeys n
    → ((k : ℕ) → lookup k m ≡ lookup k n)
    → ((a : Ptr) → count a (values m) ≡ count a (values n)) × (length m ≡ length n)
values_same [] [] u v h = (λ a. refl, refl)
values_same [] ((k, p) ∷ n) u v h = let e = h k ∙ lookup_first k p n in cc
values_same ((k, p) ∷ m) n (gone, u) v h =
    let (c, l) = values-erase k p n v (sym (h k) ∙ lookup_first k p m) in
    let (c', l') =
      values_same m (erase k n) u (erase-UniqueKeys k n v)
        (λ j. lookup-tail k j p m n gone (h j)) in
    (λ a. omega (arith, c a, c' a), omega (arith, l, l'))

-- ===== src/Lob/Preserves.antt =====
-- Commands that keep a predicate of the state, whether they return or throw.
use object_oriented_programm.Prelude.{
  ℕ, ◌≡◌, refl, Bool, true, false, List, [], ◌∷◌, ◌==◌, if◌then◌else◌, Run, Cmd, ok, threw, fault,
  out_of_fuel, and_then, pure, ◌>>=◌, Option-cases, inl, inr,
}
use object_oriented_programm.Lob.Types.{Ptr, null, Order}
use object_oriented_programm.Lob.Pool.{Pool, load, store, allocate, deallocate, retire}
use object_oriented_programm.Lob.PriceLevel.{
  PriceLevel, set_next, set_prev, append, unlink_before, unlink_after, remove,
}

abbrev pub Leaves : {S A : Type 0} → (S → Type 0) → Run S A → Type 0
Leaves P (ok a s) = P s
Leaves P (threw s) = P s
Leaves P fault = Unit {0}
Leaves P out_of_fuel = Unit {0}

pub record Preserves {S A : Type 0} (P : S → Type 0) (m : Cmd S A) : Type 0 where
  pub preserves : (s : S) → P s → Leaves P (m s)

module _ {S A : Type 0} {P : S → Type 0} where
  pub pure-Preserves : (a : A) → Preserves P (pure {S = S} a)
  pure-Preserves a = record { preserves = λ s h. h }

  pub if-Preserves :
      {m n : Cmd S A} (b : Bool) → Preserves P m → Preserves P n → Preserves P (if b then m else n)
  if-Preserves true p q = p
  if-Preserves false p q = q

  and_then-Leaves :
      {B : Type 0} (r : Run S A) (k : A → Cmd S B)
      → Leaves P r
      → ((a : A) → Preserves P (k a))
      → Leaves P (and_then r k)
  and_then-Leaves (ok a s) k h go = (go a).preserves s h
  and_then-Leaves (threw s) k h go = h
  and_then-Leaves fault k h go = tt
  and_then-Leaves out_of_fuel k h go = tt

  pub bind-Preserves :
      {B : Type 0} {m : Cmd S A} {k : A → Cmd S B}
      → Preserves P m
      → ((a : A) → Preserves P (k a))
      → Preserves P (m >>= k)
  bind-Preserves {B} {m} {k} p go = record {
    preserves = λ s h. and_then-Leaves (m s) k (p.preserves s h) go;
  }

-- The size of a pool.
abbrev pub HasCapacity : {T : Type 0} → ℕ → Pool T → Type 0
HasCapacity n s = s.capacity ≡ n

module _ {T : Type 0} (n : ℕ) where
  pub load-Preserves : (p : Ptr) → Preserves (HasCapacity {T = T} n) (load p)
  unfolding load
  load-Preserves p = record {
    preserves = λ s h. elim (Option-cases (s.storage p)) [
      | inl gone ↦ rw (gone, load, Leaves) tt
      | inr (x, there) ↦ rw (there, load, Leaves) h
    ];
  }

  pub store-Preserves : (p : Ptr) (x : T) → Preserves (HasCapacity n) (store p x)
  unfolding store
  store-Preserves p x = bind-Preserves (load-Preserves p) (λ _. record { preserves = λ s h. h })

  allocate-Leaves :
      (x : T) (free : List Ptr) (s : Pool T)
      → s.free_list ≡ free
      → HasCapacity n s
      → Leaves (HasCapacity n) (allocate x s)
  unfolding allocate
  allocate-Leaves x [] s e h = rw e h
  allocate-Leaves x (p ∷ rest) s e h = rw e h

  pub allocate-Preserves : (x : T) → Preserves (HasCapacity n) (allocate x)
  allocate-Preserves x = record { preserves = λ s. allocate-Leaves x s.free_list s refl }

  pub deallocate-Preserves : (p : Ptr) → Preserves (HasCapacity {T = T} n) (deallocate p)
  unfolding deallocate retire
  deallocate-Preserves p =
      if-Preserves (p == null) (pure-Preserves tt)
        (bind-Preserves (load-Preserves p) (λ _. record { preserves = λ s h. h }))

module _ (n : ℕ) where
  set_next-Preserves : (p q : Ptr) → Preserves (HasCapacity n) (set_next p q)
  unfolding set_next
  set_next-Preserves p q =
      bind-Preserves (load-Preserves n p) (λ o. store-Preserves n p (record o { next = q }))

  set_prev-Preserves : (p q : Ptr) → Preserves (HasCapacity n) (set_prev p q)
  unfolding set_prev
  set_prev-Preserves p q =
      bind-Preserves (load-Preserves n p) (λ o. store-Preserves n p (record o { prev = q }))

  pub append-Preserves :
      (this : Ptr) (l : PriceLevel) (order : Ptr) → Preserves (HasCapacity n) (append this l order)
  unfolding append
  append-Preserves this l order = bind-Preserves (load-Preserves n order) (λ o.
      bind-Preserves (store-Preserves n order _) (λ _.
        bind-Preserves
          (if-Preserves (l.tail == null) (pure-Preserves order)
            (bind-Preserves (set_next-Preserves l.tail order) (λ _. pure-Preserves l.head)))
          (λ head. bind-Preserves (load-Preserves n order) (λ o'. pure-Preserves _))))

  unlink_before-Preserves :
      (l : PriceLevel) (o : Order) → Preserves (HasCapacity n) (unlink_before l o)
  unfolding unlink_before
  unlink_before-Preserves l o =
      if-Preserves (o.prev == null) (pure-Preserves o.next)
        (bind-Preserves (set_next-Preserves o.prev o.next) (λ _. pure-Preserves l.head))

  unlink_after-Preserves :
      (l : PriceLevel) (o : Order) → Preserves (HasCapacity n) (unlink_after l o)
  unfolding unlink_after
  unlink_after-Preserves l o =
      if-Preserves (o.next == null) (pure-Preserves o.prev)
        (bind-Preserves (set_prev-Preserves o.next o.prev) (λ _. pure-Preserves l.tail))

  pub remove-Preserves : (l : PriceLevel) (order : Ptr) → Preserves (HasCapacity n) (remove l order)
  unfolding remove
  remove-Preserves l order = if-Preserves (order == null) (pure-Preserves l) (
      bind-Preserves (load-Preserves n order) (λ o.
        bind-Preserves (unlink_before-Preserves l o) (λ head.
          bind-Preserves (load-Preserves n order) (λ o'.
            bind-Preserves (unlink_after-Preserves l o') (λ tail.
              bind-Preserves (load-Preserves n order)
                (λ o''. bind-Preserves (store-Preserves n order _) (λ _. pure-Preserves _)))))))

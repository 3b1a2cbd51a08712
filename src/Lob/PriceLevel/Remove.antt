-- ===== src/Lob/PriceLevel/Remove.antt =====
-- remove of PriceLevel.hpp takes an order out of the list that the level holds.
use object_oriented_programm.Prelude.{
  ℕ, ◌-◌, ◌≡◌, refl, false, Option, some, List, [], ◌∷◌, ◌++◌, arith, ok, ◌∙◌, ap, length-append,
  if◌then◌else◌, ltb,
}
use object_oriented_programm.Lob.Types.{Ptr, null, Order}
use object_oriented_programm.Lob.Pool.{Pool, write}
use object_oriented_programm.Lob.Pool.Access.{
  with_storage, load-ok, store-ok, write_self, write-other,
}
use object_oriented_programm.Lob.PriceLevel.{
  PriceLevel, remove, unlink_before, unlink_after, less_volume,
}
use object_oriented_programm.Lob.PriceLevel.Chain.{
  Entry, addresses, has, Distinct, Distinct-split, Distinct-remove, linked, first, last, Seg,
  SameOutside, Seg-frame, Seg-write, Seg-append, Seg-split, has-append, addresses-append,
  last-append, first-append, last-ne-null,
}
use object_oriented_programm.Lob.PriceLevel.Links.{set_next-last, set_prev-first}
use object_oriented_programm.Lob.PriceLevel.Represents.{volume-append, level_of, Holds}

unlink_before-Seg :
    (this a n : Ptr) (l : PriceLevel) (o : Order) (ys : List Entry) (s : Pool Order)
    → o.prev ≡ last null ys
    → o.next ≡ n
    → l.head ≡ first ys a
    → Distinct (addresses ys)
    → Seg s.storage this null ys a
    → (h : Ptr → Option Order) × (unlink_before l o s ≡ ok (first ys n) (with_storage s h))
      × Seg h this null ys n
      × SameOutside (addresses ys) s.storage h
unfolding unlink_before
unlink_before-Seg this a n l o [] s p q r d seg = (s.storage, rw (p, q), tt, λ b out. refl)
unlink_before-Seg this a n l o ((b, u) ∷ ys) s p q r d seg =
    let (h, run, seg', same) = set_next-last this null b u ys a n s d seg in
    (h, rw (p, q, r, last-ne-null s.storage this null b u ys a seg, run), seg', same)

unlink_after-Seg :
    (this a p : Ptr) (l : PriceLevel) (o : Order) (zs : List Entry) (s : Pool Order)
    → o.next ≡ first zs null
    → o.prev ≡ p
    → l.tail ≡ last a zs
    → Distinct (addresses zs)
    → Seg s.storage this a zs null
    → (h : Ptr → Option Order) × (unlink_after l o s ≡ ok (last p zs) (with_storage s h))
      × Seg h this p zs null
      × SameOutside (addresses zs) s.storage h
unfolding unlink_after
unlink_after-Seg this a p l o [] s e f g d seg = (s.storage, rw (e, f), tt, λ b out. refl)
unlink_after-Seg this a p l o ((b, u) ∷ zs) s e f g d seg =
    let (h, run, seg', same) = set_prev-first this a b u zs null p s d seg in
    (h, rw (e, f, g, seg.0, run), seg', same)

-- The members that remove computes are those of the shorter list.
removed_level :
    (price : ℕ) (a : Ptr) (o : Order) (ys zs : List Entry)
    → let l = level_of price (ys ++ (a, o) ∷ zs) in
      ◌≡◌ {A = PriceLevel}
        (record l {
          head = first ys (first zs null);
          tail = last (last null ys) zs;
          total_volume = less_volume l.total_volume o.remaining_qty;
          order_count = if ltb 0 l.order_count then l.order_count - 1 else l.order_count;
        })
        (level_of price (ys ++ zs))
unfolding less_volume
removed_level price a o ys zs = ground (
  arith,
  volume-append ys ((a, o) ∷ zs),
  volume-append ys zs,
  length-append ys ((a, o) ∷ zs),
  length-append ys zs,
  first-append ys zs null,
  last-append null ys zs,
)

-- If the orders `ys`, an order and the orders `zs` stand linked on a level, remove of that order
-- leaves the level with `ys` and `zs`, linked, its count and volume those of the shorter list; the
-- order's three pointers are null and no order outside the level is written.
pub remove_lem :
    (price : ℕ) (this a : Ptr) (o : Order) (ys zs : List Entry) (s : Pool Order)
    → Holds s.storage this (ys ++ (a, o) ∷ zs)
    → (h : Ptr → Option Order) × (remove (level_of price (ys ++ (a, o) ∷ zs)) a s
        ≡ ok (level_of price (ys ++ zs)) (with_storage s h))
      × Holds h this (ys ++ zs)
      × (h a ≡ some (linked o null null null))
      × SameOutside (addresses (ys ++ (a, o) ∷ zs)) s.storage h
unfolding remove
remove_lem price this a o ys zs s (d, seg) =
    let (before, (ne, at, after)) = Seg-split s.storage this null ys ((a, o) ∷ zs) null seg in
    let d' : Distinct (addresses ys ++ a ∷ addresses zs) =
      rw (addresses-append ys ((a, o) ∷ zs)) at d in
    let (dys, (behind, dzs), apart) = Distinct-split (addresses ys) (a ∷ addresses zs) d' in
    let ahead : has a (addresses ys) ≡ false = ground (arith, apart a) in
    let o' = linked o this (last null ys) (first zs null) in
    let l = level_of price (ys ++ (a, o) ∷ zs) in
    let (h₁, run₁, seg₁, same₁) =
      unlink_before-Seg this a (first zs null) l o' ys s refl refl
        (first-append ys ((a, o) ∷ zs) null) dys before in
    let at₁ : h₁ a ≡ some o' = same₁ a ahead ∙ at in
    let after₁ : Seg h₁ this a zs null =
      Seg-frame s.storage h₁ this a zs null (λ b i. same₁ b (ground (arith, apart b))) after in
    let s₁ = with_storage s h₁ in
    let (h₂, run₂, seg₂, same₂) =
      unlink_after-Seg this a (last null ys) l o' zs s₁ refl refl
        (last-append null ys ((a, o) ∷ zs)) dzs after₁ in
    let at₂ : h₂ a ≡ some o' = same₂ a behind ∙ at₁ in
    let before₂ : Seg h₂ this null ys (first zs null) =
      Seg-frame h₁ h₂ this null ys (first zs null) (λ b i. same₂ b (ground (arith, apart b)))
        seg₁ in
    let o'' = linked o null null null in
    let s₂ = with_storage s h₂ in
    (
      write h₂ a (some o''),
      rw (ne, load-ok a s at, run₁, load-ok a s₁ at₁, run₂, load-ok a s₂ at₂, store-ok a o'' s₂ at₂)
          (ap (λ l. ok l (with_storage s (write h₂ a (some o'')))) (removed_level price a o ys zs)),
      (
        rw (addresses-append ys zs) (Distinct-remove (addresses ys) a (addresses zs) d'),
        Seg-append _ this null ys zs null
            (Seg-write h₂ this null ys (first zs null) a _ ahead before₂)
            (Seg-write h₂ this (last null ys) zs null a _ behind seg₂),
      ),
      write_self h₂ a _,
      λ b out.
          let out' : has b (addresses ys ++ a ∷ addresses zs) ≡ false =
            rw (addresses-append ys ((a, o) ∷ zs)) at out in
          let parts = has-append b (addresses ys) (a ∷ addresses zs) in
          write-other h₂ a b _ (ground arith) ∙ same₂ b (ground arith) ∙ same₁ b (ground arith),
    )

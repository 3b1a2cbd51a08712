-- ===== src/Lob/PriceLevel/Represents.antt =====
-- append and remove of PriceLevel.hpp against the list of the orders that the level holds.
use object_oriented_programm.Prelude.{
  ℕ, ◌+◌, ◌^◌, ◌<◌, ◌≡◌, false, Option, some, List, [], ◌∷◌, ◌++◌, ◌==◌, arith, ok, ◌∙◌, length,
  length-append,
}
use object_oriented_programm.Lob.Types.{Ptr, null, Order}
use object_oriented_programm.Lob.Pool.{Pool, write}
use object_oriented_programm.Lob.Pool.Access.{
  with_storage, load-ok, store-ok, write_self, write-other,
}
use object_oriented_programm.Lob.PriceLevel.{PriceLevel, append, add32, add64}
use object_oriented_programm.Lob.PriceLevel.Chain.{
  Entry, addresses, has, Distinct, Distinct-snoc, linked, first, last, Seg, SameOutside, Seg-write,
  Seg-append, addresses-append, last-append, last-ne-null,
}
use object_oriented_programm.Lob.PriceLevel.Links.{set_next-last}

-- The quantity that remains on the orders.
abbrev pub volume : List Entry → ℕ
volume [] = 0
volume ((a, o) ∷ xs) = o.remaining_qty + volume xs

pub volume-append : (xs ys : List Entry) → volume (xs ++ ys) ≡ volume xs + volume ys
volume-append [] ys = omega arith
volume-append (x ∷ xs) ys = omega (arith, volume-append xs ys)

-- The level at `price` with the orders `xs`, the oldest first.
abbrev pub level_of : ℕ → List Entry → PriceLevel
level_of price xs = record {
  price = price;
  total_volume = volume xs;
  order_count = length xs;
  head = first xs null;
  tail = last null xs;
  prev_level = null;
  next_level = null;
}

-- The orders of the level at `this` stand linked in the pool.
abbrev pub Holds : (Ptr → Option Order) → Ptr → List Entry → Type 0
Holds h this xs = Distinct (addresses xs) × Seg h this null xs null

-- What a level needs to count its orders and their volume without wrapping.
abbrev pub Fits : List Entry → Type 0
Fits xs = (volume xs < 2 ^ 32) × (length xs < 2 ^ 64)

-- The first half of append: `order` is linked behind the tail, and the head is known.
append_links :
    (price : ℕ) (this a : Ptr) (o : Order) (xs : List Entry) (s : Pool Order)
    → (a == null) ≡ false
    → has a (addresses xs) ≡ false
    → s.storage a ≡ some o
    → Holds s.storage this xs
    → Fits (xs ++ (a, o) ∷ [])
    → (h : Ptr → Option Order) × (append this (level_of price xs) a s
        ≡ ok (level_of price (xs ++ (a, o) ∷ [])) (with_storage s h))
      × Seg h this null (xs ++ (a, o) ∷ []) null
      × SameOutside (a ∷ addresses xs) s.storage h
unfolding append
append_links price this a o [] s ne out at (d, seg) (small, few) = (
  write s.storage a (some (linked o this null null)),
  rw
      (
        load-ok a s at,
        store-ok a (linked o this null null) s at,
        load-ok a (with_storage s (write s.storage a (some (linked o this null null))))
            (write_self s.storage a _),
      )
      (unfold add32 add64 in ground arith),
  (ne, write_self s.storage a _, tt),
  λ b other. write-other s.storage a b _ (ground arith),
)
append_links price this a o ((b, u) ∷ xs) s ne out at (d, seg) (small, few) =
    let linked_o = linked o this (last b xs) null in
    let h₁ = write s.storage a (some linked_o) in
    let s₁ = with_storage s h₁ in
    let (h, run, joined, same) =
      set_next-last this null b u xs null a s₁ d
        (Seg-write s.storage this null ((b, u) ∷ xs) null a (some linked_o) out seg) in
    let here : h a ≡ some linked_o = same a out ∙ write_self s.storage a _ in
    (
      h,
      rw
          (
            load-ok a s at,
            store-ok a linked_o s at,
            last-ne-null s.storage this null b u xs null seg,
            run,
            load-ok a (with_storage s h) here,
          )
          (unfold add32 add64 in
            ground (
              arith,
              volume-append xs ((a, o) ∷ []),
              length-append xs ((a, o) ∷ []),
              last-append b xs ((a, o) ∷ []),
            )),
      Seg-append h this null ((b, u) ∷ xs) ((a, o) ∷ []) null joined (ne, here, tt),
      λ c other. same c (ground arith) ∙ write-other s.storage a c _ (ground arith),
    )

-- If the orders `xs` stand linked on a level and an order that is not among them lives at an
-- address that is not null, and the longer list's volume is below 2 ^ 32 and its length below 2 ^
-- 64, append leaves the level with that order behind `xs`, linked and counted, and no order outside
-- the level is written.
pub append_lem :
    (price : ℕ) (this a : Ptr) (o : Order) (xs : List Entry) (s : Pool Order)
    → (a == null) ≡ false
    → has a (addresses xs) ≡ false
    → s.storage a ≡ some o
    → Holds s.storage this xs
    → Fits (xs ++ (a, o) ∷ [])
    → (h : Ptr → Option Order) × (append this (level_of price xs) a s
        ≡ ok (level_of price (xs ++ (a, o) ∷ [])) (with_storage s h))
      × Holds h this (xs ++ (a, o) ∷ [])
      × SameOutside (a ∷ addresses xs) s.storage h
append_lem price this a o xs s ne out at holds fits =
    let (h, run, seg, same) = append_links price this a o xs s ne out at holds fits in
    (
      h,
      run,
      (rw (addresses-append xs ((a, o) ∷ [])) (Distinct-snoc (addresses xs) a holds.0 out), seg),
      same,
    )

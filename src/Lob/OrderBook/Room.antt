-- ===== src/Lob/OrderBook/Room.antt =====
-- When the pools of a represented book of 02_LOB_Engine/src/OrderBook.cpp have a slot to give.
use object_oriented_programm.Prelude.{
  ℕ, zero, suc, ◌+◌, ◌≡◌, refl, ◌≤◌, ◌<◌, false, ◌==◌, if◌then◌else◌, List, [], ◌∷◌, ◌++◌, length,
  arith, Bool-cases, inl, inr, length-append,
}
use object_oriented_programm.Lob.Types.{Ptr, Side}
use object_oriented_programm.Lob.OrderBook.{OrderBook}
use object_oriented_programm.Lob.OrderBook.View.{
  Level, HasFree, level_addresses, orders_of, count, slot, count-append,
}
use object_oriented_programm.Lob.OrderBook.Represents.{Represents}

abbrev without : Ptr → List Ptr → List Ptr
without a [] = []
without a (p ∷ ps) = if p == a then ps else p ∷ without a ps

length-without :
    (a : Ptr) (ps : List Ptr) → 1 ≤ count a ps → suc (length (without a ps)) ≡ length ps
length-without a [] h = absurd (omega arith)
length-without a (p ∷ ps) h = ground (arith, length-without a ps)

count-without : (a c : Ptr) (ps : List Ptr) → (c == a) ≡ false → count c (without a ps) ≡ count c ps
count-without a c [] h = refl
count-without a c (p ∷ ps) h = ground (arith, count-without a c ps)

-- A list with every address of a pool is as long as the pool is large.
capacity_le : (n : ℕ) (ps : List Ptr) → ((a : Ptr) → slot n a ≤ count a ps) → n ≤ length ps
capacity_le zero ps all = omega arith
capacity_le (suc n) ps all =
    let last : 1 ≤ count (suc n) ps = ground (arith, all (suc n)) in
    let fewer : (a : Ptr) → slot n a ≤ count a (without (suc n) ps) = λ a.
      elim (Bool-cases (a == suc n)) [
        | inl top ↦ ground arith
        | inr low ↦ ground (arith, all a, count-without (suc n) a ps low)
      ] in
    omega (arith, length-without (suc n) ps last, capacity_le n (without (suc n) ps) fewer)

not_empty : (ps : List Ptr) → 1 ≤ length ps → HasFree ps
not_empty [] h = absurd (omega arith)
not_empty (p ∷ ps) h = (p, ps, refl)

length-level_addresses : (vs : List Level) → length (level_addresses vs) ≡ length vs
length-level_addresses [] = refl
length-level_addresses (v ∷ vs) = omega (arith, length-level_addresses vs)

module _ (b : OrderBook) (side : Side) (mine theirs : List Level)
    (r : Represents b side mine theirs) where
  pub order_room :
      length (orders_of mine) + length (orders_of theirs) < b.order_pool.capacity
      → HasFree b.order_pool.free_list
  order_room h = not_empty b.order_pool.free_list (omega (arith, r.order_total))

  pub level_room :
      length mine + length theirs < b.level_pool.capacity → HasFree b.level_pool.free_list
  level_room h =
      let free = b.level_pool.free_list in
      let here = level_addresses mine in
      let there = level_addresses theirs in
      let all = capacity_le b.level_pool.capacity (here ++ there ++ free) (λ a.
        omega (
          arith,
          r.level_slots a,
          count-append a (here ++ there) free,
          count-append a here there,
        )) in
      not_empty free (
        omega (
          arith,
          all,
          length-append (here ++ there) free,
          length-append here there,
          length-level_addresses mine,
          length-level_addresses theirs,
        ))

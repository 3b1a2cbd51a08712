-- ===== src/Lob/OrderBook/Represents.antt =====
-- The invariant of the book: which levels and orders its maps, pools and links stand for.
use object_oriented_programm.Prelude.{
  ℕ, ◌+◌, ◌≡◌, refl, ◌≤◌, List, [], ◌∷◌, ◌++◌, length, true, false, lookup, Option, none, some,
  arith, ◌==◌, Bool-cases, inl, inr, subst, sym, ◌∙◌,
}
use object_oriented_programm.Lob.Types.{Ptr, Side, buy, sell}
use object_oriented_programm.Lob.PriceLevel.Chain.{Entry, addresses}
use object_oriented_programm.Lob.OrderBook.{OrderBook, before, levels}
use object_oriented_programm.Lob.OrderBook.View.{
  Level, LevelsAt, index, level_addresses, orders_of, count, slot,
}
use object_oriented_programm.Lob.OrderBook.Matching.Sweep.{is_nil}

abbrev pub opposite : Side → Side
opposite buy = sell
opposite sell = buy

abbrev pub order_index : List Entry → List (ℕ × Ptr)
order_index [] = []
order_index ((a, o) ∷ xs) = (o.id, a) ∷ order_index xs

abbrev pub ids : List Entry → List ℕ
ids [] = []
ids ((a, o) ∷ xs) = o.id ∷ ids xs

-- The orders of a level want something, and stand on its side at its price.
abbrev pub OrdersStand : Side → ℕ → List Entry → Type 0
OrdersStand side price [] = Unit {0}
OrdersStand side price ((a, o) ∷ xs) =
    (1 ≤ o.remaining_qty) × (o.side ≡ side) × (o.price ≡ price) × OrdersStand side price xs

-- No level is empty.
abbrev pub LevelsStand : Side → List Level → Type 0
LevelsStand side [] = Unit {0}
LevelsStand side (v ∷ vs) =
    (is_nil v.orders ≡ false) × OrdersStand side v.price v.orders × LevelsStand side vs

abbrev pub AllBehind : Side → ℕ → List Level → Type 0
AllBehind side price [] = Unit {0}
AllBehind side price (v ∷ vs) = (before side price v.price ≡ true) × AllBehind side price vs

-- The best price first, and each price once.
abbrev pub Sorted : Side → List Level → Type 0
Sorted side [] = Unit {0}
Sorted side (v ∷ vs) = AllBehind side v.price vs × Sorted side vs

abbrev pub first_some : Option Ptr → Option Ptr → Option Ptr
first_some none o = o
first_some (some a) o = some a

-- What is true of the lists of the two sides alone.
pub record WellFormed (side : Side) (mine theirs : List Level) : Type 0 where
  pub mine_stand : LevelsStand side mine
  pub theirs_stand : LevelsStand (opposite side) theirs
  pub mine_sorted : Sorted side mine
  pub theirs_sorted : Sorted (opposite side) theirs
  pub unique : (id : ℕ) → count id (ids (orders_of mine)) + count id (ids (orders_of theirs)) ≤ 1

-- The book `b`, seen from `side`, holds the levels `mine` on that side and `theirs` on the other.
-- Every slot of a pool is in use once, or free once.
pub record Represents (b : OrderBook) (side : Side) (mine theirs : List Level) : Type 0 where
  pub mine_map : levels side b ≡ index mine
  pub theirs_map : levels (opposite side) b ≡ index theirs
  pub mine_at : LevelsAt b.order_pool.storage b.level_pool.storage mine
  pub theirs_at : LevelsAt b.order_pool.storage b.level_pool.storage theirs
  pub order_slots :
      (a : Ptr)
      → count a (addresses (orders_of mine))
          + count a (addresses (orders_of theirs))
          + count a b.order_pool.free_list
        ≡ slot b.order_pool.capacity a
  pub order_total :
      length (orders_of mine) + length (orders_of theirs) + length b.order_pool.free_list
      ≡ b.order_pool.capacity
  pub level_slots :
      (p : Ptr)
      → count p (level_addresses mine)
          + count p (level_addresses theirs)
          + count p b.level_pool.free_list
        ≡ slot b.level_pool.capacity p
  pub order_map :
      (id : ℕ)
      → lookup id b.order_map
        ≡ first_some
            (lookup id (order_index (orders_of mine)))
            (lookup id (order_index (orders_of theirs)))
  pub well_formed : WellFormed side mine theirs
  pub open well_formed use *

pub lookup-none :
    (id : ℕ) (xs : List Entry) → count id (ids xs) ≡ 0 → lookup id (order_index xs) ≡ none
lookup-none id [] h = refl
lookup-none id ((a, o) ∷ xs) h = ground (arith, lookup-none id xs)

pub lookup-index-append :
    (id : ℕ) (xs ys : List Entry)
    → lookup id (order_index (xs ++ ys))
      ≡ first_some (lookup id (order_index xs)) (lookup id (order_index ys))
lookup-index-append id [] ys = refl
lookup-index-append id ((a, o) ∷ xs) ys = ground (arith, lookup-index-append id xs ys)

-- With each identifier in use once, the two sides can be asked in either order.
pub first_some_comm :
    (id : ℕ) (xs ys : List Entry)
    → count id (ids xs) + count id (ids ys) ≤ 1
    → first_some (lookup id (order_index xs)) (lookup id (order_index ys))
      ≡ first_some (lookup id (order_index ys)) (lookup id (order_index xs))
first_some_comm id xs ys h = elim (Bool-cases (count id (ids xs) == 0)) [
  | inl e ↦
      let gone : lookup id (order_index xs) ≡ none = lookup-none id xs (ground arith) in
      rw gone (ground arith)
  | inr e ↦
      let gone : lookup id (order_index ys) ≡ none = lookup-none id ys (ground arith) in
      rw gone (ground arith)
]

flip-WellFormed :
    (side : Side) (mine theirs : List Level)
    → opposite (opposite side) ≡ side
    → WellFormed side mine theirs
    → WellFormed (opposite side) theirs mine
flip-WellFormed side mine theirs e w = record {
  mine_stand = w.theirs_stand;
  theirs_stand = subst (λ s. LevelsStand s mine) (sym e) w.mine_stand;
  mine_sorted = w.theirs_sorted;
  theirs_sorted = subst (λ s. Sorted s mine) (sym e) w.mine_sorted;
  unique = λ id. omega (arith, w.unique id);
}

flip_at :
    (b : OrderBook) (side : Side) (mine theirs : List Level)
    → opposite (opposite side) ≡ side
    → Represents b side mine theirs
    → Represents b (opposite side) theirs mine
flip_at b side mine theirs e r = record {
  mine_map = r.theirs_map;
  theirs_map = subst (λ s. levels s b ≡ index mine) (sym e) r.mine_map;
  mine_at = r.theirs_at;
  theirs_at = r.mine_at;
  order_slots = λ a. omega (arith, r.order_slots a);
  order_total = omega (arith, r.order_total);
  level_slots = λ p. omega (arith, r.level_slots p);
  order_map = λ id.
      r.order_map id
      ∙ first_some_comm id (orders_of mine) (orders_of theirs) (r.well_formed.unique id);
  well_formed = flip-WellFormed side mine theirs e r.well_formed;
}

-- The same book, seen from the other side.
pub flip :
    (b : OrderBook) (side : Side) (mine theirs : List Level)
    → Represents b side mine theirs
    → Represents b (opposite side) theirs mine
flip b buy mine theirs r = flip_at b buy mine theirs refl r
flip b sell mine theirs r = flip_at b sell mine theirs refl r

-- ===== src/Lob/OrderBook/Uncrossed.antt =====
-- After addOrder of 02_LOB_Engine/src/OrderBook.cpp no bid meets an ask.
pub mod Kept
use object_oriented_programm.Prelude.{
  ℕ, ◌≡◌, ◌≤◌, ◌<◌, ◌^◌, Bool, true, false, ◌||◌, none, List, [], ◌∷◌, ◌==◌, arith, lookup, ok,
  Bool-cases, inl, inr,
}
use object_oriented_programm.Lob.Types.{
  Ptr, Side, buy, sell, OrderType, Order, MatchEvent, new_order,
}
use object_oriented_programm.Lob.PriceLevel.Chain.{Entry}
use object_oriented_programm.Lob.OrderBook.{OrderBook, before}
use object_oriented_programm.Lob.OrderBook.View.{Level}
use object_oriented_programm.Lob.OrderBook.Represents.{Represents, opposite, AllBehind, Sorted}
use object_oriented_programm.Lob.OrderBook.Matching.Fill.{fill}
use object_oriented_programm.Lob.OrderBook.Matching.Sweep.{sweep, is_nil, fill-left}
use object_oriented_programm.Lob.OrderBook.Matching.SideLoop.{closed_to}
use object_oriented_programm.Lob.OrderBook.Matching.Ids.{sweep-AllBehind}
use object_oriented_programm.Lob.OrderBook.Orders.{add_order}
use object_oriented_programm.Lob.OrderBook.Orders.Append.{VolumesFit}
use object_oriented_programm.Lob.OrderBook.AddOrder.{
  add_order_lem, own_side, incoming, outcome_of, LevelAvailable, rests, left_over,
}
use object_oriented_programm.Lob.OrderBook.Orders.Join.{join}
use object_oriented_programm.Lob.OrderBook.Orders.JoinLaws.{AllBehind-trans}

-- Every price of one side is ahead of every price of the other: a bid below each ask.
abbrev pub Uncrossed : Side → (mine theirs : List Level) → Type 0
Uncrossed side [] theirs = Unit {0}
Uncrossed side (v ∷ mine) theirs =
    AllBehind (opposite side) v.price theirs × Uncrossed side mine theirs

sweep-Uncrossed :
    (side : Side) (closed : ℕ → Bool) (qty : ℕ) (mine theirs : List Level)
    → Uncrossed side mine theirs
    → Uncrossed side mine (sweep closed qty theirs).left
sweep-Uncrossed side closed qty [] theirs u = tt
sweep-Uncrossed side closed qty (v ∷ mine) theirs (b, u) = (
  sweep-AllBehind closed (opposite side) v.price qty theirs b,
  sweep-Uncrossed side closed qty mine theirs u,
)

pub beyond-before :
    (side : Side) (p q : ℕ) → before side p q ≡ true → before (opposite side) q p ≡ true
beyond-before buy p q h = ground arith
beyond-before sell p q h = ground arith

-- What a limit order leaves, if something of it is not filled, is behind its price.
sweep-beyond :
    (side : Side) (t : Order) (qty : ℕ) (theirs : List Level)
    → Sorted (opposite side) theirs
    → let s = sweep (closed_to (before side) t) qty theirs in
      1 ≤ s.rest → AllBehind (opposite side) t.price s.left
unfolding sweep
sweep-beyond side t qty [] s pos = tt
sweep-beyond side t qty (v ∷ vs) (b, s) pos =
    let closed = closed_to (before side) t in
    let f = fill qty v.orders in
    elim (Bool-cases ((qty == 0) || closed v.price)) [
      | inl stops ↦
          let still : 1 ≤ qty = rw stops at pos in
          let closed_here : before side v.price t.price ≡ true = ground arith in
          let behind = beyond-before side v.price t.price closed_here in
          rw stops (behind, AllBehind-trans (opposite side) t.price v.price vs behind b)
      | inr goes ↦ elim (Bool-cases (is_nil f.left)) [
        | inl gone ↦ rw (goes, gone) (sweep-beyond side t f.rest vs s (rw (goes, gone) at pos))
        | inr stays ↦
            let filled = fill-left qty v.orders stays in
            let pos' : 1 ≤ f.rest = rw (goes, stays) at pos in absurd (omega (arith, filled, pos'))
      ]
    ]

join-Uncrossed :
    (side : Side) (price : ℕ) (e : Entry) (p : Ptr) (mine theirs : List Level)
    → AllBehind (opposite side) price theirs
    → Uncrossed side mine theirs
    → Uncrossed side (join side price e p mine) theirs
unfolding join
join-Uncrossed side price e p [] theirs b u = (b, tt)
join-Uncrossed side price e p (v ∷ mine) theirs b (w, u) =
    let rest = join-Uncrossed side price e p mine theirs b u in
    elim (Bool-cases (v.price == price)) [
      | inl same ↦ rw same (w, u)
      | inr other ↦ elim (Bool-cases (before side price v.price)) [
        | inl first ↦ rw (other, first) (b, (w, u))
        | inr later ↦ rw (other, later) (w, rest)
      ]
    ]

pub own_side-Uncrossed :
    (side : Side) (t : Order) (a p : Ptr) (mine theirs : List Level)
    → Sorted (opposite side) theirs
    → Uncrossed side mine theirs
    → let s = sweep (closed_to (before side) t) t.remaining_qty theirs in
      Uncrossed side (own_side side t s a p mine) s.left
own_side-Uncrossed side t a p mine theirs sorted u =
    let s = sweep (closed_to (before side) t) t.remaining_qty theirs in
    let kept = sweep-Uncrossed side (closed_to (before side) t) t.remaining_qty mine theirs u in
    elim (Bool-cases (rests t s)) [
      | inl stays ↦
          let wanted : 1 ≤ s.rest = ground arith in
          rw stays (
            join-Uncrossed side t.price (a, left_over t s) p mine s.left
              (sweep-beyond side t t.remaining_qty theirs sorted wanted) kept)
      | inr goes ↦ rw goes kept
    ]

-- If no bid of the represented book meets an ask, then after an order that add_order accepts, under
-- the conditions of `add_order_lem`, no bid of the book meets an ask either.
pub add_order-Uncrossed :
    (clock : ℕ → ℕ) (b : OrderBook) (side : Side) (mine theirs : List Level)
    (r : Represents b side mine theirs) (id price qty : ℕ) (type : OrderType) (a : Ptr)
    (rest : List Ptr)
    → Uncrossed side mine theirs
    → (qty == 0) ≡ false
    → qty < 2 ^ 32
    → lookup id b.order_map ≡ none
    → b.order_pool.free_list ≡ a ∷ rest
    → LevelAvailable b price mine
    → b.order_pool.capacity < 2 ^ 64
    → ((p : Ptr)
        → VolumesFit (
            own_side side
              (incoming clock b side mine theirs r id price qty type)
              (outcome_of clock b side mine theirs r id price qty type)
              a
              p
              mine))
    → (ms : List MatchEvent) × (d : OrderBook) × (mine' theirs' : List Level) × (add_order clock id
          side price qty type b
        ≡ ok ms d)
      × Represents d side mine' theirs'
      × Uncrossed side mine' theirs'
add_order-Uncrossed clock b side mine theirs r id price qty type a rest u valid small new free
      available few fits =
    let t = new_order id price qty side type 0 in
    let (p, d, run, r') =
      add_order_lem clock b side mine theirs r id price qty type a rest valid small new free
        available few fits in
    (_, d, _, _, run, r', own_side-Uncrossed side t a p mine theirs r.theirs_sorted u)

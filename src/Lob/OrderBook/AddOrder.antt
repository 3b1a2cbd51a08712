-- ===== src/Lob/OrderBook/AddOrder.antt =====
-- addOrder of 02_LOB_Engine/src/OrderBook.cpp against the lists that the book stands for.
use object_oriented_programm.Prelude.{
  ℕ, ◌+◌, ◌≡◌, refl, ◌≤◌, ◌<◌, ◌^◌, Bool, true, false, ◌&&◌, Option, some, none, List, [], ◌∷◌, ltb,
  ◌==◌, if◌then◌else◌, arith, lookup, ok, Bool-cases, Option-cases, inl, inr, ◌⊎◌, ◌∙◌, sym,
}
use object_oriented_programm.Lob.Types.{Ptr, Side, OrderType, is_limit, Order, new_order}
use object_oriented_programm.Lob.Pool.Access.{load-ok}
use object_oriented_programm.Lob.PriceLevel.Chain.{Entry}
use object_oriented_programm.Lob.OrderBook.{OrderBook, before}
use object_oriented_programm.Lob.OrderBook.Matching.SideLoop.{closed_to}
use object_oriented_programm.Lob.OrderBook.View.{Level, HasFree, index, count, orders_of}
use object_oriented_programm.Lob.OrderBook.Represents.{Represents, ids, first_some, order_index}
use object_oriented_programm.Lob.OrderBook.Matching.Sweep.{Swept, reports}
use object_oriented_programm.Lob.OrderBook.Orders.{rest_or_drop, add_order}
use object_oriented_programm.Lob.OrderBook.Orders.Holding.{
  Holding, with_order, allocate_lem, without_order, drop_lem,
}
use object_oriented_programm.Lob.OrderBook.Orders.Match.{outcome, Matched, match_order_lem}
use object_oriented_programm.Lob.OrderBook.Orders.Join.{join}
use object_oriented_programm.Lob.OrderBook.Orders.Open.{Opens, open_found, open_fresh}
use object_oriented_programm.Lob.OrderBook.Orders.Append.{VolumesFit}
use object_oriented_programm.Lob.OrderBook.Orders.Rest.{rest_lem}
use object_oriented_programm.Lob.OrderBook.Matching.Ids.{sweep-ids}

-- What rests of an order, and whether it does.
abbrev pub left_over : Order → Swept → Order
left_over t s = record t { remaining_qty = s.rest }

abbrev pub rests : Order → Swept → Bool
rests t s = ltb 0 s.rest && is_limit t.type

-- The levels of the order's own side afterwards; `a` is the order's slot, `p` that of a new level.
abbrev pub own_side : Side → Order → Swept → Ptr → Ptr → List Level → List Level
own_side side t s a p mine = if rests t s then join side t.price (a, left_over t s) p mine else mine

-- The level that the order may need exists, or the pool has a slot for it.
abbrev pub LevelAvailable : OrderBook → ℕ → List Level → Type 0
LevelAvailable b price mine =
    ((q : Ptr) × (lookup price (index mine) ≡ some q)) ⊎ HasFree b.level_pool.free_list

count-absent :
    (id : ℕ) (xs : List Entry) → lookup id (order_index xs) ≡ none → count id (ids xs) ≡ 0
count-absent id [] h = refl
count-absent id ((a, o) ∷ xs) h = ground (arith, count-absent id xs)

pub both_absent : (o p : Option Ptr) → first_some o p ≡ none → (o ≡ none) × (p ≡ none)
both_absent none p h = (refl, h)
both_absent (some a) p h = cc

opens :
    (b : OrderBook) (side : Side) (taker : Ptr) (t : Order) (mine theirs : List Level)
    (m : Holding b side taker t mine theirs)
    → LevelAvailable b t.price mine
    → (p : Ptr) × Opens b side taker t mine theirs m p
opens b side taker t mine theirs m (inl (q, e)) = (q, open_found b side taker t mine theirs m q q e)
opens b side taker t mine theirs m (inr (p, rest, free)) =
    elim (Option-cases (lookup t.price (index mine))) [
      | inl absent ↦ (p, open_fresh b side taker t mine theirs m p rest absent free)
      | inr (q, found) ↦ (q, open_found b side taker t mine theirs m q q found)
    ]

module _ (clock : ℕ → ℕ) (b : OrderBook) (side : Side) (mine theirs : List Level)
    (r : Represents b side mine theirs) (id price qty : ℕ) (type : OrderType) where
  abbrev pub incoming : Order
  incoming = new_order id price qty side type 0

  abbrev pub outcome_of : Swept
  outcome_of = outcome side incoming theirs

  module _ (a : Ptr) (rest : List Ptr) (valid : (qty == 0) ≡ false) (small : qty < 2 ^ 32)
      (new : lookup id b.order_map ≡ none) (free : b.order_pool.free_list ≡ a ∷ rest) where
    wanted : rests incoming outcome_of ≡ true → 1 ≤ outcome_of.rest
    wanted h = ground arith

    limited : rests incoming outcome_of ≡ true → is_limit type ≡ true
    limited h = ground arith

    absent : count id (ids (orders_of mine)) + count id (ids (orders_of theirs)) ≡ 0
    absent =
        let (m, t) =
          both_absent (lookup id (order_index (orders_of mine)))
            (lookup id (order_index (orders_of theirs))) (sym (r.order_map id) ∙ new) in
        omega (arith, count-absent id (orders_of mine) m, count-absent id (orders_of theirs) t)

    abbrev Settles : OrderBook → OrderBook → (mine' : List Level) → Type 0
    Settles c d mine' =
        (rest_or_drop id side type a c ≡ ok tt d) × Represents d side mine' outcome_of.left

    settle :
        (c : OrderBook)
        → Matched side a incoming mine outcome_of (with_order b a incoming rest) c
        → LevelAvailable b price mine
        → b.order_pool.capacity < 2 ^ 64
        → ((p : Ptr) → VolumesFit (own_side side incoming outcome_of a p mine))
        → (p : Ptr) × (d : OrderBook) × Settles c d (own_side side incoming outcome_of a p mine)
    unfolding rest_or_drop
    settle c k available few fits =
        let o = left_over incoming outcome_of in
        let theirs' = outcome_of.left in
        let available' = elim available as (λ x. LevelAvailable c price mine) [
          | inl found ↦ inl found
          | inr room ↦ inr (k.level_free room)
        ] in
        let gone : count id (ids (orders_of mine)) + count id (ids (orders_of theirs')) ≡ 0 =
          omega (arith, absent, sweep-ids (closed_to (before side) incoming) id qty theirs) in
        elim (Bool-cases (rests incoming outcome_of)) [
          | inl stays ↦
              let (p, open_level) = opens c side a o mine theirs' k.holding available' in
              let (d, run, r') =
                rest_lem c side a o mine theirs' p k.holding open_level (wanted stays)
                  (limited stays) refl gone (rw k.order_capacity few) (rw stays at (fits p)) in
              (p, d, (run, rw stays r'))
          | inr goes ↦
              let (run, r') = drop_lem c side a o mine theirs' k.holding in
              (
                a,
                without_order c a,
                (rw (load-ok a c.order_pool k.holding.between.taker_at, goes, run), rw goes r'),
              )
        ]

    -- On a book that represents two lists of levels, a new order with a quantity that is not 0 and
    -- fits 32 bits, an identifier that the map lacks, a free slot in the order pool, a level at its
    -- price or a free slot in the level pool, a capacity below 2 ^ 64 and sums per level below 2 ^
    -- 32 is accepted: the reported trades are those of `sweep` over the opposite side, the book
    -- then represents what `sweep` leaves of that side, and what is left of a limit order rests on
    -- its own side behind the orders of its price.
    pub add_order_lem :
        LevelAvailable b price mine
        → b.order_pool.capacity < 2 ^ 64
        → ((p : Ptr) → VolumesFit (own_side side incoming outcome_of a p mine))
        → (p : Ptr) × (d : OrderBook) × (add_order clock id side price qty type b
            ≡ ok (reports clock id 0 outcome_of.trades) d)
          × Represents d side (own_side side incoming outcome_of a p mine) outcome_of.left
    unfolding add_order
    add_order_lem available few fits =
        let (alloc, held) = allocate_lem b side mine theirs r a rest incoming free small in
        let (c, run, k) =
          match_order_lem clock side (with_order b a incoming rest) a incoming mine theirs held in
        let (p, d, (end, r')) = settle c k available few fits in
        (p, d, rw (valid, new, alloc, run, end), r')

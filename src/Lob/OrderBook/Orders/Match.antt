-- ===== src/Lob/OrderBook/Orders/Match.antt =====
-- matchBuyOrder and matchSellOrder on a book that holds an incoming order.
use object_oriented_programm.Prelude.{ℕ, ◌≡◌, refl, List, [], arith, lookup, ok, subst, sym, ◌∙◌}
use object_oriented_programm.Lob.Types.{Ptr, Side, buy, sell, Order}
use object_oriented_programm.Lob.OrderBook.{OrderBook, before, with_levels}
use object_oriented_programm.Lob.OrderBook.View.{Level, HasFree, index, count-has, orders_of}
use object_oriented_programm.Lob.OrderBook.Represents.{
  WellFormed, opposite, order_index, ids, first_some, lookup-none,
}
use object_oriented_programm.Lob.OrderBook.Matching.{
  match_levels, match_buy_order, match_sell_order,
}
use object_oriented_programm.Lob.OrderBook.Matching.Ready.{Counted}
use object_oriented_programm.Lob.OrderBook.Matching.Sweep.{Swept, sweep, reports}
use object_oriented_programm.Lob.OrderBook.Matching.Between.{Between-levels}
use object_oriented_programm.Lob.OrderBook.Matching.LevelLoop.{forget}
use object_oriented_programm.Lob.OrderBook.Matching.SideLoop.{closed_to, sizes, match_levels_lem}
use object_oriented_programm.Lob.OrderBook.Matching.Ids.{
  lookup-forget, sweep-ids, sweep-lookup, sweep-LevelsStand, sweep-Sorted,
}
use object_oriented_programm.Lob.OrderBook.Orders.{match_order}
use object_oriented_programm.Lob.OrderBook.Orders.Holding.{Holding}

-- The outcome for an order `t` on `side` that meets `theirs`.
abbrev pub outcome : Side → Order → List Level → Swept
outcome side t theirs = sweep (closed_to (before side) t) t.remaining_qty theirs

module _ (side : Side) (t : Order) (mine theirs : List Level)
    (w : WellFormed side mine theirs) where
  outcome-WellFormed : WellFormed side mine (outcome side t theirs).left
  outcome-WellFormed =
      let closed = closed_to (before side) t in
      record {
        mine_stand = w.mine_stand;
        theirs_stand =
            sweep-LevelsStand closed (opposite side) t.remaining_qty theirs w.theirs_stand;
        mine_sorted = w.mine_sorted;
        theirs_sorted = sweep-Sorted closed (opposite side) t.remaining_qty theirs w.theirs_sorted;
        unique = λ id. omega (arith, w.unique id, sweep-ids closed id t.remaining_qty theirs);
      }

  outcome-lookup :
      (id : ℕ) (m : List (ℕ × Ptr))
      → lookup id m
        ≡ first_some
            (lookup id (order_index (orders_of mine)))
            (lookup id (order_index (orders_of theirs)))
      → lookup id (forget (outcome side t theirs).used m)
        ≡ first_some
            (lookup id (order_index (orders_of mine)))
            (lookup id (order_index (orders_of (outcome side t theirs).left)))
  outcome-lookup id m e =
      let closed = closed_to (before side) t in
      ground (
        arith,
        e,
        lookup-forget id (outcome side t theirs).used m,
        sweep-lookup closed id t.remaining_qty theirs,
        sweep-ids closed id t.remaining_qty theirs,
        w.unique id,
        count-has id (ids (outcome side t theirs).used),
        lookup-none id (orders_of mine),
      )

-- What matching leaves: the orders of `s` are used up, the trades counted.
pub record Matched (side : Side) (taker : Ptr) (t : Order) (mine : List Level) (s : Swept)
    (b c : OrderBook) : Type 0 where
  pub holding : Holding c side taker (record t { remaining_qty = s.rest }) mine s.left
  pub order_capacity : c.order_pool.capacity ≡ b.order_pool.capacity
  pub level_capacity : c.level_pool.capacity ≡ b.level_pool.capacity
  pub level_free : HasFree b.level_pool.free_list → HasFree c.level_pool.free_list
  pub counted : Counted (sizes s.trades) b c

module _ (clock : ℕ → ℕ) where
  -- For an order that stands in the pool of a represented book and in no list, matchBuyOrder and
  -- matchSellOrder end without a fault and report the trades of `sweep`; the book afterwards holds
  -- what `sweep` leaves of the opposite side, its map forgets the orders used up, and the two
  -- statistics are counted over the trades modulo 2 ^ 64.
  pub match_order_lem :
      (side : Side) (b : OrderBook) (taker : Ptr) (t : Order) (mine theirs : List Level)
      → Holding b side taker t mine theirs
      → let s = outcome side t theirs in
        (c : OrderBook) × (match_order clock side taker b ≡ ok (reports clock t.id 0 s.trades) c)
        × Matched side taker t mine s b c
  unfolding match_order match_buy_order match_sell_order
  match_order_lem buy b taker t mine theirs m =
      let s = outcome buy t theirs in
      let (c, run, k) = match_levels_lem clock (before buy) taker t theirs mine [] b m.between in
      let run' : match_levels clock (before buy) taker b.asks [] b
          ≡ ok (reports clock t.id 0 s.trades, index s.left) c =
        subst
          (λ l.
            match_levels clock (before buy) taker l [] b
            ≡ ok (reports clock t.id 0 s.trades, index s.left) c)
          (sym m.theirs_map) run in
      (
        with_levels sell (index s.left) c,
        rw run',
        record {
          holding = record {
            between = Between-levels c sell (index s.left) taker _ s.left mine k.between;
            mine_map = k.bids ∙ m.mine_map;
            theirs_map = refl;
            order_map = λ id.
                rw k.order_map
                  (outcome-lookup buy t mine theirs m.well_formed id b.order_map (m.order_map id));
            well_formed = outcome-WellFormed buy t mine theirs m.well_formed;
          };
          order_capacity = k.order_capacity;
          level_capacity = k.level_capacity;
          level_free = k.level_free;
          counted = k.counted;
        },
      )
  match_order_lem sell b taker t mine theirs m =
      let s = outcome sell t theirs in
      let (c, run, k) = match_levels_lem clock (before sell) taker t theirs mine [] b m.between in
      let run' : match_levels clock (before sell) taker b.bids [] b
          ≡ ok (reports clock t.id 0 s.trades, index s.left) c =
        subst
          (λ l.
            match_levels clock (before sell) taker l [] b
            ≡ ok (reports clock t.id 0 s.trades, index s.left) c)
          (sym m.theirs_map) run in
      (
        with_levels buy (index s.left) c,
        rw run',
        record {
          holding = record {
            between = Between-levels c buy (index s.left) taker _ s.left mine k.between;
            mine_map = k.asks ∙ m.mine_map;
            theirs_map = refl;
            order_map = λ id.
                rw k.order_map
                  (outcome-lookup sell t mine theirs m.well_formed id b.order_map (m.order_map id));
            well_formed = outcome-WellFormed sell t mine theirs m.well_formed;
          };
          order_capacity = k.order_capacity;
          level_capacity = k.level_capacity;
          level_free = k.level_free;
          counted = k.counted;
        },
      )

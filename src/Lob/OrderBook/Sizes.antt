-- ===== src/Lob/OrderBook/Sizes.antt =====
-- What no command on a book of 02_LOB_Engine/src/OrderBook.cpp changes: the sizes of the pools, and
-- that orderMap_ has an entry at most for each identifier.
pub mod Commands
use object_oriented_programm.Prelude.{
  ℕ, zero, suc, ◌+◌, ◌≡◌, refl, Bool, true, false, ◌&&◌, ◌||◌, Option, some, none, List, [], ◌∷◌,
  ◌++◌, ltb, ◌==◌, lookup, insert, erase, lookup-insert, lookup-erase, is_some, Run, Cmd, ok, threw,
  fault, out_of_fuel, map_state, arith, Bool-cases, inl, inr, min, length, not,
}
use object_oriented_programm.Lob.Types.{
  Ptr, null, Side, buy, sell, Order, OrderType, MatchEvent, is_limit, new_order,
}
use object_oriented_programm.Lob.Pool.{Pool, load}
use object_oriented_programm.Lob.PriceLevel
use object_oriented_programm.Lob.PriceLevel.{PriceLevel, new_level}
use object_oriented_programm.Lob.Preserves.{
  Leaves, Preserves, pure-Preserves, if-Preserves, bind-Preserves, HasCapacity, load-Preserves,
  store-Preserves, allocate-Preserves, deallocate-Preserves, append-Preserves, remove-Preserves,
}
use object_oriented_programm.Lob.OrderBook.{
  OrderBook, on_orders, on_levels, get_book, modify, levels, with_levels, insert_level, before,
}
use object_oriented_programm.Lob.OrderBook.Matching.{
  reduce, reduce_volume, count_trade, retire_maker, exchange, trade, match_level, match_levels,
  match_buy_order, match_sell_order,
}
use object_oriented_programm.Lob.OrderBook.Orders.{
  use_or_create, get_or_create_price_level, remove_price_level_if_empty, rest_or_drop, match_order,
  add_order, leave_level, cancel_found, cancel_order,
}
use object_oriented_programm.Lob.OrderBook.UniqueKeys.{
  UniqueKeys, insert-UniqueKeys, erase-UniqueKeys,
}

module _ (n k : ℕ) where
  abbrev pub Sized : OrderBook → Type 0
  Sized b = (b.order_pool.capacity ≡ n) × (b.level_pool.capacity ≡ k) × UniqueKeys b.order_map

  orders-Leaves :
      {A : Type 0} (b : OrderBook) (r : Run (Pool Order) A)
      → Sized b
      → Leaves (HasCapacity n) r
      → Leaves Sized (map_state (λ p. record b { order_pool = p }) r)
  orders-Leaves b (ok a p) (o, l, u) h = (h, l, u)
  orders-Leaves b (threw p) (o, l, u) h = (h, l, u)
  orders-Leaves b fault s h = tt
  orders-Leaves b out_of_fuel s h = tt

  levels-Leaves :
      {A : Type 0} (b : OrderBook) (r : Run (Pool PriceLevel) A)
      → Sized b
      → Leaves (HasCapacity k) r
      → Leaves Sized (map_state (λ p. record b { level_pool = p }) r)
  levels-Leaves b (ok a p) (o, l, u) h = (o, h, u)
  levels-Leaves b (threw p) (o, l, u) h = (o, h, u)
  levels-Leaves b fault s h = tt
  levels-Leaves b out_of_fuel s h = tt

  pub on_orders-Preserves :
      {A : Type 0} {m : Cmd (Pool Order) A}
      → Preserves (HasCapacity n) m
      → Preserves Sized (on_orders m)
  on_orders-Preserves {A} {m} p = record {
    preserves = λ b s. orders-Leaves b (m b.order_pool) s (p.preserves b.order_pool s.0);
  }

  pub on_levels-Preserves :
      {A : Type 0} {m : Cmd (Pool PriceLevel) A}
      → Preserves (HasCapacity k) m
      → Preserves Sized (on_levels m)
  on_levels-Preserves {A} {m} p = record {
    preserves = λ b s. levels-Leaves b (m b.level_pool) s (p.preserves b.level_pool s.1);
  }

  modify-Preserves :
      (f : OrderBook → OrderBook)
      → ((b : OrderBook) → Sized b → Sized (f b))
      → Preserves Sized (modify f)
  modify-Preserves f h = record { preserves = h }

  pub get_book-Preserves : Preserves Sized get_book
  get_book-Preserves = record { preserves = λ b s. s }

  pub reads_order : (p : Ptr) → Preserves Sized (on_orders (load p))
  reads_order p = on_orders-Preserves (load-Preserves n p)

  pub reads_level : (p : Ptr) → Preserves Sized (on_levels (load p))
  reads_level p = on_levels-Preserves (load-Preserves k p)

  reduce-Preserves : (p : Ptr) (q : ℕ) → Preserves (HasCapacity n) (reduce p q)
  unfolding reduce
  reduce-Preserves p q = bind-Preserves (load-Preserves n p) (λ o. store-Preserves n p _)

  exchange-Preserves :
      (level taker maker : Ptr) (q : ℕ) → Preserves Sized (exchange level taker maker q)
  unfolding exchange reduce_volume
  exchange-Preserves level taker maker q =
      bind-Preserves (on_orders-Preserves (reduce-Preserves taker q)) (λ _.
        bind-Preserves (on_orders-Preserves (reduce-Preserves maker q)) (λ _.
          on_levels-Preserves
            (bind-Preserves (load-Preserves k level) (λ l. store-Preserves k level _))))

  -- The two writes of orderMap_.
  pub forgets :
      (id : ℕ) → Preserves Sized (modify (λ b. record b { order_map = erase id b.order_map }))
  forgets id =
      modify-Preserves (λ b. record b { order_map = erase id b.order_map })
        (λ b (o, l, u). (o, l, erase-UniqueKeys id b.order_map u))

  pub enters :
      (id : ℕ) (p : Ptr)
      → Preserves Sized (modify (λ b. record b { order_map = insert id p b.order_map }))
  enters id p =
      modify-Preserves (λ b. record b { order_map = insert id p b.order_map })
        (λ b (o, l, u). (o, l, insert-UniqueKeys id p b.order_map u))

  -- One of the price maps is written.
  pub sides_change :
      (side : Side) (f : List (ℕ × Ptr) → List (ℕ × Ptr))
      → Preserves Sized (modify (λ b. with_levels side (f (levels side b)) b))
  sides_change buy f = modify-Preserves (λ b. with_levels buy (f (levels buy b)) b) (λ b s. s)
  sides_change sell f = modify-Preserves (λ b. with_levels sell (f (levels sell b)) b) (λ b s. s)

  retire_maker-Preserves :
      (level maker : Ptr) (id : ℕ) → Preserves Sized (retire_maker level maker id)
  unfolding retire_maker
  retire_maker-Preserves level maker id = bind-Preserves (forgets id) (λ _.
      bind-Preserves (reads_level level) (λ l.
        bind-Preserves (on_orders-Preserves (remove-Preserves n l maker)) (λ l'.
          bind-Preserves (on_levels-Preserves (store-Preserves k level l'))
            (λ _. on_orders-Preserves (deallocate-Preserves n maker)))))

  module _ (clock : ℕ → ℕ) where
    -- The trades with the report of one more.
    abbrev report : Order → Order → Order → Order → PriceLevel → List MatchEvent → List MatchEvent
    report t t' m m' l ms =
        ms
        ++ record {
          maker_order_id = m'.id;
          taker_order_id = t'.id;
          match_price = l.price;
          match_quantity = min t.remaining_qty m.remaining_qty;
          timestamp = clock (length ms);
        }
          ∷ []

    trade-Preserves :
        (level taker maker : Ptr) (ms : List MatchEvent)
        → Preserves Sized (trade clock level taker maker ms)
    unfolding trade count_trade
    trade-Preserves level taker maker ms = bind-Preserves (reads_order taker) (λ t.
        bind-Preserves (reads_order maker) (λ m.
          bind-Preserves (exchange-Preserves level taker maker _) (λ _.
            bind-Preserves (reads_order maker) (λ m'. bind-Preserves (reads_order taker) (λ t'.
              bind-Preserves (reads_level level) (λ l.
                bind-Preserves
                  (modify-Preserves (count_trade (min t.remaining_qty m.remaining_qty)) (λ b s. s))
                  (λ _.
                    bind-Preserves
                      (if-Preserves (m'.remaining_qty == 0)
                        (retire_maker-Preserves level maker m'.id) (pure-Preserves tt))
                      (λ _. pure-Preserves (report t t' m m' l ms)))))))))

    match_level-Preserves :
        (rounds : ℕ) (level taker maker : Ptr) (ms : List MatchEvent)
        → Preserves Sized (match_level clock rounds level taker maker ms)
    unfolding match_level
    match_level-Preserves zero level taker maker ms = record { preserves = λ b s. tt }
    match_level-Preserves (suc r) level taker maker ms =
        if-Preserves (maker == null) (pure-Preserves ms) (
          bind-Preserves (reads_order taker) (λ t.
            if-Preserves (t.remaining_qty == 0) (pure-Preserves ms) (
              bind-Preserves (reads_order maker) (λ m.
                bind-Preserves (trade-Preserves level taker maker ms)
                  (λ ms'. match_level-Preserves r level taker m.next ms')))))

    match_levels-Preserves :
        (beyond : ℕ → ℕ → Bool) (taker : Ptr) (vs : List (ℕ × Ptr)) (ms : List MatchEvent)
        → Preserves Sized (match_levels clock beyond taker vs ms)
    unfolding match_levels
    match_levels-Preserves beyond taker [] ms = pure-Preserves (ms, [])
    match_levels-Preserves beyond taker ((price, level) ∷ rest) ms =
        bind-Preserves (reads_order taker) (λ t.
          if-Preserves (t.remaining_qty == 0) (pure-Preserves (ms, (price, level) ∷ rest)) (
            bind-Preserves (reads_level level) (λ l.
              if-Preserves (is_limit t.type && beyond l.price t.price)
                (pure-Preserves (ms, (price, level) ∷ rest))
                (bind-Preserves (match_level-Preserves (l.order_count + 1) level taker l.head ms)
                  (λ ms'. bind-Preserves (reads_level level) (λ l'.
                    if-Preserves (PriceLevel.is_empty l')
                      (bind-Preserves (on_levels-Preserves (deallocate-Preserves k level))
                        (λ _. match_levels-Preserves beyond taker rest ms'))
                      (bind-Preserves (match_levels-Preserves beyond taker rest ms')
                        (λ r. pure-Preserves (r.0, (price, level) ∷ r.1)))))))))

    pub match_order-Preserves : (side : Side) (p : Ptr) → Preserves Sized (match_order clock side p)
    unfolding match_order match_buy_order match_sell_order
    match_order-Preserves buy p = bind-Preserves get_book-Preserves (λ b.
        bind-Preserves (match_levels-Preserves _ p b.asks []) (λ r.
          bind-Preserves (modify-Preserves (λ b. record b { asks = r.1 }) (λ b s. s))
            (λ _. pure-Preserves r.0)))
    match_order-Preserves sell p = bind-Preserves get_book-Preserves (λ b.
        bind-Preserves (match_levels-Preserves _ p b.bids []) (λ r.
          bind-Preserves (modify-Preserves (λ b. record b { bids = r.1 }) (λ b s. s))
            (λ _. pure-Preserves r.0)))

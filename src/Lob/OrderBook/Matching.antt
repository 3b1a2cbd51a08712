-- ===== src/Lob/OrderBook/Matching.antt =====
-- matchBuyOrder and matchSellOrder of 02_LOB_Engine/src/OrderBook.cpp. The two differ in the map
-- that they walk and in the test that ends a limit order's walk; the loops are shared here.
-- `clock k` is what the clock says at the trade that finds `k` trades in `matches`.
pub mod Fill
pub mod Steps
pub mod Sweep
pub mod Between
pub mod SideLoop
pub mod Ids
pub mod Trade
pub mod Ready
pub mod LevelLoop
use object_oriented_programm.Prelude.{
  ℕ, zero, suc, ◌+◌, min, Bool, ◌&&◌, List, [], ◌∷◌, ◌++◌, ltb, ◌==◌, if◌then◌else◌, length, erase,
  Cmd, out_of_fuel, pure, ◌>>=◌, ◌>>◌,
}
use object_oriented_programm.Lob.Types.{Ptr, null, is_limit, MatchEvent, Order}
use object_oriented_programm.Lob.Pool.{load, store, deallocate, Pool}
use object_oriented_programm.Lob.PriceLevel
use object_oriented_programm.Lob.PriceLevel.{PriceLevel, add64, sub32}
use object_oriented_programm.Lob.OrderBook.{OrderBook, on_orders, on_levels, get_book, modify}

-- `order->remainingQty -= qty`.
unfoldable pub reduce : Ptr → ℕ → Cmd (Pool Order) (Unit {0})
unfolding load store sub32
reduce p qty = do o ← load p; store p (record o { remaining_qty = sub32 o.remaining_qty qty })

-- `level->totalVolume -= qty`.
unfoldable pub reduce_volume : Ptr → ℕ → Cmd (Pool PriceLevel) (Unit {0})
unfolding load store sub32
reduce_volume p qty = do l ← load p; store p (record l { total_volume = sub32 l.total_volume qty })

unfoldable pub count_trade : ℕ → OrderBook → OrderBook
unfolding add64
count_trade qty b = record b {
  total_trades_count = add64 b.total_trades_count 1;
  total_volume_traded = add64 b.total_volume_traded qty;
}

-- The maker is filled: it leaves the map, its level and the pool.
unfoldable pub retire_maker : Ptr → Ptr → ℕ → Cmd OrderBook (Unit {0})
unfolding load store deallocate PriceLevel.remove
retire_maker level maker id = do
  modify (λ b. record b { order_map = erase id b.order_map })
  l ← on_levels (load level)
  l ← on_orders (PriceLevel.remove l maker)
  on_levels (store level l)
  on_orders (deallocate maker)

-- What a trade takes from the two orders and from the level's volume.
unfoldable pub exchange : Ptr → Ptr → Ptr → ℕ → Cmd OrderBook (Unit {0})
unfolding reduce reduce_volume
exchange level taker maker qty = do
  on_orders (reduce taker qty)
  on_orders (reduce maker qty)
  on_levels (reduce_volume level qty)

module _ (clock : ℕ → ℕ) where
  -- One round of the inner loop, for a maker that is not null and a taker that is not filled.
  unfoldable pub trade : Ptr → Ptr → Ptr → List MatchEvent → Cmd OrderBook (List MatchEvent)
  unfolding load exchange count_trade retire_maker
  trade level taker maker matches = do
    t ← on_orders (load taker)
    m ← on_orders (load maker)
    let fill_qty = min t.remaining_qty m.remaining_qty
    exchange level taker maker fill_qty
    m ← on_orders (load maker)
    t ← on_orders (load taker)
    l ← on_levels (load level)
    modify (count_trade fill_qty)
    if m.remaining_qty == 0 then retire_maker level maker m.id else pure tt
    pure (
        matches
        ++ record {
          maker_order_id = m.id;
          taker_order_id = t.id;
          match_price = l.price;
          match_quantity = fill_qty;
          timestamp = clock (length matches);
        }
          ∷ [])

  -- The inner loop: it is given one more round than the level counts orders.
  unfoldable pub match_level :
      ℕ → Ptr → Ptr → Ptr → List MatchEvent → Cmd OrderBook (List MatchEvent)
  match_level zero level taker maker matches = λ _. out_of_fuel
  match_level (suc k) level taker maker matches = if maker == null then pure matches else do
    t ← on_orders (load taker)
    if t.remaining_qty == 0 then pure matches else do
      m ← on_orders (load maker)
      matches ← trade level taker maker matches
      match_level k level taker m.next matches

  -- The outer loop from an iterator on: the trades, and what is left of the map from there.
  -- `beyond level_price limit_price` ends the walk of a limit order.
  unfoldable pub match_levels :
      (ℕ → ℕ → Bool)
      → Ptr
      → List (ℕ × Ptr)
      → List MatchEvent
      → Cmd OrderBook (List MatchEvent × List (ℕ × Ptr))
  match_levels beyond taker [] matches = pure (matches, [])
  match_levels beyond taker ((price, level) ∷ rest) matches = do
    t ← on_orders (load taker)
    if t.remaining_qty == 0 then pure (matches, (price, level) ∷ rest) else do
      l ← on_levels (load level)
      if is_limit t.type && beyond l.price t.price
          then pure (matches, (price, level) ∷ rest)
          else do
            matches ← match_level (l.order_count + 1) level taker l.head matches
            l ← on_levels (load level)
            if PriceLevel.is_empty l
                then (do on_levels (deallocate level); match_levels beyond taker rest matches)
                else (do
                  (matches, rest) ← match_levels beyond taker rest matches
                  pure (matches, (price, level) ∷ rest))

  unfoldable pub match_buy_order : Ptr → List MatchEvent → Cmd OrderBook (List MatchEvent)
  match_buy_order buy_order matches = do
    b ← get_book
    (matches, asks) ← match_levels (λ ask limit. ltb limit ask) buy_order b.asks matches
    modify (λ b. record b { asks = asks })
    pure matches

  unfoldable pub match_sell_order : Ptr → List MatchEvent → Cmd OrderBook (List MatchEvent)
  match_sell_order sell_order matches = do
    b ← get_book
    (matches, bids) ← match_levels (λ bid limit. ltb bid limit) sell_order b.bids matches
    modify (λ b. record b { bids = bids })
    pure matches

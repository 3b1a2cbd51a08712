-- ===== src/Lob/OrderBook/Queries.antt =====
-- The const members of OrderBook, printBook's contents, and the destructor.
use object_oriented_programm.Prelude.{
  ℕ, zero, suc, ◌-◌, Option, none, some, List, [], ◌∷◌, reverse, leb, if◌then◌else◌, length, Cmd,
  pure, ◌>>=◌, ◌>>◌,
}
use object_oriented_programm.Lob.Types.{Ptr}
use object_oriented_programm.Lob.Pool.{load, deallocate}
use object_oriented_programm.Lob.OrderBook.{OrderBook, on_orders, on_levels, get_book, modify}

-- `false` is none; otherwise the out parameters, price and volume.
unfoldable pub best : List (ℕ × Ptr) → Cmd OrderBook (Option (ℕ × ℕ))
best [] = pure none
best ((price, level) ∷ rest) = do l ← on_levels (load level); pure (some (price, l.total_volume))

unfoldable pub get_best_bid : Cmd OrderBook (Option (ℕ × ℕ))
get_best_bid b = best b.bids b

unfoldable pub get_best_ask : Cmd OrderBook (Option (ℕ × ℕ))
get_best_ask b = best b.asks b

unfoldable pub spread_of : List (ℕ × Ptr) → List (ℕ × Ptr) → Option ℕ
spread_of [] asks = none
spread_of (bid ∷ bids) [] = none
spread_of ((best_bid, _) ∷ bids) ((best_ask, _) ∷ asks) =
    if leb best_bid best_ask then some (best_ask - best_bid) else none

unfoldable pub get_spread : OrderBook → Option ℕ
get_spread b = spread_of b.bids b.asks

unfoldable pub get_bid_levels_count : OrderBook → ℕ
get_bid_levels_count b = length b.bids

unfoldable pub get_ask_levels_count : OrderBook → ℕ
get_ask_levels_count b = length b.asks

unfoldable pub get_active_orders_count : OrderBook → ℕ
get_active_orders_count b = length b.order_map

unfoldable pub get_total_trades_count : OrderBook → ℕ
get_total_trades_count b = b.total_trades_count

unfoldable pub get_total_volume_traded : OrderBook → ℕ
get_total_volume_traded b = b.total_volume_traded

-- The price and the volume of the first `n` levels.
unfoldable pub depth : ℕ → List (ℕ × Ptr) → Cmd OrderBook (List (ℕ × ℕ))
depth zero levels = pure []
depth (suc n) [] = pure []
depth (suc n) ((price, level) ∷ levels) = do
  l ← on_levels (load level)
  rest ← depth n levels
  pure ((price, l.total_volume) ∷ rest)

-- What printBook writes: the asks from the worst shown to the best, the spread, the bids.
pub record Printed : Type 0 where
  pub asks : List (ℕ × ℕ)
  pub spread : Option ℕ
  pub bids : List (ℕ × ℕ)

unfoldable pub print_book : ℕ → Cmd OrderBook Printed
print_book max_levels = do
  b ← get_book
  asks ← depth max_levels b.asks
  bids ← depth max_levels b.bids
  pure (record { asks = reverse asks; spread = get_spread b; bids = bids })

unfoldable pub release_orders : List (ℕ × Ptr) → Cmd OrderBook (Unit {0})
release_orders [] = pure tt
release_orders ((id, order) ∷ rest) = do on_orders (deallocate order); release_orders rest

unfoldable pub release_levels : List (ℕ × Ptr) → Cmd OrderBook (Unit {0})
release_levels [] = pure tt
release_levels ((price, level) ∷ rest) = do on_levels (deallocate level); release_levels rest

-- ~OrderBook.
unfoldable pub destroy : Cmd OrderBook (Unit {0})
destroy = do
  b ← get_book
  release_orders b.order_map
  modify (λ b. record b { order_map = [] })
  b ← get_book
  release_levels b.bids
  modify (λ b. record b { bids = [] })
  b ← get_book
  release_levels b.asks
  modify (λ b. record b { asks = [] })

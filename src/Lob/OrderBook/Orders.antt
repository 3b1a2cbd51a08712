-- ===== src/Lob/OrderBook/Orders.antt =====
-- addOrder, cancelOrder and the handling of levels of 02_LOB_Engine/src/OrderBook.cpp.
pub mod Holding
pub mod Open
pub mod Append
pub mod Rest
pub mod JoinLaws
pub mod Join
pub mod Match
use object_oriented_programm.Prelude.{
  ℕ, Bool, true, false, not, Option, ◌&&◌, ◌||◌, none, some, List, [], ltb, ◌==◌, if◌then◌else◌,
  is_some, lookup, insert, erase, Cmd, pure, ◌>>=◌, ◌>>◌,
}
use object_oriented_programm.Lob.Types.{
  Ptr, null, Side, buy, sell, OrderType, is_limit, MatchEvent, new_order,
}
use object_oriented_programm.Lob.Pool.{load, store, allocate, deallocate}
use object_oriented_programm.Lob.PriceLevel
use object_oriented_programm.Lob.PriceLevel.{new_level}
use object_oriented_programm.Lob.OrderBook.{
  OrderBook, on_orders, on_levels, get_book, modify, insert_level, before, levels, with_levels,
}
use object_oriented_programm.Lob.OrderBook.Matching.{match_buy_order, match_sell_order}

-- The two answers of `find` in getOrCreatePriceLevel.
unfoldable pub use_or_create : Side → ℕ → Option Ptr → Cmd OrderBook Ptr
use_or_create side price (some level) = pure level
use_or_create side price none = do
  level ← on_levels (allocate (new_level price))
  modify (λ b. with_levels side (insert_level (before side) price level (levels side b)) b)
  pure level

unfoldable pub get_or_create_price_level : Side → ℕ → Cmd OrderBook Ptr
unfolding use_or_create
get_or_create_price_level side price = do
  b ← get_book
  use_or_create side price (lookup price (levels side b))

unfoldable pub remove_price_level_if_empty : Side → ℕ → Ptr → Cmd OrderBook (Unit {0})
remove_price_level_if_empty side price level = if level == null then pure tt else do
  l ← on_levels (load level)
  if not (PriceLevel.is_empty l) then pure tt else do
    modify (λ b. with_levels side (erase price (levels side b)) b)
    on_levels (deallocate level)

-- The end of addOrder: what is left of a limit order rests in the book, any other order goes.
unfoldable pub rest_or_drop : ℕ → Side → OrderType → Ptr → Cmd OrderBook (Unit {0})
rest_or_drop id side type incoming = do
  o ← on_orders (load incoming)
  if ltb 0 o.remaining_qty && is_limit type
      then (do
        level ← get_or_create_price_level side o.price
        l ← on_levels (load level)
        l ← on_orders (PriceLevel.append level l incoming)
        on_levels (store level l)
        modify (λ b. record b { order_map = insert id incoming b.order_map }))
      else on_orders (deallocate incoming)

module _ (clock : ℕ → ℕ) where
  unfoldable pub match_order : Side → Ptr → Cmd OrderBook (List MatchEvent)
  match_order buy incoming = match_buy_order clock incoming []
  match_order sell incoming = match_sell_order clock incoming []

  unfoldable pub add_order : ℕ → Side → ℕ → ℕ → OrderType → Cmd OrderBook (List MatchEvent)
  add_order id side price qty type = do
    b ← get_book
    if qty == 0 || is_some (lookup id b.order_map) then pure [] else do
      incoming ← on_orders (allocate (new_order id price qty side type 0))
      matches ← match_order side incoming
      rest_or_drop id side type incoming
      pure matches

-- `level->remove(order); removePriceLevelIfEmpty(...)`, where the order is on a level.
unfoldable pub leave_level : Ptr → Ptr → Cmd OrderBook (Unit {0})
leave_level order level = if level == null then pure tt else do
  l ← on_levels (load level)
  l ← on_orders (PriceLevel.remove l order)
  on_levels (store level l)
  o ← on_orders (load order)
  remove_price_level_if_empty o.side o.price level

-- The two answers of `find` in cancelOrder.
unfoldable pub cancel_found : ℕ → Option Ptr → Cmd OrderBook Bool
cancel_found id none = pure false
cancel_found id (some order) = do
  o ← on_orders (load order)
  leave_level order o.price_level_ptr
  modify (λ b. record b { order_map = erase id b.order_map })
  on_orders (deallocate order)
  pure true

unfoldable pub cancel_order : ℕ → Cmd OrderBook Bool
unfolding cancel_found
cancel_order id = do b ← get_book; cancel_found id (lookup id b.order_map)

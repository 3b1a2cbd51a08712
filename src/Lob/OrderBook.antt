-- ===== src/Lob/OrderBook.antt =====
-- 02_LOB_Engine/include/OrderBook.hpp and src/OrderBook.cpp. A map from prices is a list of its
-- entries in iteration order, and an iterator is the rest of that list.
pub mod View
pub mod Represents
pub mod AddOrder
pub mod Start
pub mod Quotes
pub mod Uncrossed
pub mod Market
pub mod Cancel
pub mod Withdrawn
pub mod UniqueKeys
pub mod Sizes
pub mod Room
pub mod Release
pub mod Destroy
pub mod Matching
pub mod Orders
pub mod Queries
use object_oriented_programm.Prelude.{
  ℕ, zero, suc, ◌+◌, ◌-◌, min, Bool, true, false, ◌&&◌, ◌||◌, Option, none, some, List, [], ◌∷◌,
  ◌++◌, leb, ltb, ◌==◌, if◌then◌else◌, is_some, length, lookup, insert, erase, Cmd, ok, out_of_fuel,
  pure, ◌>>=◌, ◌>>◌, within,
}
use object_oriented_programm.Lob.Types.{
  Ptr, null, Side, buy, sell, OrderType, limit, is_limit, MatchEvent, Order, new_order,
  default_order,
}
use object_oriented_programm.Lob.Pool.{Pool, new_pool, load, store, allocate, deallocate}
use object_oriented_programm.Lob.PriceLevel.{
  PriceLevel, new_level, add64, sub32, append, remove, is_empty,
}

pub record OrderBook : Type 0 where
  pub bids : List (ℕ × Ptr)
  pub asks : List (ℕ × Ptr)
  pub order_map : List (ℕ × Ptr)
  pub order_pool : Pool Order
  pub level_pool : Pool PriceLevel
  pub total_trades_count : ℕ
  pub total_volume_traded : ℕ

abbrev pub default_max_orders : ℕ
default_max_orders = 100000

abbrev pub default_max_levels : ℕ
default_max_levels = 10000

-- A book whose pools hold so many orders and levels.
unfoldable pub new_book : ℕ → ℕ → OrderBook
unfolding new_pool default_order new_level
new_book max_orders max_levels = record {
  bids = [];
  asks = [];
  order_map = [];
  order_pool = new_pool max_orders default_order;
  level_pool = new_pool max_levels (new_level 0);
  total_trades_count = 0;
  total_volume_traded = 0;
}

unfoldable pub order_book : OrderBook
unfolding new_book
order_book = new_book default_max_orders default_max_levels

-- Commands on the two pools, on the objects in them, and on the other members.
abbrev pub on_orders : {A : Type 0} → Cmd (Pool Order) A → Cmd OrderBook A
on_orders = within (λ b. b.order_pool) (λ p b. record b { order_pool = p })

abbrev pub on_levels : {A : Type 0} → Cmd (Pool PriceLevel) A → Cmd OrderBook A
on_levels = within (λ b. b.level_pool) (λ p b. record b { level_pool = p })

abbrev pub get_book : Cmd OrderBook OrderBook
get_book b = ok b b

abbrev pub modify : (OrderBook → OrderBook) → Cmd OrderBook (Unit {0})
modify f b = ok tt (f b)

-- `std::map::operator[]` on a price that the map lacks; `before` is the map's comparator.
unfoldable pub insert_level : (ℕ → ℕ → Bool) → ℕ → Ptr → List (ℕ × Ptr) → List (ℕ × Ptr)
insert_level before price level [] = (price, level) ∷ []
insert_level before price level ((p, q) ∷ rest) =
    if before price p
    then (price, level) ∷ (p, q) ∷ rest
    else (p, q) ∷ insert_level before price level rest

-- std::greater<Price> for the bids, std::less<Price> for the asks.
abbrev pub before : Side → ℕ → ℕ → Bool
before buy p q = ltb q p
before sell p q = ltb p q

abbrev pub levels : Side → OrderBook → List (ℕ × Ptr)
levels buy b = b.bids
levels sell b = b.asks

abbrev pub with_levels : Side → List (ℕ × Ptr) → OrderBook → OrderBook
with_levels buy m b = record b { bids = m }
with_levels sell m b = record b { asks = m }

-- ===== src/Lob/Types.antt =====
-- 02_LOB_Engine/include/Types.hpp and Order.hpp. Identifiers, prices and times are uint64_t,
-- quantities uint32_t; a pointer is 0 for nullptr, or one more than a slot of its pool.
use Prim.Native.String.{String}
use object_oriented_programm.Prelude.{ℕ, Bool, true, false}

abbrev pub Ptr : Type 0
Ptr = ℕ

abbrev pub null : Ptr
null = 0

pub data Side : Type 0 where
  buy sell : Side

pub data OrderType : Type 0 where
  limit market cancel : OrderType

abbrev pub is_limit : OrderType → Bool
is_limit limit = true
is_limit market = false
is_limit cancel = false

pub data Status : Type 0 where
  new partially_filled filled canceled rejected : Status

unfoldable pub side_to_string : Side → String
side_to_string buy = "BUY"
side_to_string sell = "SELL"

pub record MatchEvent : Type 0 where
  pub maker_order_id : ℕ
  pub taker_order_id : ℕ
  pub match_price : ℕ
  pub match_quantity : ℕ
  pub timestamp : ℕ

pub record Order : Type 0 where
  pub id : ℕ
  pub price : ℕ
  pub quantity : ℕ
  pub remaining_qty : ℕ
  pub side : Side
  pub type : OrderType
  pub timestamp : ℕ
  pub price_level_ptr : Ptr
  pub prev : Ptr
  pub next : Ptr

-- The constructor: the whole quantity remains, and the order is in no list.
abbrev pub new_order : ℕ → ℕ → ℕ → Side → OrderType → ℕ → Order
new_order id price quantity side type timestamp = record {
  id = id;
  price = price;
  quantity = quantity;
  remaining_qty = quantity;
  side = side;
  type = type;
  timestamp = timestamp;
  price_level_ptr = null;
  prev = null;
  next = null;
}

-- `Order() = default`: what a slot of the pool holds before its first use.
unfoldable pub default_order : Order
default_order = new_order 0 0 0 buy limit 0

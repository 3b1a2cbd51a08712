-- ===== src/Lob/OrderBook/Matching/Ready.antt =====
-- The state of the two matching loops, and what they leave alone.
use object_oriented_programm.Prelude.{ℕ, ◌-◌, ◌≡◌, ◌<◌, ◌^◌, List, [], ◌∷◌, ◌==◌, false, some}
use object_oriented_programm.Lob.Types.{Ptr, Order}
use object_oriented_programm.Lob.PriceLevel.{add64}
use object_oriented_programm.Lob.PriceLevel.Chain.{Entry, addresses, has, SameOutside}
use object_oriented_programm.Lob.PriceLevel.Represents.{volume, level_of, Holds}
use object_oriented_programm.Lob.OrderBook.{OrderBook}

-- The level at `lp` holds `xs`, and the taker, with what remains of it, stands beside them.
pub record Ready (b : OrderBook) (lp taker : Ptr) (t : Order) (price : ℕ) (xs : List Entry)
    : Type 0 where
  pub level_at : b.level_pool.storage lp ≡ some (level_of price xs)
  pub taker_at : b.order_pool.storage taker ≡ some t
  pub holds : Holds b.order_pool.storage lp xs
  pub apart : has taker (addresses xs) ≡ false
  pub taker_small : t.remaining_qty < 2 ^ 32
  pub volume_small : volume xs < 2 ^ 32

-- What no command on the level at `lp` changes; `ps` are the orders that may be written.
pub record Kept (lp : Ptr) (ps : List Ptr) (b b' : OrderBook) : Type 0 where
  pub bids : b'.bids ≡ b.bids
  pub asks : b'.asks ≡ b.asks
  pub level_free : b'.level_pool.free_list ≡ b.level_pool.free_list
  pub level_capacity : b'.level_pool.capacity ≡ b.level_pool.capacity
  pub level_same : (p : Ptr) → (p == lp) ≡ false → b'.level_pool.storage p ≡ b.level_pool.storage p
  pub order_capacity : b'.order_pool.capacity ≡ b.order_pool.capacity
  pub order_same : SameOutside ps b.order_pool.storage b'.order_pool.storage

-- The two statistics after trades over these quantities.
abbrev pub tally_trades : ℕ → List ℕ → ℕ
tally_trades n [] = n
tally_trades n (q ∷ qs) = tally_trades (add64 n 1) qs

abbrev pub tally_volume : ℕ → List ℕ → ℕ
tally_volume n [] = n
tally_volume n (q ∷ qs) = tally_volume (add64 n q) qs

abbrev pub Counted : List ℕ → OrderBook → OrderBook → Type 0
Counted qs b b' =
    (b'.total_trades_count ≡ tally_trades b.total_trades_count qs)
    × (b'.total_volume_traded ≡ tally_volume b.total_volume_traded qs)

abbrev pub less : Order → ℕ → Order
less o q = record o { remaining_qty = o.remaining_qty - q }

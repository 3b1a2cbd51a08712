-- ===== src/Lob/Exchange.antt =====
-- What 02_LOB_Engine is to do, said without pools, maps and pointers: each side is one queue of
-- orders in the order of price and then of time, and a run is a list of commands.
pub mod Meet
pub mod Flat
pub mod Gone
pub mod Known
pub mod Levels
pub mod Budget
pub mod Shows
pub mod Placed
pub mod Replay
pub mod Life
use object_oriented_programm.Prelude.{
  ℕ, suc, ◌+◌, ◌-◌, Bool, true, false, ◌&&◌, ◌||◌, List, [], ◌∷◌, ◌++◌, ltb, leb, ◌==◌,
  if◌then◌else◌, length, Run, Cmd, ok, threw, pure, ◌>>=◌,
}
use object_oriented_programm.Lob.Types.{Side, buy, sell, OrderType, is_limit, MatchEvent}

-- An order that waits, and what it still wants.
pub record Quote : Type 0 where
  pub id : ℕ
  pub price : ℕ
  pub wanted : ℕ

pub record Deal : Type 0 where
  pub maker : ℕ
  pub price : ℕ
  pub quantity : ℕ

-- Who waits after a match, the deals, and what the taker still wants.
pub record Met : Type 0 where
  pub left : List Quote
  pub deals : List Deal
  pub rest : ℕ

abbrev pub deal : Quote → ℕ → Deal
deal q n = record { maker = q.id; price = q.price; quantity = n }

-- The taker meets the queue from its front, up to a price that is closed to it.
unfoldable pub meet : (ℕ → Bool) → ℕ → List Quote → Met
meet closed n [] = record { left = []; deals = []; rest = n }
meet closed n (q ∷ qs) =
    let next = meet closed (n - q.wanted) qs in
    if n == 0 || closed q.price
    then record { left = q ∷ qs; deals = []; rest = n }
    else if leb q.wanted n
    then record { left = next.left; deals = deal q q.wanted ∷ next.deals; rest = next.rest }
    else record { left = record q { wanted = q.wanted - n } ∷ qs; deals = deal q n ∷ []; rest = 0 }

-- A better price stands in front; among equal prices, who came first.
abbrev pub better : Side → ℕ → ℕ → Bool
better buy p q = ltb q p
better sell p q = ltb p q

unfoldable pub queue_up : (ℕ → ℕ → Bool) → Quote → List Quote → List Quote
queue_up ahead q [] = q ∷ []
queue_up ahead q (r ∷ rs) = if ahead q.price r.price then q ∷ r ∷ rs else r ∷ queue_up ahead q rs

unfoldable pub step_back : ℕ → List Quote → List Quote
step_back id [] = []
step_back id (q ∷ qs) = if q.id == id then qs else q ∷ step_back id qs

abbrev pub waits : ℕ → List Quote → Bool
waits id [] = false
waits id (q ∷ qs) = (q.id == id) || waits id qs

pub record Exchange : Type 0 where
  pub bids : List Quote
  pub asks : List Quote

abbrev pub closed_exchange : Exchange
closed_exchange = record { bids = []; asks = [] }

abbrev pub known : ℕ → Exchange → Bool
known id x = waits id x.bids || waits id x.asks

abbrev pub own : Side → Exchange → List Quote
own buy x = x.bids
own sell x = x.asks

abbrev pub other : Side → Exchange → List Quote
other buy x = x.asks
other sell x = x.bids

abbrev pub with_queues : Side → (mine theirs : List Quote) → Exchange
with_queues buy mine theirs = record { bids = mine; asks = theirs }
with_queues sell mine theirs = record { bids = theirs; asks = mine }

-- The prices at which an order of a side does not trade.
abbrev pub refuses : Side → OrderType → ℕ → ℕ → Bool
refuses side type price p = is_limit type && better side p price

pub data Command : Type 0 where
  submit : ℕ → Side → ℕ → ℕ → OrderType → Command
  withdraw : ℕ → Command

pub data Answer : Type 0 where
  traded : List MatchEvent → Answer
  canceled : Bool → Answer

-- The reports on the deals of a taker; `n` of them stand before.
abbrev pub reports_of : (ℕ → ℕ) → ℕ → ℕ → List Deal → List MatchEvent
reports_of clock taker n [] = []
reports_of clock taker n (d ∷ ds) =
    record {
      maker_order_id = d.maker;
      taker_order_id = taker;
      match_price = d.price;
      match_quantity = d.quantity;
      timestamp = clock n;
    }
    ∷ reports_of clock taker (suc n) ds

abbrev pub waiting : Exchange → ℕ
waiting x = length x.bids + length x.asks

-- An order that is accepted.
unfoldable pub place : ℕ → Side → ℕ → ℕ → OrderType → Exchange → List Deal × Exchange
place id side price qty type x =
    let m = meet (refuses side type price) qty (other side x) in
    let quote : Quote = record { id = id; price = price; wanted = m.rest } in
    if ltb 0 m.rest && is_limit type
    then (m.deals, with_queues side (queue_up (better side) quote (own side x)) m.left)
    else (m.deals, with_queues side (own side x) m.left)

abbrev pub accept : (ℕ → ℕ) → ℕ → List Deal × Exchange → Run Exchange (List MatchEvent)
accept clock id (deals, y) = ok (reports_of clock id 0 deals) y

-- An order without a quantity, or with an identifier that waits, changes nothing; any other is
-- turned away with an exception when `most` orders wait.
unfoldable pub enter : ℕ → (ℕ → ℕ) → ℕ → Side → ℕ → ℕ → OrderType → Cmd Exchange (List MatchEvent)
unfolding place
enter most clock id side price qty type x =
    if qty == 0 || known id x
    then ok [] x
    else if leb most (waiting x)
    then threw x
    else accept clock id (place id side price qty type x)

unfoldable pub leave : ℕ → Cmd Exchange Bool
leave id x = ok (known id x) (record { bids = step_back id x.bids; asks = step_back id x.asks })

-- `clock i` is the clock of the call `i`.
unfoldable pub replay : ℕ → (ℕ → ℕ → ℕ) → ℕ → List Command → Cmd Exchange (List Answer)
unfolding enter leave
replay most clock i [] = pure []
replay most clock i (submit id side price qty type ∷ cs) = do
  trades ← enter most (clock i) id side price qty type
  answers ← replay most clock (suc i) cs
  pure (traded trades ∷ answers)
replay most clock i (withdraw id ∷ cs) = do
  found ← leave id
  answers ← replay most clock (suc i) cs
  pure (canceled found ∷ answers)

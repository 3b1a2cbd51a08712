-- ===== src/Lob/Tests.antt =====
-- The theorems of the engine applied to concrete books.
use object_oriented_programm.Prelude.{
  ℕ, ◌+◌, ◌≡◌, refl, true, Option, some, none, List, [], ◌∷◌, arith, ok, ◌==◌, false, if◌then◌else◌,
  Run, threw, fault, out_of_fuel, inr,
}
use object_oriented_programm.Lob.Types.{null, buy, sell, Order, limit, new_order}
use object_oriented_programm.Lob.OrderBook.{OrderBook, new_book}
use object_oriented_programm.Lob.OrderBook.View.{Level}
use object_oriented_programm.Lob.OrderBook.Represents.{Represents}
use object_oriented_programm.Lob.OrderBook.Orders.{add_order, cancel_order}
use object_oriented_programm.Lob.OrderBook.AddOrder.{add_order_lem}
use object_oriented_programm.Lob.OrderBook.Cancel.Lists.{cancel_from, erase_order}
use object_oriented_programm.Lob.OrderBook.Cancel.{cancel_order_lem, less_order}
use object_oriented_programm.Lob.OrderBook.{before}
use object_oriented_programm.Lob.Pool.{Pool}
use object_oriented_programm.Lob.Pool.Access.{with_storage}
use object_oriented_programm.Lob.PriceLevel
use object_oriented_programm.Lob.PriceLevel.{remove}
use object_oriented_programm.Lob.PriceLevel.Chain.{linked, SameOutside}
use object_oriented_programm.Lob.PriceLevel.Represents.{level_of, Holds, append_lem}
use object_oriented_programm.Lob.PriceLevel.Remove.{remove_lem}
use object_oriented_programm.Lob.OrderBook.Uncrossed.{Uncrossed, add_order-Uncrossed}
use object_oriented_programm.Lob.OrderBook.Quotes.{quotes_lem, print_book_lem}
use object_oriented_programm.Lob.OrderBook.Queries.{
  get_best_bid, get_best_ask, get_spread, print_book,
}
use object_oriented_programm.Lob.OrderBook.Market.{match_order-conserves, total, all_open}
use object_oriented_programm.Lob.OrderBook.Matching.{match_level, match_levels}
use object_oriented_programm.Lob.OrderBook.Matching.Fill.{fill}
use object_oriented_programm.Lob.OrderBook.Matching.Sweep.{sweep}
use object_oriented_programm.Lob.OrderBook.Matching.LevelLoop.{LevelFilled, match_level_lem}
use object_oriented_programm.Lob.OrderBook.Matching.Between.{Between-Ready}
use object_oriented_programm.Lob.OrderBook.Matching.SideLoop.{
  SideSwept, match_levels_lem, closed_to,
}
use object_oriented_programm.Lob.OrderBook.Orders.{match_order}
use object_oriented_programm.Lob.OrderBook.Orders.Holding.{Holding, with_order, allocate_lem}
use object_oriented_programm.Lob.OrderBook.Orders.Match.{outcome}
use object_oriented_programm.Lob.OrderBook.Orders.Join.{join}
use object_oriented_programm.Lob.Types.{MatchEvent}
use object_oriented_programm.Lob.OrderBook.Withdrawn.{cancel_order-add_order}
use object_oriented_programm.Lob.Demo.{still, code}

abbrev pub state_after : {A : Type 0} → Run OrderBook A → OrderBook → OrderBook
state_after (ok a s) b = s
state_after (threw s) b = s
state_after fault b = b
state_after out_of_fuel b = b

abbrev start : OrderBook
start = new_book 4 4

-- A sell order of 50 at 105 rests in the slot 4 of its pool, on the level in the slot 4 of its own.
resting : OrderBook
unfolding code new_book
resting = state_after (add_order still 7 sell 105 50 limit start) start

abbrev seller : Order
seller = new_order 7 105 50 sell limit 0

abbrev offers : List Level
offers = record { addr = 4; price = 105; orders = (4, seller) ∷ [] } ∷ []

resting-Represents : Represents resting buy [] offers
unfolding resting code new_book
resting-Represents = record {
  mine_map = refl;
  theirs_map = refl;
  mine_at = tt;
  theirs_at = (
    record {
      ne_null = refl;
      level_at = refl;
      holds = ((refl, tt), (refl, refl, tt));
      volume_small = omega arith;
    },
    tt,
  );
  order_slots = λ a. ground arith;
  order_total = refl;
  level_slots = λ p. ground arith;
  order_map = λ id. ground arith;
  well_formed = record {
    mine_stand = tt;
    theirs_stand = (refl, (omega arith, refl, refl, tt), tt);
    mine_sorted = tt;
    theirs_sorted = (tt, tt);
    unique = λ id. ground arith;
  };
}

abbrev sold : ℕ → ℕ → MatchEvent
sold taker qty = record {
  maker_order_id = 7;
  taker_order_id = taker;
  match_price = 105;
  match_quantity = qty;
  timestamp = 0;
}

abbrev buyer : Order
buyer = new_order 9 106 80 buy limit 0

-- A buy order of 80 at 106 takes the 50, and rests with 30.
add_order_lem_example :
    (p : ℕ) × (d : OrderBook) × (add_order still 9 buy 106 80 limit resting ≡ ok (sold 9 50 ∷ []) d)
    × Represents d buy
        (record { addr = p; price = 106; orders = (3, record buyer { remaining_qty = 30 }) ∷ [] }
          ∷ [])
        []
unfolding code resting new_book sweep fill join
add_order_lem_example =
    add_order_lem still resting buy [] offers resting-Represents 9 106 80 limit 3 (2 ∷ 1 ∷ []) refl
      (omega arith) refl refl (inr (3, 2 ∷ 1 ∷ [], refl)) (omega arith) (λ p. (omega arith, tt))

cancel_order_lem_example :
    (d : OrderBook) × (cancel_order 7 resting ≡ ok true d) × Represents d buy [] []
unfolding code resting new_book less_order cancel_from erase_order
cancel_order_lem_example = cancel_order_lem resting buy [] offers 7 4 resting-Represents refl

cancel_order-add_order_example :
    (d e : OrderBook) × (add_order still 9 buy 100 80 limit resting ≡ ok [] d)
    × (cancel_order 9 d ≡ ok true e)
    × Represents e buy [] offers
    × (cancel_order 9 e ≡ ok false e)
unfolding code resting new_book join
cancel_order-add_order_example =
    cancel_order-add_order resting buy [] offers resting-Represents 9 100 80 refl still 3
      (2 ∷ 1 ∷ []) (omega arith) refl refl (inr (3, 2 ∷ 1 ∷ [], refl)) (omega arith)
      (λ p. (omega arith, tt)) refl

add_order-Uncrossed_example :
    (ms : List MatchEvent) × (d : OrderBook) × (mine theirs : List Level) × (add_order still 9 buy
        106 80 limit resting
      ≡ ok ms d)
    × Represents d buy mine theirs
    × Uncrossed buy mine theirs
unfolding code resting new_book sweep fill join
add_order-Uncrossed_example =
    add_order-Uncrossed still resting buy [] offers resting-Represents 9 106 80 limit 3 (2 ∷ 1 ∷ [])
      tt refl (omega arith) refl refl (inr (3, 2 ∷ 1 ∷ [], refl)) (omega arith)
      (λ p. (omega arith, tt))

quotes_lem_example :
    (get_best_bid resting ≡ ok none resting)
    × (get_best_ask resting ≡ ok (some (105, 50)) resting)
    × (get_spread resting ≡ none)
quotes_lem_example = quotes_lem resting [] offers resting-Represents tt

print_book_lem_example :
    print_book 5 resting ≡ ok (record { asks = (105, 50) ∷ []; spread = none; bids = [] }) resting
print_book_lem_example = print_book_lem resting [] offers 5 resting-Represents tt

-- The book with the buyer in the slot 3 of the pool.
abbrev held : OrderBook
held = with_order resting 3 buyer (2 ∷ 1 ∷ [])

held-Holding : Holding held buy 3 buyer [] offers
unfolding code resting new_book
held-Holding =
    (allocate_lem resting buy [] offers resting-Represents 3 (2 ∷ 1 ∷ []) buyer refl
      (omega arith)).1

match_order-conserves_example :
    (c : OrderBook) × (ms : List MatchEvent) × (u : Order) × (match_order still buy 3 held
      ≡ ok ms c)
    × (c.order_pool.storage 3 ≡ some u)
    × (total ms + u.remaining_qty ≡ 80)
    × (all_open (closed_to (before buy) buyer) ms ≡ true)
match_order-conserves_example = match_order-conserves still buy held 3 buyer [] offers held-Holding

match_levels_lem_example :
    (c : OrderBook) × (match_levels still (before buy) 3 ((105, 4) ∷ []) [] held
      ≡ ok (sold 9 50 ∷ [], []) c)
    × SideSwept 3 buyer [] (outcome buy buyer offers) held c
unfolding code sweep fill
match_levels_lem_example =
    match_levels_lem still (before buy) 3 buyer offers [] [] held held-Holding.between

match_level_lem_example :
    (c : OrderBook) × (match_level still 2 4 3 4 [] held ≡ ok (sold 9 50 ∷ []) c)
    × LevelFilled 4 3 buyer 105 ((4, seller) ∷ []) (fill 80 ((4, seller) ∷ [])) held c
unfolding code fill
match_level_lem_example =
    match_level_lem still 2 4 3 buyer 105 ((4, seller) ∷ []) [] held (omega arith) (
      Between-Ready held 3 buyer (record { addr = 4; price = 105; orders = (4, seller) ∷ [] }) [] []
        held-Holding.between)

-- Two orders on the level at the address 9.
abbrev second : Order
second = new_order 8 105 20 sell limit 0

abbrev pair : Pool Order
pair = record {
  storage = λ p.
      if p == 1
      then some (linked seller 9 null 2)
      else if p == 2
      then some (linked second 9 1 null)
      else if p == 3
      then some second
      else none;
  free_list = 4 ∷ [];
  capacity = 4;
}

remove_lem_example :
    (h : ℕ → Option Order) × (remove (level_of 105 ((1, seller) ∷ (2, second) ∷ [])) 2 pair
      ≡ ok (level_of 105 ((1, seller) ∷ [])) (with_storage pair h))
    × Holds h 9 ((1, seller) ∷ [])
    × (h 2 ≡ some (linked second null null null))
    × SameOutside (1 ∷ 2 ∷ []) pair.storage h
remove_lem_example =
    remove_lem 105 9 2 second ((1, seller) ∷ []) [] pair
      ((refl, (refl, tt)), (refl, refl, (refl, refl, tt)))

append_lem_example :
    (h : ℕ → Option Order) × (PriceLevel.append 9
        (level_of 105 ((1, seller) ∷ (2, second) ∷ []))
        3
        pair
      ≡ ok (level_of 105 ((1, seller) ∷ (2, second) ∷ (3, second) ∷ [])) (with_storage pair h))
    × Holds h 9 ((1, seller) ∷ (2, second) ∷ (3, second) ∷ [])
    × SameOutside (3 ∷ 1 ∷ 2 ∷ []) pair.storage h
append_lem_example =
    append_lem 105 9 3 second ((1, seller) ∷ (2, second) ∷ []) pair refl refl refl
      ((refl, (refl, tt)), (refl, refl, (refl, refl, tt))) (omega arith, omega arith)

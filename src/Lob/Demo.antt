-- ===== src/Lob/Demo.antt =====
-- 02_LOB_Engine/src/main.cpp.
use object_oriented_programm.Prelude.{
  ℕ, ◌≡◌, refl, insert, erase, Bool, true, Option, none, some, List, [], ◌∷◌, Run, ok, Cmd, pure,
  ◌>>=◌, ◌>>◌,
}
use object_oriented_programm.Lob.Types.{buy, sell, limit, MatchEvent}
use object_oriented_programm.Lob.Pool.{load, store, allocate, deallocate}
use object_oriented_programm.Lob.PriceLevel.{new_level, append, remove, is_empty}
use object_oriented_programm.Lob.OrderBook.{OrderBook, get_book, new_book, insert_level}
use object_oriented_programm.Lob.OrderBook.Matching.{
  reduce, reduce_volume, exchange, count_trade, retire_maker, trade, match_level, match_levels,
  match_buy_order, match_sell_order,
}
use object_oriented_programm.Lob.OrderBook.Orders.{
  use_or_create, cancel_found, get_or_create_price_level, remove_price_level_if_empty, rest_or_drop,
  match_order, add_order, leave_level, cancel_order,
}
use object_oriented_programm.Lob.OrderBook.Queries.{
  Printed, depth, spread_of, get_spread, print_book, get_active_orders_count,
}

abbrev pub still : ℕ → ℕ
still k = 0

-- What main prints: the three depths, the trades of the aggressor, the answer of the cancellation,
-- and the statistics.
record Output : Type 0 where
  first : Printed
  second : Printed
  third : Printed
  trades : List MatchEvent
  canceled : Bool
  trades_count : ℕ
  volume : ℕ
  active : ℕ

-- All the code that a run needs.
unfoldable pub code : Unit {0}
unfolding insert erase load store allocate deallocate new_level append remove is_empty reduce
    reduce_volume exchange count_trade retire_maker trade match_level match_levels match_buy_order
    match_sell_order insert_level use_or_create cancel_found get_or_create_price_level
    remove_price_level_if_empty rest_or_drop match_order add_order leave_level cancel_order depth
    spread_of get_spread print_book get_active_orders_count
code = tt

main : Cmd OrderBook Output
unfolding code
main = do
  add_order still 101 sell 105 50 limit
  add_order still 102 sell 106 100 limit
  add_order still 103 sell 107 200 limit
  add_order still 201 buy 103 70 limit
  add_order still 202 buy 102 120 limit
  add_order still 203 buy 100 300 limit
  first ← print_book 5
  trades ← add_order still 301 buy 106 120 limit
  second ← print_book 5
  canceled ← cancel_order 201
  third ← print_book 5
  b ← get_book
  pure (record {
    first = first;
    second = second;
    third = third;
    trades = trades;
    canceled = canceled;
    trades_count = b.total_trades_count;
    volume = b.total_volume_traded;
    active = get_active_orders_count b;
  })

abbrev pub result : {S A : Type 0} → Run S A → Option A
result (ok a s) = some a
result r = none

main_output :
    result (main (new_book 8 8))
    ≡ some (record {
      first = record {
        asks = (107, 200) ∷ (106, 100) ∷ (105, 50) ∷ [];
        spread = some 2;
        bids = (103, 70) ∷ (102, 120) ∷ (100, 300) ∷ [];
      };
      trades =
          record {
            maker_order_id = 101;
            taker_order_id = 301;
            match_price = 105;
            match_quantity = 50;
            timestamp = 0;
          }
          ∷ record {
            maker_order_id = 102;
            taker_order_id = 301;
            match_price = 106;
            match_quantity = 70;
            timestamp = 0;
          }
          ∷ [];
      second = record {
        asks = (107, 200) ∷ (106, 30) ∷ [];
        spread = some 3;
        bids = (103, 70) ∷ (102, 120) ∷ (100, 300) ∷ [];
      };
      canceled = true;
      third = record {
        asks = (107, 200) ∷ (106, 30) ∷ [];
        spread = some 4;
        bids = (102, 120) ∷ (100, 300) ∷ [];
      };
      trades_count = 2;
      volume = 120;
      active = 4;
    })
unfolding main new_book
main_output = refl

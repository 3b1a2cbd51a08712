-- ===== src/Lob/ReplayTests.antt =====
-- Commands on small books of 02_LOB_Engine.
use object_oriented_programm.Prelude.{
  ℕ, ◌≡◌, refl, true, false, List, [], ◌∷◌, arith, ok, threw, Ends,
}
use object_oriented_programm.Lob.Types.{buy, sell, limit, market}
use object_oriented_programm.Lob.OrderBook.{new_book}
use object_oriented_programm.Lob.Exchange.{
  Command, submit, withdraw, traded, canceled, closed_exchange, replay, meet, queue_up, step_back,
  place, enter, leave,
}
use object_oriented_programm.Lob.Exchange.Shows.{Agrees}
use object_oriented_programm.Lob.Exchange.Life.{Destroys, run_commands-destroy}
use object_oriented_programm.Lob.Exchange.Replay.{run_commands, run_commands-replay}

abbrev no_time : ℕ → ℕ → ℕ
no_time i k = 0

abbrev day : List Command
day =
    submit 1 sell 105 10 limit
    ∷ submit 2 sell 105 20 limit
    ∷ submit 3 buy 106 15 limit
    ∷ submit 2 buy 100 5 limit
    ∷ withdraw 2
    ∷ submit 4 buy 104 7 limit
    ∷ withdraw 9
    ∷ submit 5 sell 1 9 market
    ∷ []

-- What the exchange answers on that day.
day_answers :
    replay 4 no_time 0 day closed_exchange
    ≡ ok
        (traded []
          ∷ traded []
          ∷ traded (
              record {
                maker_order_id = 1;
                taker_order_id = 3;
                match_price = 105;
                match_quantity = 10;
                timestamp = 0;
              }
              ∷ record {
                maker_order_id = 2;
                taker_order_id = 3;
                match_price = 105;
                match_quantity = 5;
                timestamp = 0;
              }
              ∷ [])
          ∷ traded []
          ∷ canceled true
          ∷ traded []
          ∷ canceled false
          ∷ traded (
              record {
                maker_order_id = 4;
                taker_order_id = 5;
                match_price = 104;
                match_quantity = 7;
                timestamp = 0;
              }
              ∷ [])
          ∷ [])
        closed_exchange
unfolding replay meet queue_up step_back place enter leave
day_answers = refl

run_commands-replay_example :
    Agrees (run_commands no_time 0 day (new_book 4 6)) (replay 4 no_time 0 day closed_exchange)
run_commands-replay_example =
    run_commands-replay no_time 4 6 (omega arith) 0 day (omega arith) (omega arith)

-- With two slots for orders, the third order of the day is turned away.
full_day :
    replay 2 no_time 0 day closed_exchange
    ≡ threw (record {
      bids = [];
      asks =
          record { id = 1; price = 105; wanted = 10 }
          ∷ record { id = 2; price = 105; wanted = 20 }
          ∷ [];
    })
unfolding replay meet queue_up step_back place enter leave
full_day = refl

run_commands-destroy_example :
    Ends (Destroys 2 6 no_time) (run_commands no_time 0 day (new_book 2 6))
run_commands-destroy_example =
    run_commands-destroy 2 6 no_time 0 day (omega arith) (omega arith) (omega arith)

-- ===== src/Lob/BenchmarkTests.antt =====
-- The workload of 02_LOB_Engine/benchmarks/BenchmarkLOB.cpp with a generator that counts.
use object_oriented_programm.Prelude.{
  ℕ, suc, ◌+◌, ◌%◌, ◌≡◌, refl, false, List, [], ◌∷◌, arith, and_then, pure, ok, Run, drop,
}
use object_oriented_programm.Lob.OrderBook.{order_book, default_max_orders}
use object_oriented_programm.Lob.Exchange.{
  closed_exchange, replay, meet, queue_up, step_back, place, enter, leave, Exchange, Answer,
  canceled,
}
use object_oriented_programm.Lob.Exchange.Shows.{Agrees}
use object_oriented_programm.Lob.Benchmark.{operations, draw}
use object_oriented_programm.Lob.Benchmark.Workload.{Drawn, commands, times, operations-replay}
use object_oriented_programm.Lob.Benchmark.Cancels.{early_operations, operations-early}

abbrev sides : ℕ → ℕ × ℕ
sides r = (r % 2, r)

abbrev prices : ℕ → ℕ × ℕ
prices r = (90 + r % 21, r)

abbrev sizes : ℕ → ℕ × ℕ
sizes r = (1 + r % 100, suc r)

abbrev no_time : ℕ → ℕ → ℕ
no_time i k = 0

abbrev tick : ℕ → ℕ
tick i = i

counting : Drawn sides prices sizes
counting = record { price_to = λ r. omega arith; qty_to = λ r. omega arith }

operations-replay_example : Agrees (operations sides prices sizes no_time tick 20 1 7 order_book) (
    and_then
      (replay default_max_orders no_time 1 (commands sides prices sizes 20 1 7) closed_exchange)
      (λ answers. pure (times tick 20 1)))
operations-replay_example =
    operations-replay sides prices sizes no_time tick counting 20 7 (omega arith)

operations-early_example :
    operations sides prices sizes no_time tick 20 1 7 order_book
    ≡ early_operations sides prices sizes no_time tick 20 1 7 order_book
operations-early_example =
    operations-early sides prices sizes no_time tick counting 20 7 (omega arith)

abbrev answers_of : Run Exchange (List Answer) → List Answer
answers_of (ok answers x) = answers
answers_of r = []

-- Operation 15 finds order 10, if nobody has traded with it; operation 20 finds nothing.
late_answers :
    drop 19 (
      answers_of
        (replay default_max_orders no_time 1 (commands sides prices sizes 20 1 7) closed_exchange))
    ≡ canceled false ∷ []
unfolding replay meet queue_up step_back place enter leave commands draw
late_answers = refl

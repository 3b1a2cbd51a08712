-- ===== src/Lob/Benchmark.antt =====
-- The operations of main of 02_LOB_Engine/benchmarks/BenchmarkLOB.cpp, and the values of its report.
-- The generator of random numbers, its three distributions, the measured times and floating point
-- are parameters.
pub mod Workload
pub mod Placed
pub mod Cancels
use object_oriented_programm.Prelude.{
  ℕ, zero, suc, ◌-◌, ◌%◌, Bool, ◌&&◌, Option, List, [], ◌∷◌, ltb, ◌==◌, if◌then◌else◌, length, Cmd,
  pure, ◌>>=◌, ◌>>◌, element,
}
use object_oriented_programm.Lob.Types.{Side, buy, sell, limit}
use object_oriented_programm.Lob.OrderBook.{OrderBook}
use object_oriented_programm.Lob.OrderBook.Orders.{add_order, cancel_order}

abbrev pub num_operations : ℕ
num_operations = 500000

-- The test for a cancellation in operation `i`.
abbrev pub cancels : ℕ → Bool
cancels i = (i % 5 == 0) && ltb 10 i

-- What an operation draws, and the generator afterwards.
pub record Draw (Rng : Type 0) : Type 0 where
  pub side : Side
  pub price : ℕ
  pub qty : ℕ
  pub rng : Rng

module _ {Rng : Type 0} (side_dist price_dist qty_dist : Rng → ℕ × Rng) where
  unfoldable pub draw : Rng → Draw Rng
  draw rng =
      let (drawn, r1) = side_dist rng in
      let (price, r2) = price_dist r1 in
      let (qty, r3) = qty_dist r2 in
      record { side = if drawn == 0 then buy else sell; price = price; qty = qty; rng = r3 }

  unfoldable pub operate : (ℕ → ℕ → ℕ) → ℕ → Draw Rng → Cmd OrderBook (Unit {0})
  operate clock i d =
      if cancels i
      then (do cancel_order (i - 5); pure tt)
      else (do add_order (clock i) i d.side d.price d.qty limit; pure tt)

  module _ {Real : Type 0} (clock : ℕ → ℕ → ℕ) (elapsed : ℕ → Real) where
    -- `n` operations from operation `i` on, and their times.
    unfoldable pub operations : ℕ → ℕ → Rng → Cmd OrderBook (List Real)
    unfolding draw operate
    operations zero i rng = pure []
    operations (suc n) i rng = do
      operate clock i (draw rng)
      rest ← operations n (suc i) (draw rng).rng
      pure (elapsed i ∷ rest)

-- What the report shows; a latency behind the end of the vector is none.
pub record Results (Real : Type 0) : Type 0 where
  pub total_sec : Real
  pub ops_per_sec : Real
  pub mean_ns : Real
  pub p50 : Option Real
  pub p90 : Option Real
  pub p99 : Option Real
  pub p999 : Option Real

module _ {Real : Type 0} (accumulate : List Real → Real) (over : Real → ℕ → Real)
    (per : ℕ → Real → Real) (sort : List Real → List Real) (scaled : ℕ → ℕ → ℕ) where
  -- `scaled permille n` is the index that `n * 0.permille` is truncated to.
  unfoldable pub results : Real → List Real → Results Real
  unfolding element
  results total_sec latencies =
      let sorted = sort latencies in
      record {
        total_sec = total_sec;
        ops_per_sec = per num_operations total_sec;
        mean_ns = over (accumulate sorted) (length sorted);
        p50 = element sorted (scaled 500 (length sorted));
        p90 = element sorted (scaled 900 (length sorted));
        p99 = element sorted (scaled 990 (length sorted));
        p999 = element sorted (scaled 999 (length sorted));
      }

  module _ {Rng : Type 0} (side_dist price_dist qty_dist : Rng → ℕ × Rng) (clock : ℕ → ℕ → ℕ)
      (elapsed : ℕ → Real) where
    unfoldable pub main : Real → Rng → Cmd OrderBook (Results Real)
    unfolding operations
    main total_sec rng = do
      latencies ← operations side_dist price_dist qty_dist clock elapsed num_operations 1 rng
      pure (results total_sec latencies)

-- ===== src/Lob/Benchmark/Workload.antt =====
-- The operations of 02_LOB_Engine/benchmarks/BenchmarkLOB.cpp as commands to an exchange.
use object_oriented_programm.Prelude.{
  ℕ, zero, suc, ◌-◌, ◌*◌, ◌≡◌, refl, ◌≤◌, List, [], ◌∷◌, if◌then◌else◌, arith, Bool-cases, inl, inr,
  sym, subst, Run, Cmd, ok, threw, fault, out_of_fuel, and_then, pure, ◌>>=◌,
}
use object_oriented_programm.Lob.Types.{limit}
use object_oriented_programm.Lob.OrderBook.{
  OrderBook, order_book, new_book, default_max_orders, default_max_levels,
}
use object_oriented_programm.Lob.OrderBook.Orders.{add_order, cancel_order}
use object_oriented_programm.Lob.Exchange.{
  Command, submit, withdraw, traded, canceled, closed_exchange, replay,
}
use object_oriented_programm.Lob.Exchange.Budget.{quantities, highest}
use object_oriented_programm.Lob.Exchange.Shows.{Agrees}
use object_oriented_programm.Lob.Exchange.Replay.{
  run_commands, run_commands-replay, and_then-Agrees,
}
use object_oriented_programm.Lob.Benchmark.{
  cancels, Draw, draw, operate, operations, num_operations,
}

timed_end :
    {S X R : Type 0} (t : Run S (List X)) (a : X) (x : R) (ts : List R)
    → and_then (and_then t (λ _. pure ts)) (λ rest. pure (x ∷ rest))
      ≡ and_then (and_then t (λ rest. pure (a ∷ rest))) (λ _. pure (x ∷ ts))
timed_end (ok c s) a x ts = refl
timed_end (threw s) a x ts = refl
timed_end fault a x ts = refl
timed_end out_of_fuel a x ts = refl

-- A command whose result is dropped and whose time is kept.
timed :
    {S A X R : Type 0} (r : Run S A) (f : A → X) (ops : Cmd S (List R)) (cmds : Cmd S (List X))
    (x : R) (ts : List R)
    → ((s : S) → ops s ≡ and_then (cmds s) (λ _. pure ts))
    → and_then (and_then r (λ _. pure tt)) (λ (u : Unit {0}). ops >>= λ rest. pure (x ∷ rest))
      ≡ and_then (and_then r (λ a. cmds >>= λ rest. pure (f a ∷ rest))) (λ _. pure (x ∷ ts))
timed (ok a s) f ops cmds x ts h = rw (h s) (timed_end (cmds s) (f a) x ts)
timed (threw s) f ops cmds x ts h = refl
timed fault f ops cmds x ts h = refl
timed out_of_fuel f ops cmds x ts h = refl

-- The measured times of `n` operations from operation `i` on.
unfoldable pub times : {Real : Type 0} → (ℕ → Real) → ℕ → ℕ → List Real
times elapsed zero i = []
times elapsed (suc n) i = elapsed i ∷ times elapsed n (suc i)

-- What the documentation of std::uniform_int_distribution says of two of the distributions.
pub record Drawn {Rng : Type 0} (side_dist price_dist qty_dist : Rng → ℕ × Rng) : Type 0 where
  pub price_to : (r : Rng) → (price_dist r).0 ≤ 110
  pub qty_to : (r : Rng) → (qty_dist r).0 ≤ 100

module _ {Rng : Type 0} (side_dist price_dist qty_dist : Rng → ℕ × Rng) where
  abbrev pub drawing : Rng → Draw Rng
  drawing = draw side_dist price_dist qty_dist

  abbrev command : ℕ → Draw Rng → Command
  command i d = if cancels i then withdraw (i - 5) else submit i d.side d.price d.qty limit

  -- The commands of `n` operations from operation `i` on.
  unfoldable pub commands : ℕ → ℕ → Rng → List Command
  commands zero i rng = []
  commands (suc n) i rng = command i (drawing rng) ∷ commands n (suc i) (drawing rng).rng

  module _ (drawn : Drawn side_dist price_dist qty_dist) where
    pub commands-le :
        (n i : ℕ) (rng : Rng)
        → (quantities (commands n i rng) ≤ n * 100) × (highest (commands n i rng) ≤ 111)
    unfolding commands draw
    commands-le zero i rng = (omega arith, omega arith)
    commands-le (suc n) i rng =
        let d = drawing rng in
        let (q, h) = commands-le n (suc i) d.rng in
        elim (Bool-cases (cancels i)) [
          | inl cancel ↦ rw cancel (omega (arith, q), h)
          | inr add ↦
              let r1 = (side_dist rng).1 in
              let r2 = (price_dist r1).1 in
              rw add (omega (arith, q, drawn.qty_to r2), omega (arith, h, drawn.price_to r1))
        ]

  module _ {Real : Type 0} (clock : ℕ → ℕ → ℕ) (elapsed : ℕ → Real) where
    abbrev run : ℕ → ℕ → Rng → Cmd OrderBook (List Real)
    run = operations side_dist price_dist qty_dist clock elapsed

    operations-run_commands :
        (n i : ℕ) (rng : Rng) (b : OrderBook)
        → run n i rng b
          ≡ and_then
              (run_commands clock i (commands n i rng) b)
              (λ answers. pure (times elapsed n i))
    unfolding operations operate commands times run_commands
    operations-run_commands zero i rng b = refl
    operations-run_commands (suc n) i rng b =
        let d = drawing rng in
        let ops = run n (suc i) d.rng in
        let cmds = run_commands clock (suc i) (commands n (suc i) d.rng) in
        let next = operations-run_commands n (suc i) d.rng in
        elim (Bool-cases (cancels i)) [
          | inl cancel ↦ rw cancel (
              timed (cancel_order (i - 5) b) canceled ops cmds (elapsed i) (times elapsed n (suc i))
                next)
          | inr add ↦ rw add (
              timed (add_order (clock i) i d.side d.price d.qty limit b) traded ops cmds (elapsed i)
                (times elapsed n (suc i)) next)
        ]

    module _ (drawn : Drawn side_dist price_dist qty_dist) where
      -- If the two distributions draw prices up to 110 and quantities up to 100, then for every
      -- generator up to 500000 operations of the benchmark on a book of the default sizes return or
      -- throw just where the exchange does on the commands that they draw; if they return, there is
      -- one time for each operation, and the book then shows the exchange.
      pub operations-replay :
          (n : ℕ) (rng : Rng)
          → n ≤ num_operations
          → Agrees (run n 1 rng order_book) (
              and_then
                (replay default_max_orders clock 1 (commands n 1 rng) closed_exchange)
                (λ answers. pure (times elapsed n 1)))
      operations-replay n rng h =
          let cs = commands n 1 rng in
          let (q, p) = commands-le drawn n 1 rng in
          let agree =
            run_commands-replay clock default_max_orders default_max_levels (omega arith) 1 cs
              (omega (arith, p)) (omega (arith, q)) in
          subst
            (λ r. Agrees r (
              and_then (replay default_max_orders clock 1 cs closed_exchange)
                (λ answers. pure (times elapsed n 1))))
            (sym (operations-run_commands n 1 rng order_book))
            (unfold order_book in
              and_then-Agrees
                (run_commands clock 1 cs (new_book default_max_orders default_max_levels))
                (replay default_max_orders clock 1 cs closed_exchange)
                (λ answers. pure (times elapsed n 1)) (λ answers. pure (times elapsed n 1)) agree
                (λ answers b x _ _ s. (refl, s)))

-- ===== src/Lob/Benchmark/Cancels.antt =====
-- What the cancellations of 02_LOB_Engine/benchmarks/BenchmarkLOB.cpp find.
use object_oriented_programm.Prelude.{
  ℕ, zero, suc, ◌-◌, ◌≡◌, refl, ◌≤◌, ◌<◌, true, false, ◌&&◌, List, [], ◌∷◌, ltb, ◌∙◌, ◌^◌,
  if◌then◌else◌, Cmd, ◌>>=◌, ◌>>◌, ap, lookup, arith, Bool-cases, inl, inr, sym, subst, Run, ok,
  threw, fault, out_of_fuel, and_then, pure,
}
use object_oriented_programm.Lob.Types.{buy, limit}
use object_oriented_programm.Lob.OrderBook.{
  OrderBook, order_book, new_book, default_max_orders, default_max_levels,
}
use object_oriented_programm.Lob.Exchange.{
  Command, submit, withdraw, Exchange, closed_exchange, known, enter, leave,
}
use object_oriented_programm.Lob.Exchange.Shows.{Agrees, Shows, lookup-known, not_some}
use object_oriented_programm.Lob.Preserves.{Leaves}
use object_oriented_programm.Lob.OrderBook.Sizes.{Sized}
use object_oriented_programm.Lob.OrderBook.Sizes.Commands.{
  add_order-Preserves, cancel_order-Preserves,
}
use object_oriented_programm.Lob.OrderBook.Orders.{add_order, cancel_order}
use object_oriented_programm.Lob.OrderBook.Cancel.{cancel_order-unknown}
use object_oriented_programm.Lob.Exchange.Budget.{Fits, enter-Fits, leave-Fits}
use object_oriented_programm.Lob.Exchange.Replay.{sized_enters, leaves, new_book-Shows}
use object_oriented_programm.Lob.Benchmark.{cancels, Draw, num_operations, operate, operations}
use object_oriented_programm.Lob.Benchmark.Workload.{Drawn, commands, commands-le, drawing}
use object_oriented_programm.Lob.Benchmark.Placed.{
  Placed, not_found, still-Placed, enter-Placed, leave-Placed,
}

-- The same follows a call, whatever the call returns.
same_after :
    {A B : Type 0} (r : Run OrderBook A) (t : Run Exchange A) (k l : Cmd OrderBook B)
    → Agrees r t
    → ((a : A) (c : OrderBook) (y : Exchange) → r ≡ ok a c → t ≡ ok a y → Shows c y → k c ≡ l c)
    → and_then (and_then r (λ _. pure tt)) (λ (u : Unit {0}). k)
      ≡ and_then (and_then r (λ _. pure tt)) (λ (u : Unit {0}). l)
same_after (ok a b) (ok c x) k l (same, s) go = go a b x refl (ap (λ e. ok e x) (sym same)) s
same_after (ok a b) (threw x) k l h go = elim h [ ]
same_after (ok a b) fault k l h go = elim h [ ]
same_after (ok a b) out_of_fuel k l h go = elim h [ ]
same_after (threw b) t k l h go = refl
same_after fault t k l h go = refl
same_after out_of_fuel t k l h go = refl

module _ {Rng Real : Type 0} (side_dist price_dist qty_dist : Rng → ℕ × Rng) (clock : ℕ → ℕ → ℕ)
    (elapsed : ℕ → Real) where
  -- An operation, and nothing in place of a cancellation after operation 15.
  unfoldable pub operate_early : ℕ → Draw Rng → Cmd OrderBook (Unit {0})
  operate_early i d =
      if cancels i && ltb 15 i then pure tt else operate side_dist price_dist qty_dist clock i d

  unfoldable pub early_operations : ℕ → ℕ → Rng → Cmd OrderBook (List Real)
  unfolding operate_early
  early_operations zero i rng = pure []
  early_operations (suc n) i rng = do
    operate_early i (drawing side_dist price_dist qty_dist rng)
    rest ← early_operations n (suc i) (drawing side_dist price_dist qty_dist rng).rng
    pure (elapsed i ∷ rest)

  abbrev run : ℕ → ℕ → Rng → Cmd OrderBook (List Real)
  run = operations side_dist price_dist qty_dist clock elapsed

  module _ (orders levels : ℕ) (small : orders < 2 ^ 64) where
    abbrev Unaffected : ℕ → ℕ → Rng → Type 0
    Unaffected n i rng =
        (b : OrderBook) (x : Exchange)
        → Shows b x
        → Sized orders levels b
        → Fits levels (commands side_dist price_dist qty_dist n i rng) x
        → Placed i x
        → run n i rng b ≡ early_operations n i rng b

    -- The operations from the next one on, with their times behind that of operation `i`.
    abbrev timed : ℕ → Cmd OrderBook (List Real) → Cmd OrderBook (List Real)
    timed i ops = ops >>= λ rest. pure (elapsed i ∷ rest)

    module _ (n i : ℕ) (rng : Rng)
        (next : Unaffected n (suc i) (drawing side_dist price_dist qty_dist rng).rng) where
      abbrev d : Draw Rng
      d = drawing side_dist price_dist qty_dist rng

      abbrev later : List Command
      later = commands side_dist price_dist qty_dist n (suc i) d.rng

      same_timed :
          (c : OrderBook) (y : Exchange)
          → Shows c y
          → Sized orders levels c
          → Fits levels later y
          → Placed (suc i) y
          → timed i (run n (suc i) d.rng) c ≡ timed i (early_operations n (suc i) d.rng) c
      same_timed c y s z f p =
          ap (λ r. and_then r (λ rest. pure (elapsed i ∷ rest))) (next c y s z f p)

      -- What follows a call that leaves all that is needed.
      same_call :
          {A : Type 0} (r : Run OrderBook A) (t : Run Exchange A)
          → Agrees r t
          → Leaves (Sized orders levels) r
          → Leaves (Fits levels later) t
          → Leaves (Placed (suc i)) t
          → and_then (and_then r (λ _. pure tt)) (λ (u : Unit {0}). timed i (run n (suc i) d.rng))
            ≡ and_then
                (and_then r (λ _. pure tt))
                (λ (u : Unit {0}). timed i (early_operations n (suc i) d.rng))
      same_call r t agree sized fits placed =
          same_after r t (timed i (run n (suc i) d.rng))
            (timed i (early_operations n (suc i) d.rng)) agree
            (λ _ c y called meant shows.
              same_timed c y shows (subst (Leaves (Sized orders levels)) called sized)
                (subst (Leaves (Fits levels later)) meant fits)
                (subst (Leaves (Placed (suc i))) meant placed))

      same_cancel : cancels i ≡ true → Unaffected (suc n) i rng
      unfolding operations operate operate_early early_operations commands
      same_cancel cancel b x s z f p =
          let f' : Fits levels (withdraw (i - 5) ∷ later) x = rw cancel at f in
          elim (Bool-cases (ltb 15 i)) [
            | inl late ↦
                let gone : known (i - 5) x ≡ false = rw late at (not_found i x cancel p) in
                let absent =
                  not_some (lookup (i - 5) b.order_map) (lookup-known b buy x s (i - 5) ∙ gone) in
                rw (cancel, late, cancel_order-unknown b (i - 5) absent)
                  (same_timed b x s z
                    record { levels_fit = f'.levels_fit; quantities_fit = f'.quantities_fit }
                    (still-Placed i x p))
            | inr early ↦
                rw (cancel, early)
                  (same_call (cancel_order (i - 5) b) (leave (i - 5) x) (leaves b x s (i - 5))
                    ((cancel_order-Preserves orders levels (i - 5)).preserves b z)
                    (leave-Fits levels later (i - 5) x f') (leave-Placed i (i - 5) x p))
          ]

      same_add : cancels i ≡ false → Unaffected (suc n) i rng
      unfolding operations operate operate_early early_operations commands
      same_add add b x s z f p =
          let f' : Fits levels (submit i d.side d.price d.qty limit ∷ later) x = rw add at f in
          rw add (
            same_call (add_order (clock i) i d.side d.price d.qty limit b)
              (enter orders (clock i) i d.side d.price d.qty limit x)
              (sized_enters clock orders levels small i i d.side d.price d.qty limit later b x s z
                f')
              ((add_order-Preserves orders levels (clock i) i d.side d.price d.qty limit).preserves
                b z)
              (enter-Fits levels later orders (clock i) i d.side d.price d.qty limit x f')
              (enter-Placed orders (clock i) i d.side d.price d.qty x add p))

    same_run : (n i : ℕ) (rng : Rng) → Unaffected n i rng
    unfolding operations early_operations
    same_run zero i rng = λ b x s z f p. refl
    same_run (suc n) i rng =
        let next = same_run n (suc i) (drawing side_dist price_dist qty_dist rng).rng in
        elim (Bool-cases (cancels i)) [
          | inl cancel ↦ same_cancel n i rng next cancel
          | inr add ↦ same_add n i rng next add
        ]

  -- If the two distributions draw prices up to 110 and quantities up to 100, then for every
  -- generator up to 500000 operations of the benchmark on a book of the default sizes come to the
  -- same end, with the same book, the same times or the same exception, as the loop that does
  -- nothing in place of each cancellation after operation 15.
  pub operations-early :
      (drawn : Drawn side_dist price_dist qty_dist) (n : ℕ) (rng : Rng)
      → n ≤ num_operations
      → operations side_dist price_dist qty_dist clock elapsed n 1 rng order_book
        ≡ early_operations n 1 rng order_book
  operations-early drawn n rng h =
      let (q, p) = commands-le side_dist price_dist qty_dist drawn n 1 rng in
      unfold order_book in
      same_run default_max_orders default_max_levels (omega arith) n 1 rng
        (new_book default_max_orders default_max_levels) closed_exchange
        (new_book-Shows default_max_orders default_max_levels) (unfold new_book in (refl, refl, tt))
        record { levels_fit = omega (arith, p); quantities_fit = omega (arith, q) }
        (λ id w. absurd (ground arith))

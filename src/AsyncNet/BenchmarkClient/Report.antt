-- ===== src/AsyncNet/BenchmarkClient/Report.antt =====
-- The statistics at the end of main of 01_AsyncNet_Server/client/BenchmarkClient.cpp. Floating point
-- is a parameter: the sum of the latencies, the quotient of a latency by a count, the order of
-- std::sort, the index that a fraction of a size is truncated to, and the throughput of a count.
use object_oriented_programm.Prelude.{
  ℕ, ◌+◌, ◌-◌, ◌*◌, ◌^◌, ◌≡◌, refl, ◌≤◌, ◌<◌, Option, some, List, [], ◌∷◌, length, arith, ◌∙◌,
  element, element-Mem,
}
use native.Mathlib.Nat.{mul-le-mul_left}
use mathlib.Core.List.{Mem}
use object_oriented_programm.AsyncNet.BenchmarkClient.{Totals}

-- What the report shows.
pub record Report (Real : Type 0) : Type 0 where
  pub duration : Real
  pub successful : ℕ
  pub failed : ℕ
  pub throughput : Real
  pub average : Real
  pub p50 : Option Real
  pub p95 : Option Real
  pub p99 : Option Real

-- `i` is the fraction `percent` of `n` up to the three roundings of a double: the size, the
-- constant and their product are each off by a factor of 1 + 2 ^ -53 at most.
abbrev pub Near : ℕ → ℕ → ℕ → Type 0
Near percent n i =
    (i * (100 * 2 ^ 51) ≤ n * percent * (2 ^ 51 + 1))
    × (n * percent * (2 ^ 51 - 1) < (i + 1) * (100 * 2 ^ 51))

near_inside : (percent n i : ℕ) → percent < 100 → 0 < n → Near percent n i → i < n
near_inside percent n i h some_there (most, least) =
    let k : n * percent ≤ n * 99 = mul-le-mul_left n (omega arith) in omega (arith, most, k)

near_order : (p q n i j : ℕ) → p + 1 ≤ q → q < 100 → Near p n i → Near q n j → i ≤ j
near_order p q n i j h below (most, least) (most', least') =
    let k : n * (p + 1) ≤ n * q = mul-le-mul_left n h in
    let e : n * (p + 1) ≡ n * p + n = omega arith in
    let small : n * p ≤ n * 99 = mul-le-mul_left n (omega arith) in
    omega (arith, most, least', k, e, small)

module _ {Real : Type 0} (zero_us : Real) (accumulate : List Real → Real) (over : Real → ℕ → Real)
    (per : ℕ → Real → Real) (sort : List Real → List Real) (scaled : ℕ → ℕ → ℕ) where
  -- `scaled percent n` is the index `n * 0.percent`.
  unfoldable pub percentile : ℕ → List Real → Option Real
  unfolding element
  percentile percent [] = some zero_us
  percentile percent (x ∷ xs) = element (x ∷ xs) (scaled percent (length (x ∷ xs)))

  percentile-element :
      (percent : ℕ) (xs : List Real)
      → 0 < length xs
      → percentile percent xs ≡ element xs (scaled percent (length xs))
  unfolding percentile
  percentile-element percent [] h = absurd (omega arith)
  percentile-element percent (x ∷ xs) h = refl

  unfoldable pub average_of : List Real → Real
  average_of [] = zero_us
  average_of (x ∷ xs) = over (accumulate (x ∷ xs)) (length (x ∷ xs))

  unfoldable pub report : Real → Totals Real → Report Real
  unfolding percentile average_of
  report duration t =
      let sorted = sort t.latencies in
      record {
        duration = duration;
        successful = t.completed;
        failed = t.errors;
        throughput = per t.completed duration;
        average = average_of t.latencies;
        p50 = percentile 50 sorted;
        p95 = percentile 95 sorted;
        p99 = percentile 99 sorted;
      }

  module _ (near : (percent n : ℕ) → percent < 100 → Near percent n (scaled percent n)) where
    -- What a percentile is read from: the index, and the value there, which was measured.
    abbrev pub Measured : ℕ → List Real → Option Real → Type 0
    Measured percent latencies shown =
        (i : ℕ) × (y : Real) × Near percent (length latencies) i
        × (element (sort latencies) i ≡ some y)
        × (shown ≡ some y)
        × Mem y latencies

    percentile-Measured :
        (percent : ℕ) (latencies : List Real)
        → percent < 100
        → 0 < length latencies
        → length (sort latencies) ≡ length latencies
        → ((y : Real) → Mem y (sort latencies) → Mem y latencies)
        → Measured percent latencies (percentile percent (sort latencies))
    percentile-Measured percent latencies h some_there l m =
        let n = length latencies in
        let at : Near percent n (scaled percent n) = near percent n h in
        let (y, e, there) =
          element-Mem (sort latencies) (scaled percent n)
            (omega (arith, l, near_inside percent n (scaled percent n) h some_there at)) in
        (
          scaled percent n,
          y,
          at,
          e,
          percentile-element percent (sort latencies) (omega (arith, l)) ∙ rw l e,
          m y there,
        )

    -- If the index of a percentage below 100 is that fraction of the size up to three roundings of
    -- a double, and sorting the latencies, of which there are some, keeps their number, brings in
    -- no value and puts them in order: p50, p95 and p99 of the report are measured latencies, read
    -- from the sorted vector at the index of 50, 95 and 99 percent of its size up to those
    -- roundings, which lies inside it, and p50 is at most p95, and p95 at most p99, in that order.
    pub report-Measured :
        (Precedes : Real → Real → Type 0) (duration : Real) (t : Totals Real)
        → 0 < length t.latencies
        → length (sort t.latencies) ≡ length t.latencies
        → ((y : Real) → Mem y (sort t.latencies) → Mem y t.latencies)
        → ((i j : ℕ) (x y : Real)
            → i ≤ j
            → element (sort t.latencies) i ≡ some x
            → element (sort t.latencies) j ≡ some y
            → Precedes x y)
        → let r = report duration t in
          (low : Measured 50 t.latencies r.p50) × (mid : Measured 95 t.latencies r.p95)
          × (high : Measured 99 t.latencies r.p99) × Precedes low.1 mid.1
          × Precedes mid.1 high.1
    unfolding report
    report-Measured Precedes duration t some_there l m sorted =
        let n = length t.latencies in
        let at = λ (percent : ℕ) (h : percent < 100).
          percentile-Measured percent t.latencies h some_there l m in
        let low = at 50 (omega arith) in
        let mid = at 95 (omega arith) in
        let high = at 99 (omega arith) in
        (
          low,
          mid,
          high,
          sorted low.0 mid.0 low.1 mid.1
              (near_order 50 95 n low.0 mid.0 (omega arith) (omega arith) low.2 mid.2) low.3 mid.3,
          sorted mid.0 high.0 mid.1 high.1
              (near_order 95 99 n mid.0 high.0 (omega arith) (omega arith) mid.2 high.2) mid.3
              high.3,
        )

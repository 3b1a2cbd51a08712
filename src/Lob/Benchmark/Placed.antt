-- ===== src/Lob/Benchmark/Placed.antt =====
-- Who can wait in the exchange before an operation of 02_LOB_Engine/benchmarks/BenchmarkLOB.cpp.
use object_oriented_programm.Prelude.{
  ℕ, suc, ◌-◌, ◌≡◌, refl, ◌<◌, true, false, ◌&&◌, ◌||◌, ltb, leb, ◌==◌, arith, Bool-cases, inl, inr,
  subst,
}
use object_oriented_programm.Lob.Types.{Side, limit}
use object_oriented_programm.Lob.Exchange.{Exchange, waiting, known, step_back, place, enter, leave}
use object_oriented_programm.Lob.Exchange.Known.{waits-step_back, known-place}
use object_oriented_programm.Lob.Preserves.{Leaves}
use object_oriented_programm.Lob.Benchmark.{cancels}

-- Who waits was placed by an earlier operation, which was no cancellation.
abbrev pub Placed : ℕ → Exchange → Type 0
Placed i x = (id : ℕ) → known id x ≡ true → (id < i) × (cancels id ≡ false)

missed : (i : ℕ) → cancels i ≡ true → 15 < i → cancels (i - 5) ≡ true
missed i c h = ground arith

pub not_found :
    (i : ℕ) (x : Exchange) → cancels i ≡ true → Placed i x → (ltb 15 i && known (i - 5) x) ≡ false
not_found i x c p = elim (Bool-cases (ltb 15 i)) [
  | inl late ↦ elim (Bool-cases (known (i - 5) x)) [
    | inl there ↦ let (_, e) = p (i - 5) there in let e' = missed i c (ground arith) in cc
    | inr gone ↦ rw (late, gone) refl
  ]
  | inr early ↦ rw early refl
]

abbrev step_both : ℕ → Exchange → Exchange
step_both id x = record { bids = step_back id x.bids; asks = step_back id x.asks }

known-step_back :
    (id gone : ℕ) (x : Exchange) → known id (step_both gone x) ≡ true → known id x ≡ true
known-step_back id gone x h =
    let b = waits-step_back id gone x.bids in let a = waits-step_back id gone x.asks in ground arith

pub still-Placed : (i : ℕ) (x : Exchange) → Placed i x → Placed (suc i) x
still-Placed i x p id h = let (l, c) = p id h in (omega (arith, l), c)

place-Placed :
    (i : ℕ) (side : Side) (price qty : ℕ) (x : Exchange)
    → cancels i ≡ false
    → Placed i x
    → Placed (suc i) (place i side price qty limit x).1
place-Placed i side price qty x c p id h =
    let known_or_new = known-place id side price qty limit x i h in
    elim (Bool-cases (i == id)) [
      | inl same ↦
          let e : i ≡ id = ground arith in (omega (arith, e), subst (λ j. cancels j ≡ false) e c)
      | inr other ↦ still-Placed i x p id (rw other at known_or_new)
    ]

-- What an operation adds to the exchange, and what a cancellation leaves of it.
pub enter-Placed :
    (most : ℕ) (clock : ℕ → ℕ) (i : ℕ) (side : Side) (price qty : ℕ) (x : Exchange)
    → cancels i ≡ false
    → Placed i x
    → Leaves (Placed (suc i)) (enter most clock i side price qty limit x)
unfolding enter
enter-Placed most clock i side price qty x c p = elim (Bool-cases ((qty == 0) || known i x)) [
  | inl refused ↦ rw refused (still-Placed i x p)
  | inr valid ↦ elim (Bool-cases (leb most (waiting x))) [
    | inl full ↦ rw (valid, full) (still-Placed i x p)
    | inr room ↦ rw (valid, room) (place-Placed i side price qty x c p)
  ]
]

pub leave-Placed : (i id : ℕ) (x : Exchange) → Placed i x → Leaves (Placed (suc i)) (leave id x)
unfolding leave
leave-Placed i id x p = still-Placed i (step_both id x) (λ j h. p j (known-step_back j id x h))

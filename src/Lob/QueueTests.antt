-- ===== src/Lob/QueueTests.antt =====
-- The theorems on the lock-free queue applied to a ring of four slots.
use Prim.Native.Nat.{◌∣◌}
use native.Mathlib.Nat.{dvd-mul_right}
use object_oriented_programm.Prelude.{
  ℕ, ◌+◌, ◌%◌, ◌<◌, true, ◌^◌, ◌≡◌, refl, ◌≤◌, ◌++◌, false, ◌==◌, Option, List, [], ◌∷◌, some, none,
  arith, length,
}
use object_oriented_programm.Lob.LockFreeQueue.{start, run, produce, consume, size, new_queue}
use object_oriented_programm.Lob.LockFreeQueue.Alone.{Emplaces, Pops, calls-end}
use object_oriented_programm.Lob.LockFreeQueue.Fifo.{run-fifo, run-no_race, run-size}

four : 4 ∣ 2 ^ 64
four = dvd-mul_right 4 4611686018427387904

-- A call is under way while the consumer looks.
abbrev early : List (Option ℕ)
early = some 7 ∷ none ∷ some 7 ∷ none ∷ some 7 ∷ some 7 ∷ []

run-fifo_example :
    let s = run 4 early (start 0) in
    (pending : List ℕ) × (s.sent ≡ s.received ++ pending) × (length pending ≤ 4)
run-fifo_example = run-fifo 4 four (omega arith) 0 early

-- One item is sent; then a second is about to be written while the first is about to be moved out.
abbrev meeting : List (Option ℕ)
meeting = some 7 ∷ some 7 ∷ some 7 ∷ some 7 ∷ some 8 ∷ some 8 ∷ none ∷ none ∷ []

run-no_race_example : (0 % 4 == 1 % 4) ≡ false
unfolding run start produce consume new_queue
run-no_race_example = run-no_race 4 four (omega arith) 0 meeting 8 1 0 refl refl

run-size_example :
    let s = run 4 meeting (start 0) in
    (size s.queue.head s.queue.tail + length s.received ≡ length s.sent)
    × (size s.queue.head s.queue.tail ≤ 4)
run-size_example =
    run-size 4 four (omega arith) 0 meeting
      (unfold run start produce consume new_queue in omega arith)

below : 4 < 2 ^ 64
below = omega arith

abbrev one_sent : List (Option ℕ)
one_sent = some 7 ∷ some 7 ∷ some 7 ∷ some 7 ∷ []

calls-end_example :
    Emplaces 4 four below 5 (run 4 one_sent (start 0))
    × Pops 4 four below (run 4 one_sent (start 0))
unfolding run start produce new_queue
calls-end_example = calls-end 4 four below 0 5 one_sent (some true) none refl refl

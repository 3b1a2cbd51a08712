-- ===== src/AsyncNet/ClientTests.antt =====
-- The theorems on the benchmark client applied to small cases.
use object_oriented_programm.Prelude.{
  element, ℕ, zero, suc, ◌+◌, ◌*◌, ◌≡◌, refl, ◌≤◌, ◌<◌, ◌++◌, Bool, true, List, [], ◌∷◌, ltb, arith,
  length, leb, ◌/◌, some, if◌then◌else◌,
}
use object_oriented_programm.AsyncNet.Protocol.{serialize_packet}
use object_oriented_programm.AsyncNet.SessionManager.{new_manager}
use object_oriented_programm.AsyncNet.Session.{run}
use object_oriented_programm.AsyncNet.Session.Echo.{idle, header_bytes, echoes}
use object_oriented_programm.AsyncNet.BenchmarkClient.Conversation.{flat, requested, conversation}
use object_oriented_programm.AsyncNet.BenchmarkClient.Report.{
  report, percentile, Near, Measured, report-Measured,
}
use object_oriented_programm.AsyncNet.BenchmarkClient.{
  test_payload, echo_packet, Socket, Totals, Options, iterations, run_client_worker, ended,
  benchmark,
}
use object_oriented_programm.AsyncNet.BenchmarkClient.Answers.{
  responses, times, run_client_worker-answered,
}
use object_oriented_programm.AsyncNet.BenchmarkClient.Accounts.{
  Accounted, run_client_worker-Accounted,
}
use object_oriented_programm.AsyncNet.BenchmarkClient.Clients.{AnsweringPeer, benchmark-answered}

abbrev payloads : List (List ℕ)
payloads = (65 ∷ []) ∷ [] ∷ []

-- A server that answers two requests.
abbrev server : Socket
server = record { reachable = true; writable = 3; input = responses payloads ++ []; output = [] }

-- One that breaks after the first bytes.
abbrev broken : Socket
broken = record { reachable = true; writable = 3; input = 65 ∷ 78 ∷ []; output = [] }

abbrev zero_totals : Totals ℕ
zero_totals = record { completed = 0; errors = 0; latencies = [] }

abbrev latency : ℕ → ℕ
latency i = i + 100

run_client_worker-answered_example :
    run_client_worker latency 1000 2 server zero_totals
    ≡ record { completed = 0 + 2; errors = 0; latencies = [] ++ times latency 2 0 }
run_client_worker-answered_example =
    run_client_worker-answered latency 1000 payloads [] server zero_totals
      (omega arith, (omega arith, tt)) (omega arith) (omega arith) refl (omega arith) (omega arith)
      refl

run_client_worker-Accounted_example :
    Accounted (iterations 2 + 1) zero_totals (run_client_worker latency 1000 2 broken zero_totals)
unfolding iterations
run_client_worker-Accounted_example =
    run_client_worker-Accounted latency 1000 2 broken zero_totals (omega arith)

abbrev two_by_two : Options
two_by_two = record { host = "127.0.0.1"; port = 8080; num_clients = 2; requests_per_client = 2 }

abbrev latencies : ℕ → ℕ → ℕ
latencies client i = client * 1000 + i

answering : AnsweringPeer 2 server
answering = record {
  payloads = payloads;
  rest = [];
  short = (omega arith, (omega arith, tt));
  as_many = refl;
  reached = refl;
  room = omega arith;
  sends = refl;
}

-- Two threads can be started, and no third.
abbrev both_start : ℕ → Bool
both_start j = ltb j 2

benchmark-answered_example :
    (t : Totals ℕ) × (benchmark latencies (λ j. server) both_start 1000 two_by_two ≡ ended t)
    × (t.completed ≡ 2 * 2)
    × (t.errors ≡ 0)
    × (length t.latencies ≡ 2 * 2)
benchmark-answered_example =
    benchmark-answered latencies (λ j. server) both_start 1000 two_by_two (omega arith)
      (omega arith) (omega arith) (omega arith) (omega arith) (λ j h. ground arith) (λ j. answering)

-- Latencies in whole microseconds.
abbrev insert_sorted : ℕ → List ℕ → List ℕ
insert_sorted x [] = x ∷ []
insert_sorted x (y ∷ ys) = let rest = insert_sorted x ys in if leb x y then x ∷ y ∷ ys else y ∷ rest

abbrev sort : List ℕ → List ℕ
sort [] = []
sort (x ∷ xs) = insert_sorted x (sort xs)

abbrev sum : List ℕ → ℕ
sum [] = 0
sum (x ∷ xs) = x + sum xs

abbrev scaled : ℕ → ℕ → ℕ
scaled percent n = n * percent / 100

scaled_near : (percent n : ℕ) → percent < 100 → Near percent n (scaled percent n)
scaled_near percent n h = (omega arith, omega arith)

two_sorted :
    (i j x y : ℕ)
    → i ≤ j
    → element (10 ∷ 20 ∷ []) i ≡ some x
    → element (10 ∷ 20 ∷ []) j ≡ some y
    → x ≤ y
unfolding element
two_sorted zero zero x y h e f = ground arith
two_sorted zero (suc zero) x y h e f = ground arith
two_sorted zero (suc (suc j)) x y h e f = ground arith
two_sorted (suc zero) zero x y h e f = ground arith
two_sorted (suc zero) (suc zero) x y h e f = ground arith
two_sorted (suc zero) (suc (suc j)) x y h e f = ground arith
two_sorted (suc (suc i)) j x y h e f = ground arith

abbrev timed : Totals ℕ
timed = record { completed = 2; errors = 0; latencies = 10 ∷ 20 ∷ [] }

report-Measured_example :
    (low : Measured 0 sum ◌/◌ ◌/◌ sort scaled scaled_near 50 timed.latencies (some 20))
    × (mid : Measured 0 sum ◌/◌ ◌/◌ sort scaled scaled_near 95 timed.latencies (some 20))
    × (high : Measured 0 sum ◌/◌ ◌/◌ sort scaled scaled_near 99 timed.latencies (some 20)) × (low.1
        ≤ mid.1)
    × (mid.1 ≤ high.1)
unfolding report percentile element
report-Measured_example =
    report-Measured 0 sum ◌/◌ ◌/◌ sort scaled scaled_near (λ x y. x ≤ y) 2 timed (omega arith) refl
      (λ y m. m) two_sorted

-- What a session has written to a client with two requests.
abbrev client : Socket
client = record {
  reachable = true;
  writable = 3;
  input = flat (run (echoes (requested 2)) (idle [] 0 "10.0.0.1:5000" new_manager)).delivered;
  output = [];
}

conversation_example :
    (header_bytes test_payload ++ test_payload ≡ serialize_packet echo_packet)
    × (run_client_worker latency 1000 2 client zero_totals
        ≡ record { completed = 0 + 2; errors = 0; latencies = [] ++ times latency 2 0 })
conversation_example =
    conversation latency 1000 2 0 "10.0.0.1:5000" new_manager client zero_totals (omega arith)
      (omega arith) refl (omega arith) refl (omega arith)

-- ===== src/AsyncNet/BenchmarkClient/Clients.antt =====
-- The counts that main of 01_AsyncNet_Server/client/BenchmarkClient.cpp reports.
use object_oriented_programm.Prelude.{
  ℕ, zero, suc, ◌+◌, ◌*◌, ◌^◌, ◌≡◌, refl, ◌<◌, ◌≤◌, Bool, true, false, List, ◌++◌, ltb, length,
  length-append, leb, arith, ap, subst, ◌⊎◌,
}
use object_oriented_programm.AsyncNet.Main.{int_to_size}
use object_oriented_programm.AsyncNet.BenchmarkClient.{
  Socket, iterations, Totals, run_client_worker, Options, is_negative, magnitude, product_overflows,
  ended, terminated, new_totals, run_clients, benchmark,
}
use object_oriented_programm.AsyncNet.BenchmarkClient.Answers.{
  Short, responses, times, run_client_worker-answered,
}
use object_oriented_programm.AsyncNet.BenchmarkClient.Accounts.{Accounted}

-- A peer that takes `n` requests and the last packet, and sends `n` responses.
pub record AnsweringPeer (n : ℕ) (s : Socket) : Type 0 where
  pub payloads : List (List ℕ)
  pub rest : List ℕ
  pub short : Short payloads
  pub as_many : length payloads ≡ n
  pub reached : s.reachable ≡ true
  pub room : n < s.writable
  pub sends : s.input ≡ responses payloads ++ rest

suc_times : (k n : ℕ) → suc k * n ≡ n + k * n
suc_times k n = omega arith

module _ {Latency : Type 0} where
  length-times : (elapsed : ℕ → Latency) (n i : ℕ) → length (times elapsed n i) ≡ n
  length-times elapsed zero i = refl
  length-times elapsed (suc n) i = ap suc (length-times elapsed n (suc i))

  pub worker-answered :
      (elapsed : ℕ → Latency) (max_size n : ℕ) (s : Socket) (t : Totals Latency)
      → n < 2 ^ 31
      → n ≤ max_size
      → AnsweringPeer n s
      → t.completed + n < 2 ^ 64
      → run_client_worker elapsed max_size n s t ≡ record {
        completed = t.completed + n;
        errors = t.errors;
        latencies = t.latencies ++ times elapsed n 0;
      }
  worker-answered elapsed max_size n s t int fits p small =
      subst
        (λ (m : ℕ). run_client_worker elapsed max_size m s t ≡ record {
          completed = t.completed + m;
          errors = t.errors;
          latencies = t.latencies ++ times elapsed m 0;
        })
        p.as_many
        (run_client_worker-answered elapsed max_size p.payloads p.rest s t p.short
          (omega (arith, p.as_many)) (omega (arith, p.as_many)) p.reached
          (omega (arith, p.as_many, p.room)) (omega (arith, p.as_many)) p.sends)

  -- What `counts` answered requests make of the totals.
  abbrev Completes : ℕ → Totals Latency → Totals Latency → Type 0
  Completes counts t u =
      (u.completed ≡ t.completed + counts)
      × (u.errors ≡ t.errors)
      × (length u.latencies ≡ length t.latencies + counts)

  module _ (elapsed : ℕ → ℕ → Latency) (socket : ℕ → Socket) (starts : ℕ → Bool) where
    -- A thread that does not start, of the `k` from `i`.
    abbrev pub Stuck : ℕ → ℕ → Type 0
    Stuck k i = (j : ℕ) × (i ≤ j) × (j < i + k) × (starts j ≡ false)

    -- Either a thread does not start, or all have run, and these are the counts.
    abbrev Accounts : (max_size count k i : ℕ) → Totals Latency → Type 0
    Accounts max_size count k i t =
        let ending = run_clients elapsed socket starts max_size count k i t in
        ((ending ≡ terminated) × Stuck k i)
        ⊎ ((u : Totals Latency) × (ending ≡ ended u) × Accounted (k * (iterations count + 1)) t u)

    run_clients-answered :
        (max_size n k i : ℕ) (t : Totals Latency)
        → n < 2 ^ 31
        → n ≤ max_size
        → ((j : ℕ) → AnsweringPeer n (socket j))
        → ((j : ℕ) → j < i + k → starts j ≡ true)
        → t.completed + k * n < 2 ^ 64
        → (u : Totals Latency) × (run_clients elapsed socket starts max_size n k i t ≡ ended u)
          × Completes (k * n) t u
    unfolding run_clients
    run_clients-answered max_size n zero i t int fits peers all small =
        (t, refl, (omega arith, refl, omega arith))
    run_clients-answered max_size n (suc k) i t int fits peers all small =
        let e = suc_times k n in
        let u : Totals Latency = record {
          completed = t.completed + n;
          errors = t.errors;
          latencies = t.latencies ++ times (elapsed i) n 0;
        } in
        let first =
          worker-answered (elapsed i) max_size n (socket i) t int fits (peers i)
            (omega (arith, e)) in
        let (v, r, (c, f, l)) =
          run_clients-answered max_size n k (suc i) u int fits peers
            (λ j small_j. all j (omega arith)) (omega (arith, e)) in
        (
          v,
          rw (all i (omega arith), first) r,
          (
            omega (arith, c, e),
            f,
            omega (
              arith,
              l,
              e,
              length-append t.latencies (times (elapsed i) n 0),
              length-times (elapsed i) n 0,
            ),
          ),
        )

    -- If the numbers of clients and of requests and their product fit an int and are not negative,
    -- the two numbers fit the vectors, the thread of each client can be started, and every client
    -- reaches a peer that takes its requests and its last packet and sends that many echo
    -- responses, with payloads below 2 ^ 32 bytes, then the benchmark ends with clients times
    -- requests completed, no error, and a latency for each request.
    pub benchmark-answered :
        (max_size : ℕ) (o : Options)
        → o.num_clients < 2 ^ 31
        → o.requests_per_client < 2 ^ 31
        → o.num_clients * o.requests_per_client < 2 ^ 31
        → o.num_clients ≤ max_size
        → o.requests_per_client ≤ max_size
        → ((j : ℕ) → j < 0 + o.num_clients → starts j ≡ true)
        → ((j : ℕ) → AnsweringPeer o.requests_per_client (socket j))
        → let n = o.num_clients * o.requests_per_client in
          (t : Totals Latency) × (benchmark elapsed socket starts max_size o ≡ ended t)
          × (t.completed ≡ n)
          × (t.errors ≡ 0)
          × (length t.latencies ≡ n)
    unfolding benchmark int_to_size iterations new_totals product_overflows is_negative magnitude
    benchmark-answered max_size o clients int workload fits fits' all peers =
        let n = o.requests_per_client in
        let m = o.num_clients in
        let positive : ltb m (2 ^ 31) ≡ true = ground arith in
        let positive' : ltb n (2 ^ 31) ≡ true = ground arith in
        let defined : leb (2 ^ 31) (m * n) ≡ false = ground arith in
        let reserved : ltb max_size m ≡ false = ground arith in
        let (t, r, (c, f, l)) =
          run_clients-answered max_size n m 0 new_totals int fits' peers all (omega arith) in
        (t, rw (positive, positive', defined, reserved) r, omega (arith, c), f, omega (arith, l))

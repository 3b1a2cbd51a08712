-- ===== src/AsyncNet/Server/Stages.antt =====
-- The life of the server of 01_AsyncNet_Server/src/Server.cpp, from its constructor on.
use object_oriented_programm.Prelude.{
  ℕ, zero, suc, ◌+◌, ◌<◌, ◌≡◌, refl, ◌≤◌, Bool, true, false, none, some, List, [], ◌∷◌, ltb, leb,
  if◌then◌else◌, subst, arith, ok, threw,
}
use object_oriented_programm.AsyncNet.SessionManager.{new_manager}
use object_oriented_programm.AsyncNet.Session.{new_session}
use object_oriented_programm.AsyncNet.Server.{
  Server, ServerEvent, new_server, start, spawn, enter_threads, run,
}
use object_oriented_programm.AsyncNet.Server.Registry.{Listens, run-Listens}

-- `n` joinable threads behind the number `i`.
abbrev pub threads_of : ℕ → ℕ → List (ℕ × Bool)
threads_of zero i = []
threads_of (suc n) i = (suc i, true) ∷ threads_of n (suc i)

spawn-threads_of :
    (starts : ℕ → Bool) (n k i : ℕ)
    → k ≤ n
    → ((j : ℕ) → i < j → j ≤ i + k → starts j ≡ true)
    → (k < n → starts (suc (i + k)) ≡ false)
    → spawn starts n i ≡ (leb n k, threads_of k i)
unfolding spawn
spawn-threads_of starts zero zero i small these stuck = refl
spawn-threads_of starts zero (suc k) i small these stuck = absurd (omega arith)
spawn-threads_of starts (suc n) zero i small these stuck =
    let none_starts : starts (suc i) ≡ false =
      subst (λ (m : ℕ). starts (suc m) ≡ false) (omega arith) (stuck (omega arith)) in
    let never : leb (suc n) 0 ≡ false = ground arith in rw (none_starts, never) refl
spawn-threads_of starts (suc n) (suc k) i small these stuck =
    let here : starts (suc i) ≡ true = these (suc i) (omega arith) (omega arith) in
    let rest =
      spawn-threads_of starts n k (suc i) (omega arith)
        (λ j lo hi. these j (omega arith) (omega arith))
        (λ more. subst (λ (m : ℕ). starts (suc m) ≡ false) (omega arith) (stuck (omega arith))) in
    let test : leb (suc n) (suc k) ≡ leb n k = ground arith in rw (here, rest, test) refl

-- A server on a port that is free, started once, with `k` of `n` threads.
pub record Started (port n k : ℕ) (t : Server) : Type 0 where
  pub listens : Listens t
  pub workers : t.workers ≡ threads_of k 0
  pub size : t.thread_pool_size ≡ n
  pub at_port : t.port ≡ port

-- The server that start leaves behind, and what holds of it.
abbrev pub listening : ℕ → ℕ → ℕ → Server
listening port n k = record {
  port = port;
  thread_pool_size = n;
  is_running = true;
  acceptor_open = true;
  accepting = true;
  context_stopped = false;
  workers = threads_of k 0;
  sessions = λ i. new_session i none new_manager;
  next = 0;
  manager = new_manager;
}

pub listening-Listens : (port n k : ℕ) → Listens (listening port n k)
unfolding new_session new_manager
listening-Listens port n k =
    (record { names = λ i. refl; members = λ i. ground arith; unique = tt; running = refl }, refl)

-- On a free port, with a number of threads that the vector can hold, and if the first `k` threads
-- can be started and, when that is not all, the next one cannot: the constructor succeeds, start
-- returns if all threads started and throws if not, and the server that it leaves in both cases is
-- at its port with one joinable worker for each of the `k`; after any later events of accepts and
-- sessions it still runs, waits for the next client, and its manager holds just the sessions that
-- were made and are not stopped, each once.
pub start-Started :
    (free starts : ℕ → Bool) (max_size port n k : ℕ)
    → free port ≡ true
    → n ≤ max_size
    → k ≤ n
    → ((j : ℕ) → 0 < j → j ≤ 0 + k → starts j ≡ true)
    → (k < n → starts (suc (0 + k)) ≡ false)
    → (s : Server) × (t : Server) × (new_server free port n ≡ some s)
      × (start starts max_size s ≡ (if leb n k then ok tt t else threw t))
      × Started port n k t
      × ((es : List ServerEvent) → Listens (run es t))
unfolding new_server start enter_threads
start-Started free starts max_size port n k f small some_start these stuck =
    let t = listening port n k in
    let room : ltb max_size n ≡ false = ground arith in
    let listens = listening-Listens port n k in
    (
      record t { is_running = false; accepting = false; workers = [] },
      t,
      rw f refl,
      rw (room, spawn-threads_of starts n k 0 some_start these stuck) refl,
      record { listens = listens; workers = refl; size = refl; at_port = refl },
      λ es. run-Listens es t listens,
    )

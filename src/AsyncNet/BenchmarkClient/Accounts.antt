-- ===== src/AsyncNet/BenchmarkClient/Accounts.antt =====
-- What a worker of 01_AsyncNet_Server/client/BenchmarkClient.cpp counts, whatever the server does.
use object_oriented_programm.Prelude.{
  Ends, ℕ, ◌+◌, ◌^◌, ◌≡◌, refl, ◌<◌, ◌≤◌, [], length, length-append, Run, ok, threw, fault,
  out_of_fuel, ◌>>◌, arith, ap,
}
use object_oriented_programm.AsyncNet.Protocol.{serialize_packet}
use object_oriented_programm.AsyncNet.BenchmarkClient.{
  Socket, connect, write, disconnect_packet, iterations, Totals, Worker, on_socket, count_error,
  requests, reserve, merge, worker_body, end_worker, run_client_worker,
}
use object_oriented_programm.AsyncNet.BenchmarkClient.Moves.{
  and_then-Ends, Ends-map, connect-Ends, write-Ends, Moved, Moved-trans, Moved-socket,
  after_socket-Ends, reserve-Ends, requests-Ends,
}

module _ {Latency : Type 0} where
  -- The totals of a client before and after a thread that counts at most `n` times.
  pub record Accounted (n : ℕ) (t t' : Totals Latency) : Type 0 where
    pub completed_grows : t.completed ≤ t'.completed
    pub errors_grow : t.errors ≤ t'.errors
    pub counted : t'.completed + t'.errors ≤ t.completed + t.errors + n
    pub timed : length t'.latencies + t.completed ≤ length t.latencies + t'.completed

  Moved-Accounted : (n : ℕ) (w v : Worker Latency) → Moved n w v → Accounted n w.totals v.totals
  Moved-Accounted n w v p = record {
    completed_grows = p.completed_grows;
    errors_grow = p.errors_grow;
    counted = p.counted;
    timed = omega (arith, ap length p.apart, p.completed_grows);
  }

  merge-Accounted :
      (n : ℕ) (w v : Worker Latency)
      → w.thread_latencies ≡ []
      → Moved n w v
      → Ends (λ (u : Worker Latency). Accounted n w.totals u.totals) (merge v)
  unfolding merge
  merge-Accounted n w v e p = record {
    completed_grows = p.completed_grows;
    errors_grow = p.errors_grow;
    counted = p.counted;
    timed = omega (
      arith,
      length-append v.totals.latencies v.thread_latencies,
      ap length p.apart,
      ap length e,
      p.timed,
    );
  }

  -- The end of the body of a thread.
  farewell-Accounted :
      (n : ℕ) (w v : Worker Latency)
      → w.thread_latencies ≡ []
      → Moved n w v
      → Ends
          (λ (u : Worker Latency). Accounted n w.totals u.totals)
          ((on_socket (write (serialize_packet disconnect_packet)) >> merge) v)
  farewell-Accounted n w v e p =
      after_socket-Ends (λ (u : Worker Latency). Accounted n w.totals u.totals) v
        (write (serialize_packet disconnect_packet) v.socket) _
        (write-Ends (serialize_packet disconnect_packet) v.socket) (λ s. Moved-Accounted n w v p)
        (λ _ s.
          merge-Accounted n w (record v { socket = s }) e
            (Moved-trans n 0 n w v (record v { socket = s }) (omega arith) p (Moved-socket 0 v s)))

module _ {Latency : Type 0} (elapsed : ℕ → Latency) where
  worker_body-Accounted :
      (max_size count : ℕ) (w : Worker Latency)
      → w.thread_latencies ≡ []
      → w.totals.completed + w.totals.errors + iterations count < 2 ^ 64
      → Ends
          (λ (u : Worker Latency). Accounted (iterations count) w.totals u.totals)
          (worker_body elapsed max_size count w)
  unfolding worker_body
  worker_body-Accounted max_size count w e small =
      let n = iterations count in
      let Q = λ (u : Worker Latency). Accounted n w.totals u.totals in
      let idle =
        λ (s : Socket). Moved-Accounted n w (record w { socket = s }) (Moved-socket n w s) in
      after_socket-Ends Q w (connect w.socket) _ (connect-Ends w.socket) idle (λ _ s.
        let v = record w { socket = s } in
        and_then-Ends (Moved 0 w) Q (reserve max_size count v) _ (reserve-Ends max_size count v)
          (λ u p.
            Moved-Accounted n w u
              (Moved-trans 0 n n w u u (omega arith) p (Moved-socket n u u.socket)))
          (λ _ u p.
            and_then-Ends (Moved n w) Q (requests elapsed n 0 u) _
              (Ends-map (Moved n u) (Moved n w) (requests elapsed n 0 u)
                (λ x. Moved-trans 0 n n w u x (omega arith) p)
                (requests-Ends elapsed n 0 u (omega (arith, p.counted))))
              (Moved-Accounted n w) (λ _ x q. farewell-Accounted n w x e q)))

  end_worker-Accounted :
      (n : ℕ) (t : Totals Latency) (r : Run (Worker Latency) (Unit {0}))
      → t.completed + t.errors + n + 1 < 2 ^ 64
      → Ends (λ (u : Worker Latency). Accounted n t u.totals) r
      → Accounted (n + 1) t (end_worker elapsed r t)
  unfolding end_worker count_error
  end_worker-Accounted n t (ok tt u) small p = record {
    completed_grows = p.completed_grows;
    errors_grow = p.errors_grow;
    counted = omega (arith, p.counted);
    timed = p.timed;
  }
  end_worker-Accounted n t (threw u) small p = record {
    completed_grows = p.completed_grows;
    errors_grow = omega (arith, p.errors_grow, p.counted);
    counted = omega (arith, p.counted);
    timed = p.timed;
  }
  end_worker-Accounted n t fault small p = elim p [ ]
  end_worker-Accounted n t out_of_fuel small p = elim p [ ]

  -- Whatever the peer does, and as long as the counters stay below 2 ^ 64: a worker lowers no
  -- counter, counts at most one more than its requests, completed and failed together, and adds no
  -- more latencies than it has completed requests.
  pub run_client_worker-Accounted :
      (max_size count : ℕ) (s : Socket) (t : Totals Latency)
      → t.completed + t.errors + iterations count + 1 < 2 ^ 64
      → Accounted (iterations count + 1) t (run_client_worker elapsed max_size count s t)
  unfolding run_client_worker
  run_client_worker-Accounted max_size count s t small =
      let w : Worker Latency = record { totals = t; socket = s; thread_latencies = [] } in
      end_worker-Accounted (iterations count) t (worker_body elapsed max_size count w) small
        (worker_body-Accounted max_size count w refl (omega arith))

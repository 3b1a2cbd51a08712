-- ===== src/AsyncNet/BenchmarkClient/Moves.antt =====
-- What the requests of a worker of 01_AsyncNet_Server/client/BenchmarkClient.cpp count.
use object_oriented_programm.Prelude.{
  Ends, ℕ, zero, suc, ◌+◌, ◌^◌, ◌≡◌, refl, ◌<◌, ◌≤◌, Bool, true, false, List, [], ◌∷◌, ◌++◌, ltb,
  ◌==◌, length, length-append, Cmd, Run, ok, threw, fault, out_of_fuel, and_then, ◌>>◌, pure,
  if◌then◌else◌, arith, ◌∙◌, map_state, Bool-cases, inl, inr,
}
use object_oriented_programm.AsyncNet.Protocol.{
  header_size, default_header, Header, serialize_packet, deserialize_header,
}
use object_oriented_programm.AsyncNet.Main.{int_to_size}
use object_oriented_programm.AsyncNet.BenchmarkClient.{
  Socket, connect, write, read, echo_packet, Totals, Worker, on_socket, count_error,
  count_completed, read_reply, request, requests, reserve,
}

pub and_then-Ends :
    {S A B : Type 0} (P Q : S → Type 0) (r : Run S A) (k : A → Cmd S B)
    → Ends P r
    → ((s : S) → P s → Q s)
    → ((a : A) (s : S) → P s → Ends Q (k a s))
    → Ends Q (and_then r k)
and_then-Ends P Q (ok a s) k p stay go = go a s p
and_then-Ends P Q (threw s) k p stay go = stay s p
and_then-Ends P Q fault k p stay go = elim p [ ]
and_then-Ends P Q out_of_fuel k p stay go = elim p [ ]

pub Ends-map :
    {S A : Type 0} (P Q : S → Type 0) (r : Run S A) → ((s : S) → P s → Q s) → Ends P r → Ends Q r
Ends-map P Q (ok a s) f p = f s p
Ends-map P Q (threw s) f p = f s p
Ends-map P Q fault f p = p
Ends-map P Q out_of_fuel f p = p

pub connect-Ends : (s : Socket) → Ends (λ (v : Socket). Unit {0}) (connect s)
unfolding connect
connect-Ends s = elim (Bool-cases s.reachable) [ inl there ↦ rw there tt | inr away ↦ rw away tt ]

pub write-Ends : (bytes : List ℕ) (s : Socket) → Ends (λ (v : Socket). Unit {0}) (write bytes s)
unfolding write
write-Ends bytes s = elim (Bool-cases (s.writable == 0)) [
  | inl full ↦ rw full tt
  | inr room ↦ rw room tt
]

read-Ends : (n : ℕ) (s : Socket) → Ends (λ (v : Socket). Unit {0}) (read n s)
unfolding read
read-Ends n s = elim (Bool-cases (ltb (length s.input) n)) [
  | inl short ↦ rw short tt
  | inr enough ↦ rw enough tt
]

module _ {Latency : Type 0} where
  -- From totals and latencies to those of `v`: at most `n` requests are counted, and each that is
  -- completed has its latency.
  pub record MovedFrom (n : ℕ) (t : Totals Latency) (timings : List Latency) (v : Worker Latency)
      : Type 0 where
    pub completed_grows : t.completed ≤ v.totals.completed
    pub errors_grow : t.errors ≤ v.totals.errors
    pub counted : v.totals.completed + v.totals.errors ≤ t.completed + t.errors + n
    pub timed : length v.thread_latencies + t.completed ≡ length timings + v.totals.completed
    pub apart : v.totals.latencies ≡ t.latencies

  abbrev pub Moved : ℕ → Worker Latency → Worker Latency → Type 0
  Moved n w v = MovedFrom n w.totals w.thread_latencies v

  pub Moved-trans :
      (m n k : ℕ) (w v u : Worker Latency) → m + n ≤ k → Moved m w v → Moved n v u → Moved k w u
  Moved-trans m n k w v u h p q = record {
    completed_grows = omega (arith, p.completed_grows, q.completed_grows);
    errors_grow = omega (arith, p.errors_grow, q.errors_grow);
    counted = omega (arith, p.counted, q.counted);
    timed = omega (arith, p.timed, q.timed);
    apart = q.apart ∙ p.apart;
  }

  -- A worker that has only used its socket.
  pub Moved-socket : (n : ℕ) (w : Worker Latency) (s : Socket) → Moved n w (record w { socket = s })
  Moved-socket n w s = record {
    completed_grows = omega arith;
    errors_grow = omega arith;
    counted = omega arith;
    timed = refl;
    apart = refl;
  }

  -- What follows the end of a command on the socket.
  pub after_socket-Ends :
      {A B : Type 0} (Q : Worker Latency → Type 0) (w : Worker Latency) (r : Run Socket A)
      (k : A → Cmd (Worker Latency) B)
      → Ends (λ (v : Socket). Unit {0}) r
      → ((s : Socket) → Q (record w { socket = s }))
      → ((a : A) (s : Socket) → Ends Q (k a (record w { socket = s })))
      → Ends Q (and_then (map_state (λ s. record w { socket = s }) r) k)
  after_socket-Ends Q w (ok a s) k e stay go = go a s
  after_socket-Ends Q w (threw s) k e stay go = stay s
  after_socket-Ends Q w fault k e stay go = elim e [ ]
  after_socket-Ends Q w out_of_fuel k e stay go = elim e [ ]

  count_error-Moved :
      (w : Worker Latency)
      → w.totals.errors + 1 < 2 ^ 64
      → Moved 1 w (record w { totals = count_error w.totals })
  unfolding count_error
  count_error-Moved w small = record {
    completed_grows = omega arith;
    errors_grow = omega arith;
    counted = omega arith;
    timed = refl;
    apart = refl;
  }

  count_completed-Moved :
      (latency : Latency) (w : Worker Latency)
      → w.totals.completed + 1 < 2 ^ 64
      → Moved 1 w (record w {
        totals = count_completed w.totals;
        thread_latencies = w.thread_latencies ++ latency ∷ [];
      })
  unfolding count_completed
  count_completed-Moved latency w small = record {
    completed_grows = omega arith;
    errors_grow = omega arith;
    counted = omega arith;
    timed = omega (arith, length-append w.thread_latencies (latency ∷ []));
    apart = refl;
  }

  read_rest-Ends :
      (latency : Latency) (n : ℕ) (w : Worker Latency)
      → Ends (Moved 0 w) ((if ltb 0 n then (on_socket (read n) >> pure tt) else pure tt) w)
  read_rest-Ends latency n w = elim (Bool-cases (ltb 0 n)) [
    | inl more ↦ rw more (
        after_socket-Ends (Moved 0 w) w (read n w.socket) (λ bytes. pure tt) (read-Ends n w.socket)
          (Moved-socket 0 w) (λ bytes s. Moved-socket 0 w s))
    | inr clear ↦ rw clear (Moved-socket 0 w w.socket)
  ]

  read_reply-Ends :
      (latency : Latency) (answer : Bool × Header) (w : Worker Latency)
      → w.totals.completed + w.totals.errors + 1 < 2 ^ 64
      → Ends (Moved 1 w) (read_reply latency answer w)
  unfolding read_reply
  read_reply-Ends latency (false, header) w small = count_error-Moved w (omega arith)
  read_reply-Ends latency (true, header) w small =
      and_then-Ends (Moved 0 w) (Moved 1 w) _ _ (read_rest-Ends latency header.length w)
        (λ v p. Moved-trans 0 1 1 w v v (omega arith) p (Moved-socket 1 v v.socket))
        (λ _ v p.
          Moved-trans 0 1 1 w v _ (omega arith) p
            (count_completed-Moved latency v (omega (arith, p.counted))))

  request-Ends :
      (latency : Latency) (w : Worker Latency)
      → w.totals.completed + w.totals.errors + 1 < 2 ^ 64
      → Ends (Moved 1 w) (request latency w)
  unfolding request
  request-Ends latency w small =
      after_socket-Ends (Moved 1 w) w (write (serialize_packet echo_packet) w.socket) _
        (write-Ends (serialize_packet echo_packet) w.socket) (Moved-socket 1 w)
        (λ _ s.
          after_socket-Ends (Moved 1 w) (record w { socket = s }) (read header_size s) _
            (read-Ends header_size s) (Moved-socket 1 w)
            (λ bytes s'.
              read_reply-Ends latency (deserialize_header bytes default_header)
                (record w { socket = s' }) small))

  pub reserve-Ends :
      (max_size count : ℕ) (w : Worker Latency) → Ends (Moved 0 w) (reserve max_size count w)
  unfolding reserve
  reserve-Ends max_size count w = elim (Bool-cases (ltb max_size (int_to_size count))) [
    | inl huge ↦ rw huge (Moved-socket 0 w w.socket)
    | inr fits ↦ rw fits (Moved-socket 0 w w.socket)
  ]

  pub requests-Ends :
      (elapsed : ℕ → Latency) (n i : ℕ) (w : Worker Latency)
      → w.totals.completed + w.totals.errors + n < 2 ^ 64
      → Ends (Moved n w) (requests elapsed n i w)
  unfolding requests
  requests-Ends elapsed zero i w small = Moved-socket 0 w w.socket
  requests-Ends elapsed (suc n) i w small =
      and_then-Ends (Moved 1 w) (Moved (suc n) w) (request (elapsed i) w) _
        (request-Ends (elapsed i) w (omega arith))
        (λ v p. Moved-trans 1 n (suc n) w v v (omega arith) p (Moved-socket n v v.socket))
        (λ _ v p.
          Ends-map (Moved n v) (Moved (suc n) w) (requests elapsed n (suc i) v)
            (λ u. Moved-trans 1 n (suc n) w v u (omega arith) p)
            (requests-Ends elapsed n (suc i) v (omega (arith, p.counted))))

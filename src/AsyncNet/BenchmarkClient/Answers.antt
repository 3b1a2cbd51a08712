-- ===== src/AsyncNet/BenchmarkClient/Answers.antt =====
-- What a worker of 01_AsyncNet_Server/client/BenchmarkClient.cpp makes of a server that answers.
use object_oriented_programm.Prelude.{
  ℕ, zero, suc, ◌+◌, ◌-◌, ◌%◌, ◌^◌, ◌≡◌, refl, ◌<◌, ◌≤◌, true, false, List, [], ◌∷◌, ◌++◌, ltb,
  ◌==◌, if◌then◌else◌, length, drop, ok, threw, arith, ap, sym, ◌∙◌, append_assoc, append-nil,
}
use object_oriented_programm.AsyncNet.Protocol.{
  header_size, default_header, Header, serialize_header, serialize_packet, deserialize_header,
  create_echo_response, magic_header, echo_response,
}
use object_oriented_programm.AsyncNet.Protocol.RoundTrip.{deserialize-serialize}
use object_oriented_programm.AsyncNet.BenchmarkClient.{
  Socket, take, write, read, echo_packet, Totals, Worker, count_completed, read_reply, request,
  requests, run_client_worker, worker_body, end_worker, connect, reserve, iterations, merge,
  disconnect_packet,
}
use object_oriented_programm.AsyncNet.Main.{int_to_size}

take-append : (bytes rest : List ℕ) → take (length bytes) (bytes ++ rest) ≡ bytes
take-append [] [] = refl
take-append [] (b ∷ rest) = refl
take-append (b ∷ bytes) rest = ap (λ l. b ∷ l) (take-append bytes rest)

drop-append : (bytes rest : List ℕ) → drop (length bytes) (bytes ++ rest) ≡ rest
drop-append [] rest = refl
drop-append (b ∷ bytes) rest = drop-append bytes rest

not_short : (bytes rest : List ℕ) → ltb (length (bytes ++ rest)) (length bytes) ≡ false
not_short [] rest = ground arith
not_short (b ∷ bytes) rest = ground (arith, not_short bytes rest)

read-append :
    (bytes rest : List ℕ) (s : Socket)
    → s.input ≡ bytes ++ rest
    → read (length bytes) s ≡ ok bytes (record s { input = rest })
unfolding read
read-append bytes rest s e =
    rw (e, not_short bytes rest, take-append bytes rest, drop-append bytes rest) refl

pub write-ok :
    (bytes : List ℕ) (s : Socket)
    → 0 < s.writable
    → write bytes s ≡ ok tt (record s { writable = s.writable - 1; output = s.output ++ bytes })
unfolding write
write-ok bytes s h = let e : (s.writable == 0) ≡ false = ground arith in rw e refl

pub connect-ok : (s : Socket) → s.reachable ≡ true → connect s ≡ ok tt s
unfolding connect
connect-ok s e = ap (λ b. if b then ok tt s else threw s) e

-- The bytes of a response and its header.
abbrev pub response : List ℕ → List ℕ
response payload = serialize_packet (create_echo_response payload)

abbrev header_of : List ℕ → Header
header_of payload = record {
  magic = magic_header;
  type = echo_response;
  length = length payload % 2 ^ 32;
}

module _ {Latency : Type 0} where
  abbrev after_reply : Latency → Worker Latency → List ℕ → Worker Latency
  after_reply latency w rest = record w {
    socket = record w.socket { input = rest };
    totals = count_completed w.totals;
    thread_latencies = w.thread_latencies ++ latency ∷ [];
  }

  read_reply-payload :
      (latency : Latency) (payload rest : List ℕ) (w : Worker Latency)
      → length payload < 2 ^ 32
      → w.socket.input ≡ payload ++ rest
      → read_reply latency (true, header_of payload) w ≡ ok tt (after_reply latency w rest)
  unfolding read_reply
  read_reply-payload latency [] rest w small e = rw (sym e) refl
  read_reply-payload latency (b ∷ payload) rest w small e =
      let n = length (b ∷ payload) in
      let exact : n % 2 ^ 32 ≡ n = omega arith in
      let more : ltb 0 n ≡ true = ground arith in
      rw (exact, more, read-append (b ∷ payload) rest w.socket e) refl

  request-answered :
      (latency : Latency) (payload rest : List ℕ) (w : Worker Latency)
      → length payload < 2 ^ 32
      → 0 < w.socket.writable
      → w.socket.input ≡ response payload ++ rest
      → let s = w.socket in
        let sent = record s {
          writable = s.writable - 1;
          output = s.output ++ serialize_packet echo_packet;
        } in
        request latency w ≡ ok tt (after_reply latency (record w { socket = sent }) rest)
  unfolding request serialize_packet create_echo_response
  request-answered latency payload rest w small room e =
      let s = w.socket in
      let h = header_of payload in
      let sent = record s {
        writable = s.writable - 1;
        output = s.output ++ serialize_packet echo_packet;
      } in
      let behind = record sent { input = payload ++ rest } in
      let wrote = write-ok (serialize_packet echo_packet) s room in
      let got : read header_size sent ≡ ok (serialize_header h) behind =
        unfold serialize_header in read-append (serialize_header h) (payload ++ rest) sent e in
      let fields : deserialize_header (serialize_header h) default_header ≡ (true, h) =
        unfold serialize_header in
        deserialize-serialize h default_header [] refl (omega arith) (omega arith) in
      rw (wrote, got, fields)
        (read_reply-payload latency payload rest (record w { socket = behind }) small refl)

-- The responses to requests, one behind the other.
abbrev pub responses : List (List ℕ) → List ℕ
responses [] = []
responses (payload ∷ payloads) = response payload ++ responses payloads

abbrev pub Short : List (List ℕ) → Type 0
Short [] = Unit {0}
Short (payload ∷ payloads) = (length payload < 2 ^ 32) × Short payloads

abbrev pub repeated : ℕ → List ℕ → List ℕ
repeated zero bytes = []
repeated (suc n) bytes = bytes ++ repeated n bytes

module _ {Latency : Type 0} (elapsed : ℕ → Latency) where
  -- The latencies of `n` requests from `i`.
  abbrev pub times : ℕ → ℕ → List Latency
  times zero i = []
  times (suc n) i = elapsed i ∷ times n (suc i)

  -- A worker behind `n` answered requests from `i`.
  abbrev pub answered : ℕ → ℕ → Worker Latency → List ℕ → Worker Latency
  answered n i w rest = record {
    totals = record w.totals { completed = w.totals.completed + n };
    socket = record w.socket {
      writable = w.socket.writable - n;
      output = w.socket.output ++ repeated n (serialize_packet echo_packet);
      input = rest;
    };
    thread_latencies = w.thread_latencies ++ times n i;
  }

  answered-suc :
      (n i : ℕ) (w : Worker Latency) (rest rest' : List ℕ)
      → suc (w.totals.completed + n) < 2 ^ 64
      → let s = w.socket in
        let sent = record s {
          writable = s.writable - 1;
          output = s.output ++ serialize_packet echo_packet;
        } in
        answered n (suc i) (after_reply (elapsed i) (record w { socket = sent }) rest') rest
        ≡ answered (suc n) i w rest
  unfolding count_completed
  answered-suc n i w rest rest' small =
      let c : (w.totals.completed + 1) % 2 ^ 64 + n ≡ w.totals.completed + suc n = omega arith in
      let k : w.socket.writable - 1 - n ≡ w.socket.writable - suc n = omega arith in
      let request_bytes = serialize_packet echo_packet in
      rw
        (
          c,
          k,
          append_assoc w.socket.output request_bytes (repeated n request_bytes),
          append_assoc w.thread_latencies (elapsed i ∷ []) (times n (suc i)),
        )
        refl

  pub requests-answered :
      (payloads : List (List ℕ)) (rest : List ℕ) (i : ℕ) (w : Worker Latency)
      → Short payloads
      → length payloads ≤ w.socket.writable
      → w.totals.completed + length payloads < 2 ^ 64
      → w.socket.input ≡ responses payloads ++ rest
      → requests elapsed (length payloads) i w ≡ ok tt (answered (length payloads) i w rest)
  unfolding requests
  requests-answered [] rest i w short room small e =
      let c : w.totals.completed + 0 ≡ w.totals.completed = omega arith in
      let k : w.socket.writable - 0 ≡ w.socket.writable = omega arith in
      rw (append-nil w.socket.output, append-nil w.thread_latencies, sym e, c, k) refl
  requests-answered (payload ∷ payloads) rest i w (short, shorts) room small e =
      let s = w.socket in
      let behind = responses payloads ++ rest in
      let sent = record s {
        writable = s.writable - 1;
        output = s.output ++ serialize_packet echo_packet;
      } in
      let next = after_reply (elapsed i) (record w { socket = sent }) behind in
      let first =
        request-answered (elapsed i) payload behind w short (omega arith)
          (e ∙ append_assoc (response payload) (responses payloads) rest) in
      let later =
        requests-answered payloads rest (suc i) next shorts (omega arith)
          (unfold count_completed in omega arith) refl in
      rw first (later ∙ ap (ok tt) (answered-suc (length payloads) i w rest behind (omega arith)))

module _ {Latency : Type 0} (elapsed : ℕ → Latency) where
  -- A worker that reaches a peer which takes its requests and its last packet and sends as many
  -- echo responses, with payloads below 2 ^ 32 bytes, whatever bytes follow them, adds to the
  -- totals just these completed requests and the latency of each, in their order; the number of
  -- requests fits an int and the vector, and the total stays below 2 ^ 64.
  pub run_client_worker-answered :
      (max_size : ℕ) (payloads : List (List ℕ)) (rest : List ℕ) (s : Socket) (t : Totals Latency)
      → let n = length payloads in
        Short payloads
        → n < 2 ^ 31
        → n ≤ max_size
        → s.reachable ≡ true
        → n < s.writable
        → t.completed + n < 2 ^ 64
        → s.input ≡ responses payloads ++ rest
        → run_client_worker elapsed max_size n s t ≡ record {
          completed = t.completed + n;
          errors = t.errors;
          latencies = t.latencies ++ times elapsed n 0;
        }
  unfolding run_client_worker worker_body end_worker reserve int_to_size iterations merge
  run_client_worker-answered max_size payloads rest s t short int fits reached room small e =
      let n = length payloads in
      let w : Worker Latency = record { totals = t; socket = s; thread_latencies = [] } in
      let positive : ltb n (2 ^ 31) ≡ true = ground arith in
      let reserved : ltb max_size n ≡ false = ground arith in
      let loop = requests-answered elapsed payloads rest 0 w short (omega arith) small e in
      let bye =
        write-ok (serialize_packet disconnect_packet) (answered elapsed n 0 w rest).socket
          (omega arith) in
      rw (connect-ok s reached, positive, reserved, loop, bye) refl

-- ===== src/AsyncNet/Session/Echo.antt =====
-- Echo requests to a session of 01_AsyncNet_Server/src/Session.cpp that arrive one after the other.
use Prim.Native.String.{String}
use object_oriented_programm.Prelude.{
  ℕ, ◌≡◌, refl, ◌%◌, ◌/◌, ◌^◌, ◌≤◌, true, false, some, List, [], ◌∷◌, ◌++◌, ltb, length, arith, ap,
  ◌∙◌, append-nil, append_assoc, sym, zero, suc,
}
use object_oriented_programm.AsyncNet.Protocol.{
  Packet, magic_header, max_payload_size, default_header, echo_request, serialize_header,
  serialize_packet, deserialize_header, create_echo_response, net16, net32,
}
use object_oriented_programm.AsyncNet.Protocol.RoundTrip.{deserialize-serialize}
use object_oriented_programm.AsyncNet.SessionManager.{SessionManager, increment_processed_messages}
use object_oriented_programm.AsyncNet.Session.{
  Session, Event, header_read, read_ends, handler_runs, write_ends, handle, run, end_read,
  on_header, on_fields, do_read_payload, do_read_header, on_payload, process_packet, reply, send,
  run_handler, on_posted, on_send, do_write, end_write, on_write,
}

-- A session that waits for a header and has nothing to write.
abbrev pub idle : List (List ℕ) → ℕ → String → SessionManager → Session
idle delivered self address manager = record {
  write_queue = [];
  is_stopped = false;
  reading = header_read;
  in_flight = [];
  posted = [];
  delivered = delivered;
  self = self;
  remote_address = address;
  manager = manager;
}

abbrev pub request_of : List ℕ → Packet
request_of payload = record {
  header = record { magic = magic_header; type = echo_request; length = length payload % 2 ^ 32 };
  payload = payload;
}

abbrev pub header_bytes : List ℕ → List ℕ
header_bytes payload = serialize_header (request_of payload).header

-- The header arrives, then the payload; the handler of send runs, and its write ends well.
abbrev pub echo_events : List ℕ → List Event
echo_events payload =
    read_ends (some (header_bytes payload))
    ∷ read_ends (some payload)
    ∷ handler_runs
    ∷ write_ends true
    ∷ []

-- The bytes of an echo response: 0x414E, the type 4, the length from its highest byte on, and the
-- payload.
abbrev pub answer : List ℕ → List ℕ
answer payload =
    let n = length payload in 65 ∷ 78 ∷ 0 ∷ 4 ∷ 0 ∷ n / 65536 ∷ n / 256 % 256 ∷ n % 256 ∷ payload

high_byte : (n : ℕ) → n ≤ 65536 → n / 16777216 % 256 ≡ 0
high_byte n h = omega arith

middle_byte : (n : ℕ) → n ≤ 65536 → n / 65536 % 256 ≡ n / 65536
middle_byte n h = omega arith

pub serialize-answer :
    (payload : List ℕ)
    → length payload ≤ max_payload_size
    → serialize_packet (create_echo_response payload) ≡ answer payload
unfolding serialize_packet serialize_header net16 net32 create_echo_response
serialize-answer payload few =
    let n = length payload in
    let small : n % 2 ^ 32 ≡ n = omega arith in rw (small, high_byte n few, middle_byte n few) refl

run-echo :
    (payload : List ℕ) (delivered : List (List ℕ)) (self : ℕ) (address : String)
    (m : SessionManager)
    → 1 ≤ length payload
    → length payload ≤ max_payload_size
    → run (echo_events payload) (idle delivered self address m)
      ≡ idle (delivered ++ answer payload ∷ []) self address (increment_processed_messages m)
unfolding run handle end_read on_header on_fields do_read_payload do_read_header on_payload
    process_packet reply send run_handler on_posted on_send do_write end_write on_write
run-echo payload delivered self address m some_bytes few =
    let h = (request_of payload).header in
    let n = length payload in
    let fields : deserialize_header (header_bytes payload) default_header ≡ (true, h) =
      unfold serialize_header in
      deserialize-serialize h default_header [] refl (omega arith) (omega arith) in
    let fits : ltb max_payload_size (n % 2 ^ 32) ≡ false = ground arith in
    let more : ltb 0 (n % 2 ^ 32) ≡ true = ground arith in
    rw (fields, fits, more, serialize-answer payload few) refl

abbrev pub echoes : List (List ℕ) → List Event
echoes [] = []
echoes (payload ∷ payloads) = echo_events payload ++ echoes payloads

-- The buffers of the responses.
abbrev pub answers : List (List ℕ) → List (List ℕ)
answers [] = []
answers (payload ∷ payloads) = answer payload ∷ answers payloads

-- Payloads that a request may have.
abbrev pub Payloads : List (List ℕ) → Type 0
Payloads [] = Unit {0}
Payloads (payload ∷ payloads) =
    (1 ≤ length payload) × (length payload ≤ max_payload_size) × Payloads payloads

abbrev pub counted_by : ℕ → SessionManager → SessionManager
counted_by zero m = m
counted_by (suc n) m = counted_by n (increment_processed_messages m)

run-append : (es fs : List Event) (s : Session) → run (es ++ fs) s ≡ run fs (run es s)
unfolding run
run-append [] fs s = refl
run-append (e ∷ es) fs s = run-append es fs (handle e s)

-- A session that waits for a header with nothing to write, and to which echo requests with payloads
-- of 1 to 65536 bytes arrive one after the other, writes for each request the bytes 65, 78, 0, 4,
-- four bytes of the payload's length, the highest first, and the payload, in the order of the
-- requests, counts each of them in the manager, and is then in the same state.
pub run-echoes :
    (payloads : List (List ℕ)) (delivered : List (List ℕ)) (self : ℕ) (address : String)
    (m : SessionManager)
    → Payloads payloads
    → run (echoes payloads) (idle delivered self address m)
      ≡ idle (delivered ++ answers payloads) self address (counted_by (length payloads) m)
unfolding run
run-echoes [] delivered self address m h =
    ap (λ ds. idle ds self address m) (sym (append-nil delivered))
run-echoes (payload ∷ payloads) delivered self address m (some_bytes, few, h) =
    let first = answer payload in
    run-append (echo_events payload) (echoes payloads) (idle delivered self address m)
    ∙ ap (λ s. run (echoes payloads) s) (run-echo payload delivered self address m some_bytes few)
    ∙ run-echoes payloads (delivered ++ first ∷ []) self address (increment_processed_messages m) h
    ∙ ap (λ ds. idle ds self address (counted_by (length (payload ∷ payloads)) m))
        (append_assoc delivered (first ∷ []) (answers payloads))

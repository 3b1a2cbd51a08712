-- ===== src/AsyncNet/Tests.antt =====
-- The theorems on the server applied to a session, and to packets of 01_AsyncNet_Server/tests/TestProtocol.cpp.
use object_oriented_programm.Prelude.{
  ℕ, ◌≡◌, refl, true, List, [], ◌∷◌, ◌++◌, length, drop, inl, none, some, arith,
}
use object_oriented_programm.AsyncNet.Protocol.{
  Header, Packet, magic_header, header_size, ping, default_header, create_echo_response,
  create_pong_packet, serialize_header, serialize_packet, deserialize_header, read_header,
}
use object_oriented_programm.AsyncNet.Protocol.RoundTrip.{
  deserialize-serialize, serialize-deserialize, serialize_packet-frames,
}
use object_oriented_programm.AsyncNet.Session.{
  Event, read_ends, send_called, handler_runs, write_ends, start, run, send, new_session, Session,
}
use object_oriented_programm.AsyncNet.SessionManager.{new_manager, remove_session}
use object_oriented_programm.AsyncNet.Session.Refusal.{run-refused}
use object_oriented_programm.AsyncNet.Session.Echo.{idle, echoes, answers, counted_by, run-echoes}
use object_oriented_programm.AsyncNet.Session.Order.{run-all_bytes, taken, WritesFront}

abbrev ping_header : Header
ping_header = record { magic = magic_header; type = ping; length = 1024 }

deserialize-serialize_example :
    deserialize_header (serialize_header ping_header ++ []) default_header ≡ (true, ping_header)
deserialize-serialize_example =
    deserialize-serialize ping_header default_header [] refl (omega arith) (omega arith)

-- The bytes of the header, and one of its payload.
abbrev received : List ℕ
received = 65 ∷ 78 ∷ 0 ∷ 1 ∷ 0 ∷ 0 ∷ 4 ∷ 0 ∷ 255 ∷ []

serialize-deserialize_example : serialize_header ping_header ++ 255 ∷ [] ≡ received
unfolding deserialize_header read_header
serialize-deserialize_example =
    serialize-deserialize received default_header ping_header
      (
        omega arith,
        (
          omega arith,
          (
            omega arith,
            (
              omega arith,
              (omega arith, (omega arith, (omega arith, (omega arith, (omega arith, tt))))),
            ),
          ),
        ),
      )
      refl

abbrev echo : Packet
echo = create_echo_response (1 ∷ 2 ∷ 3 ∷ [])

serialize_packet-frames_example :
    (deserialize_header (serialize_packet echo ++ 9 ∷ []) default_header
      ≡ (true, record echo.header { length = 3 }))
    × (drop header_size (serialize_packet echo ++ 9 ∷ []) ≡ 1 ∷ 2 ∷ 3 ∷ 9 ∷ [])
    × (length (serialize_packet echo) ≡ 11)
unfolding create_echo_response
serialize_packet-frames_example =
    serialize_packet-frames echo default_header (9 ∷ []) refl (omega arith) (omega arith)

-- Two packets are sent, both handlers run, and the first write ends.
abbrev exchange : List Event
exchange =
    send_called create_pong_packet
    ∷ send_called echo
    ∷ handler_runs
    ∷ handler_runs
    ∷ write_ends true
    ∷ []

opened : Session
unfolding start new_session
opened = start (new_session 1 none new_manager)

run-all_bytes_example :
    ((run exchange opened).delivered ++ (run exchange opened).write_queue
      ≡ ([] ++ []) ++ taken exchange opened)
    × WritesFront (run exchange opened)
unfolding opened
run-all_bytes_example = run-all_bytes exchange opened (inl refl)

exchange_delivers : (run exchange opened).delivered ≡ (65 ∷ 78 ∷ 0 ∷ 2 ∷ 0 ∷ 0 ∷ 0 ∷ 0 ∷ []) ∷ []
unfolding run opened send create_pong_packet serialize_packet
exchange_delivers = refl

run-echoes_example :
    run (echoes ((65 ∷ []) ∷ (66 ∷ 67 ∷ []) ∷ [])) (idle [] 1 "unknown" new_manager)
    ≡ idle ([] ++ answers ((65 ∷ []) ∷ (66 ∷ 67 ∷ []) ∷ [])) 1 "unknown" (counted_by 2 new_manager)
run-echoes_example =
    run-echoes ((65 ∷ []) ∷ (66 ∷ 67 ∷ []) ∷ []) [] 1 "unknown" new_manager
      (omega arith, omega arith, (omega arith, omega arith, tt))

-- A header with a foreign magic number, and then a packet that another thread sends.
abbrev foreign : List ℕ
foreign = 71 ∷ 69 ∷ 84 ∷ 32 ∷ 47 ∷ 32 ∷ 72 ∷ 84 ∷ []

abbrev later : List Event
later = send_called create_pong_packet ∷ handler_runs ∷ read_ends (some foreign) ∷ []

run-refused_example :
    let t =
      run
        (read_ends (some foreign) ∷ handler_runs ∷ later)
        (idle [] 1 "10.0.0.1:5000" new_manager) in
    (t.is_stopped ≡ true) × (t.delivered ≡ []) × (t.manager ≡ remove_session 1 new_manager)
unfolding read_header
run-refused_example = run-refused foreign [] 1 "10.0.0.1:5000" new_manager later refl refl

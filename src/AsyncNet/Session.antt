-- ===== src/AsyncNet/Session.antt =====
-- 01_AsyncNet_Server/src/Session.cpp. The handlers of a session run one at a time on its strand.
-- What Asio does is an event: a posted handler runs, in the order of the posts, or a read or a
-- write that was started ends, with an error or without. The text that is logged is left out.
pub mod ReadEnds
pub mod Order
pub mod Membership
pub mod Echo
pub mod Refusal
use object_oriented_programm.Prelude.{
  ℕ, suc, Bool, true, false, not, Option, none, some, List, [], ◌∷◌, ◌++◌, ltb, ◌==◌, if◌then◌else◌,
}
use Prim.Native.String.{String, ◌++◌ as ◌<>◌}
use object_oriented_programm.AsyncNet.SessionManager.{
  SessionManager, remove_session, increment_processed_messages,
}
use object_oriented_programm.AsyncNet.Protocol.{
  Header, Packet, max_payload_size, ping, echo_request, disconnect, default_header,
  deserialize_header, serialize_packet, create_echo_response, create_pong_packet,
}

-- The lambdas that stop and send post.
pub data Posted : Type 0 where
  stopping : Posted
  sending : List ℕ → Posted

-- The read that the socket has been given, if any.
pub data Reading : Type 0 where
  no_read : Reading
  header_read : Reading
  payload_read : Header → Reading

-- `posted` is the strand's queue, `in_flight` the buffers that calls of async_write have been
-- given and have not ended with, `delivered` the buffers that were written; `manager` is the manager that all sessions share, which
-- a step of the server hands to the session and takes back.
pub record Session : Type 0 where
  pub write_queue : List (List ℕ)
  pub is_stopped : Bool
  pub reading : Reading
  pub in_flight : List (List ℕ)
  pub posted : List Posted
  pub delivered : List (List ℕ)
  pub self : ℕ
  pub remote_address : String
  pub manager : SessionManager

-- The first element, if there is one.
abbrev pub front : List (List ℕ) → List (List ℕ)
front [] = []
front (bytes ∷ queue) = bytes ∷ []

abbrev pub pop_front : List (List ℕ) → List (List ℕ)
pop_front [] = []
pop_front (bytes ∷ queue) = queue

abbrev pub is_clear : List (List ℕ) → Bool
is_clear [] = true
is_clear (bytes ∷ queue) = false

abbrev pub post : Posted → Session → Session
post handler s = record s { posted = s.posted ++ handler ∷ [] }

unfoldable pub stop : Session → Session
stop s = post stopping s

unfoldable pub send : Packet → Session → Session
send packet s = post (sending (serialize_packet packet)) s

-- One more async_write, whether or not another is under way.
unfoldable pub do_write : Session → Session
do_write s = record s { in_flight = s.in_flight ++ front s.write_queue }

unfoldable pub do_read_header : Session → Session
do_read_header s = record s { reading = header_read }

unfoldable pub do_read_payload : Header → Session → Session
do_read_payload header s = record s { reading = payload_read header }

-- The handler that stop posts.
unfoldable pub on_stop : Session → Session
on_stop s =
    if s.is_stopped
    then s
    else record s { is_stopped = true; manager = remove_session s.self s.manager }

-- The handler that send posts.
unfoldable pub on_send : List ℕ → Session → Session
unfolding do_write
on_send bytes s =
    let queued = record s { write_queue = s.write_queue ++ bytes ∷ [] } in
    if s.is_stopped then s else if is_clear s.write_queue then do_write queued else queued

unfoldable pub reply : Header → List ℕ → Session → Session
reply header payload s =
    if header.type == ping
    then send create_pong_packet s
    else if header.type == echo_request
    then send (create_echo_response payload) s
    else if header.type == disconnect
    then stop s
    else s

-- `manager_.incrementProcessedMessages()`.
abbrev pub counted : Session → Session
counted s = record s { manager = increment_processed_messages s.manager }

unfoldable pub process_packet : Header → List ℕ → Session → Session
process_packet header payload s = reply header payload (counted s)

-- A header that deserializeHeader has answered for.
unfoldable pub on_fields : Bool × Header → Session → Session
on_fields (accepted, header) s =
    if not accepted
    then stop s
    else if ltb max_payload_size header.length
    then stop s
    else if ltb 0 header.length
    then do_read_payload header s
    else do_read_header (process_packet header [] s)

-- The end of the read of a header, and of a payload; `none` is an error.
unfoldable pub on_header : Option (List ℕ) → Session → Session
on_header none s = stop s
on_header (some bytes) s = on_fields (deserialize_header bytes default_header) s

unfoldable pub on_payload : Header → Option (List ℕ) → Session → Session
on_payload header none s = stop s
on_payload header (some payload) s = do_read_header (process_packet header payload s)

-- The end of a write, `true` if it went well.
unfoldable pub on_write : Bool → Session → Session
unfolding do_write
on_write false s = stop s
on_write true s =
    let popped = record s { write_queue = pop_front s.write_queue } in
    if is_clear popped.write_queue then popped else do_write popped

-- What can happen to a session.
pub data Event : Type 0 where
  handler_runs : Event
  read_ends : Option (List ℕ) → Event
  write_ends : Bool → Event
  send_called : Packet → Event
  stop_called : Event

unfoldable pub on_posted : Posted → Session → Session
unfolding on_stop on_send
on_posted stopping s = on_stop s
on_posted (sending bytes) s = on_send bytes s

unfoldable pub run_handler : List Posted → Session → Session
unfolding on_posted
run_handler [] s = s
run_handler (handler ∷ rest) s = on_posted handler (record s { posted = rest })

unfoldable pub end_read : Reading → Option (List ℕ) → Session → Session
end_read no_read result s = s
end_read header_read result s = on_header result (record s { reading = no_read })
end_read (payload_read header) result s = on_payload header result (record s { reading = no_read })

-- The first write under way ends; if it goes well, it has delivered its buffer.
unfoldable pub end_write : List (List ℕ) → Bool → Session → Session
unfolding on_write
end_write [] well s = s
end_write (bytes ∷ others) well s = on_write well (record s {
  in_flight = others;
  delivered = if well then s.delivered ++ bytes ∷ [] else s.delivered;
})

unfoldable pub handle : Event → Session → Session
unfolding run_handler end_write
handle handler_runs s = run_handler s.posted s
handle (read_ends result) s = end_read s.reading result s
handle (write_ends well) s = end_write s.in_flight well s
handle (send_called packet) s = send packet s
handle stop_called s = stop s

unfoldable pub run : List Event → Session → Session
unfolding handle
run [] s = s
run (e ∷ es) s = run es (handle e s)

-- The address and the port of the peer as text, if `remote_endpoint` does not throw.
unfoldable pub remote_address_of : Option (String × String) → String
remote_address_of none = "unknown"
remote_address_of (some (address, port)) = address <> ":" <> port

unfoldable pub new_session : ℕ → Option (String × String) → SessionManager → Session
unfolding remote_address_of
new_session self endpoint manager = record {
  write_queue = [];
  is_stopped = false;
  reading = no_read;
  in_flight = [];
  posted = [];
  delivered = [];
  self = self;
  remote_address = remote_address_of endpoint;
  manager = manager;
}

unfoldable pub get_remote_address : Session → String
get_remote_address s = s.remote_address

unfoldable pub start : Session → Session
unfolding do_read_header
start s = do_read_header s

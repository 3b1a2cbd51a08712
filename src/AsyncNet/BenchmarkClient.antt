-- ===== src/AsyncNet/BenchmarkClient.antt =====
-- 01_AsyncNet_Server/client/BenchmarkClient.cpp. A socket is what the peer makes of it: the bytes that
-- it sends, and how many writes it takes before the connection breaks. `elapsed i` is the latency
-- that the clock gives for request `i`, `max_size` that of the vectors, whose `reserve` throws
-- beyond it. An int is given by its 32 bits. The text that is printed is left out.
pub mod Answers
pub mod Moves
pub mod Accounts
pub mod Clients
pub mod Report
pub mod Conversation
use Prim.Native.String.{String}
use text.Mathlib.Text
use object_oriented_programm.Prelude.{
  ℕ, zero, suc, ◌+◌, ◌*◌, ◌-◌, ◌%◌, ◌^◌, Bool, true, false, List, [], ◌∷◌, ◌++◌, ltb, leb, ◌==◌,
  not, if◌then◌else◌, length, drop, Run, Cmd, ok, threw, fault, out_of_fuel, pure, ◌>>=◌, ◌>>◌,
  within,
}
use object_oriented_programm.AsyncNet.Protocol.{
  magic_header, header_size, echo_request, disconnect, Header, Packet, default_header,
  deserialize_header, serialize_packet,
}
use object_oriented_programm.AsyncNet.Main.{int_to_size}

pub record Socket : Type 0 where
  pub reachable : Bool
  pub writable : ℕ
  pub input : List ℕ
  pub output : List ℕ

abbrev pub take : ℕ → List ℕ → List ℕ
take zero bytes = []
take (suc n) [] = []
take (suc n) (b ∷ bytes) = b ∷ take n bytes

-- `boost::asio::connect`, `write` of a whole buffer and `read` of one of `n` bytes.
unfoldable pub connect : Cmd Socket (Unit {0})
connect s = if s.reachable then ok tt s else threw s

unfoldable pub write : List ℕ → Cmd Socket (Unit {0})
write bytes s =
    if s.writable == 0
    then threw s
    else ok tt (record s { writable = s.writable - 1; output = s.output ++ bytes })

unfoldable pub read : ℕ → Cmd Socket (List ℕ)
read n s =
    if ltb (length s.input) n
    then threw (record s { input = [] })
    else ok (take n s.input) (record s { input = drop n s.input })

abbrev pub test_payload : List ℕ
test_payload =
    65 ∷ 115 ∷ 121 ∷ 110 ∷ 99 ∷ 78 ∷ 101 ∷ 116 ∷ 32 ∷ 72 ∷ 105 ∷ 103 ∷ 104 ∷ 45 ∷ 80 ∷ 101 ∷ 114
    ∷ 102 ∷ 111 ∷ 114 ∷ 109 ∷ 97 ∷ 110 ∷ 99 ∷ 101 ∷ 32 ∷ 66 ∷ 101 ∷ 110 ∷ 99 ∷ 104 ∷ 109 ∷ 97 ∷ 114
    ∷ 107 ∷ 32 ∷ 80 ∷ 97 ∷ 121 ∷ 108 ∷ 111 ∷ 97 ∷ 100 ∷ 32 ∷ 69 ∷ 110 ∷ 103 ∷ 105 ∷ 110 ∷ 101 ∷ 32
    ∷ 50 ∷ 48 ∷ 50 ∷ 54 ∷ 33 ∷ []

unfoldable pub echo_packet : Packet
echo_packet = record {
  header = record {
    magic = magic_header;
    type = echo_request;
    length = length test_payload % 2 ^ 32;
  };
  payload = test_payload;
}

unfoldable pub disconnect_packet : Packet
disconnect_packet = record {
  header = record { magic = magic_header; type = disconnect; length = 0 };
  payload = [];
}

-- The iterations of `for (int i = 0; i < n; ++i)`.
unfoldable pub iterations : ℕ → ℕ
iterations n = if ltb n (2 ^ 31) then n else 0

-- What the threads share: each of them only counts and appends here, by atomics or under the mutex.
pub record Totals (Latency : Type 0) : Type 0 where
  pub completed : ℕ
  pub errors : ℕ
  pub latencies : List Latency

pub record Worker (Latency : Type 0) : Type 0 where
  pub totals : Totals Latency
  pub socket : Socket
  pub thread_latencies : List Latency

module _ {Latency : Type 0} where
  abbrev pub on_socket : {A : Type 0} → Cmd Socket A → Cmd (Worker Latency) A
  on_socket = within (λ w. w.socket) (λ s w. record w { socket = s })

  unfoldable pub count_error : Totals Latency → Totals Latency
  count_error t = record t { errors = (t.errors + 1) % 2 ^ 64 }

  unfoldable pub count_completed : Totals Latency → Totals Latency
  count_completed t = record t { completed = (t.completed + 1) % 2 ^ 64 }

  -- A response whose header has been read.
  unfoldable pub read_reply : Latency → Bool × Header → Cmd (Worker Latency) (Unit {0})
  unfolding read count_error count_completed
  read_reply latency (false, header) w = ok tt (record w { totals = count_error w.totals })
  read_reply latency (true, header) w =
      ((if ltb 0 header.length then (on_socket (read header.length) >> pure tt) else pure tt)
          >> (λ v. ok tt (record v {
            totals = count_completed v.totals;
            thread_latencies = v.thread_latencies ++ latency ∷ [];
          })))
        w

  unfoldable pub request : Latency → Cmd (Worker Latency) (Unit {0})
  unfolding write read read_reply echo_packet
  request latency = do
    on_socket (write (serialize_packet echo_packet))
    header ← on_socket (read header_size)
    read_reply latency (deserialize_header header default_header)

  unfoldable pub reserve : ℕ → ℕ → Cmd (Worker Latency) (Unit {0})
  unfolding int_to_size
  reserve max_size count w = if ltb max_size (int_to_size count) then threw w else ok tt w

  unfoldable pub merge : Cmd (Worker Latency) (Unit {0})
  merge w = ok tt (record w {
    totals = record w.totals { latencies = w.totals.latencies ++ w.thread_latencies };
  })

  module _ (elapsed : ℕ → Latency) where
    -- `n` iterations from `i`.
    unfoldable pub requests : ℕ → ℕ → Cmd (Worker Latency) (Unit {0})
    unfolding request
    requests zero i = pure tt
    requests (suc n) i = request (elapsed i) >> requests n (suc i)

    -- What runs under the `try`.
    unfoldable pub worker_body : ℕ → ℕ → Cmd (Worker Latency) (Unit {0})
    unfolding connect write reserve requests merge iterations disconnect_packet
    worker_body max_size count = do
      on_socket connect
      reserve max_size count
      requests (iterations count) 0
      on_socket (write (serialize_packet disconnect_packet))
      merge

    -- The `catch`.
    unfoldable pub end_worker : Run (Worker Latency) (Unit {0}) → Totals Latency → Totals Latency
    unfolding count_error
    end_worker (ok tt w) t = w.totals
    end_worker (threw w) t = count_error w.totals
    end_worker fault t = t
    end_worker out_of_fuel t = t

    unfoldable pub run_client_worker : ℕ → ℕ → Socket → Totals Latency → Totals Latency
    unfolding worker_body end_worker
    run_client_worker max_size count socket totals =
        end_worker
          (worker_body max_size count
            (record { totals = totals; socket = socket; thread_latencies = [] }))
          totals

pub record Options : Type 0 where
  pub host : String
  pub port : ℕ
  pub num_clients : ℕ
  pub requests_per_client : ℕ

-- What the next argument is for: one that is awaited is there.
pub data Awaited : Type 0 where
  any_argument : Awaited
  host_value : Awaited
  port_value : Awaited
  clients_value : Awaited
  requests_value : Awaited

unfoldable pub default_options : Options
default_options = record {
  host = "127.0.0.1";
  port = 8080;
  num_clients = 20;
  requests_per_client = 1000;
}

unfoldable pub awaited_after : String → Awaited
awaited_after arg =
    if Text.◌==◌ arg "--host"
    then host_value
    else if Text.◌==◌ arg "--port"
    then port_value
    else if Text.◌==◌ arg "--clients"
    then clients_value
    else if Text.◌==◌ arg "--requests"
    then requests_value
    else any_argument

unfoldable pub set_option : (String → ℕ) → Awaited → String → Options → Options
set_option atoi any_argument value o = o
set_option atoi host_value value o = record o { host = value }
set_option atoi port_value value o = record o { port = atoi value % 2 ^ 16 }
set_option atoi clients_value value o = record o { num_clients = atoi value }
set_option atoi requests_value value o = record o { requests_per_client = atoi value }

-- The loop over the arguments; the last one names no option, for it has no value.
unfoldable pub read_options : (String → ℕ) → Awaited → List String → Options → Options
unfolding awaited_after set_option
read_options atoi awaited [] o = o
read_options atoi any_argument (arg ∷ rest) o = read_options atoi (awaited_after arg) rest o
read_options atoi awaited (value ∷ rest) o =
    read_options atoi any_argument rest (set_option atoi awaited value o)

abbrev pub same_sign : Bool → Bool → Bool
same_sign true b = b
same_sign false b = not b

-- Whether the product of two ints is none, so that computing it is undefined.
unfoldable pub is_negative : ℕ → Bool
is_negative n = not (ltb n (2 ^ 31))

unfoldable pub magnitude : ℕ → ℕ
magnitude n = if ltb n (2 ^ 31) then n else 2 ^ 32 - n

unfoldable pub product_overflows : ℕ → ℕ → Bool
unfolding is_negative magnitude
product_overflows m n =
    let size = magnitude m * magnitude n in
    if same_sign (is_negative m) (is_negative n) then leb (2 ^ 31) size else ltb (2 ^ 31) size

-- How the benchmark ends: with what the threads have shared, by an exception that nobody catches,
-- which terminates the process, or undefined.
pub data Ending (Latency : Type 0) : Type 0 where
  ended : Totals Latency → Ending Latency
  terminated : Ending Latency
  undefined : Ending Latency

module _ {Latency : Type 0} where
  unfoldable pub new_totals : Totals Latency
  new_totals = record { completed = 0; errors = 0; latencies = [] }

  -- `elapsed i` and `socket i` are those of the thread `i`, and `starts i` says that the constructor
  -- of that thread does not throw.
  module _ (elapsed : ℕ → ℕ → Latency) (socket : ℕ → Socket) (starts : ℕ → Bool) where
    -- An exception of the loop meets threads that are joinable.
    unfoldable pub run_clients : ℕ → ℕ → ℕ → ℕ → Totals Latency → Ending Latency
    unfolding run_client_worker
    run_clients max_size count zero i totals = ended totals
    run_clients max_size count (suc n) i totals =
        let rest =
          run_clients max_size count n (suc i)
            (run_client_worker (elapsed i) max_size count (socket i) totals) in
        if starts i then rest else terminated

    -- The total workload is computed first, for the text that is printed.
    unfoldable pub benchmark : ℕ → Options → Ending Latency
    unfolding int_to_size iterations run_clients new_totals product_overflows
    benchmark max_size o =
        if product_overflows o.num_clients o.requests_per_client
        then undefined
        else if ltb max_size (int_to_size o.num_clients)
        then terminated
        else run_clients max_size o.requests_per_client (iterations o.num_clients) 0 new_totals

    unfoldable pub main : (String → ℕ) → ℕ → List String → Ending Latency
    unfolding read_options default_options benchmark
    main atoi max_size argv =
        benchmark max_size (read_options atoi any_argument argv default_options)

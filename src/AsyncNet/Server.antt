-- ===== src/AsyncNet/Server.antt =====
-- 01_AsyncNet_Server/include/Server.hpp and src/Server.cpp. Asio and std::thread are events and
-- flags: an accept that was started ends, a signal arrives, a session has an event; the context
-- begins nothing once it is stopped, but what runs then ends. Threads are numbered from 1.
pub mod Shutdown
pub mod Stages
pub mod Registry
pub mod Closing
use object_oriented_programm.Prelude.{
  ℕ, zero, suc, Bool, true, false, not, ◌&&◌, Option, none, some, List, [], ◌∷◌, ◌++◌, ltb, ◌==◌,
  if◌then◌else◌, Cmd, Run, ok, threw,
}
use Prim.Native.String.{String}
use object_oriented_programm.AsyncNet.SessionManager.{
  SessionManager, new_manager, add_session, clear_sessions,
}
use object_oriented_programm.AsyncNet.Session
use object_oriented_programm.AsyncNet.Session.{Session, Event, new_session, handle}

-- `accepting` says that an async_accept is outstanding, `workers` which threads there are and
-- whether each is joinable; the sessions are those below `next`, by their names.
pub record Server : Type 0 where
  pub port : ℕ
  pub thread_pool_size : ℕ
  pub is_running : Bool
  pub acceptor_open : Bool
  pub accepting : Bool
  pub context_stopped : Bool
  pub workers : List (ℕ × Bool)
  pub sessions : ℕ → Session
  pub next : ℕ
  pub manager : SessionManager

-- The constructor; `free port` says that the acceptor can listen there.
unfoldable pub new_server : (ℕ → Bool) → ℕ → ℕ → Option Server
unfolding new_manager new_session
new_server free port thread_pool_size =
    if free port
    then some (record {
      port = port;
      thread_pool_size = thread_pool_size;
      is_running = false;
      acceptor_open = true;
      accepting = false;
      context_stopped = false;
      workers = [];
      sessions = λ i. new_session i none new_manager;
      next = 0;
      manager = new_manager;
    })
    else none

unfoldable pub get_port : Server → ℕ
get_port s = s.port

unfoldable pub get_thread_pool_size : Server → ℕ
get_thread_pool_size s = s.thread_pool_size

unfoldable pub get_session_manager : Server → SessionManager
get_session_manager s = s.manager

unfoldable pub do_accept : Server → Server
do_accept s = record s { accepting = true }

-- `n` more threads behind the number `i`, as long as they start: `starts` says so of each, by its
-- number, and the constructor of a thread that does not start throws.
unfoldable pub spawn : (ℕ → Bool) → ℕ → ℕ → Bool × List (ℕ × Bool)
spawn starts zero i = (true, [])
spawn starts (suc n) i =
    let (all, threads) = spawn starts n (suc i) in
    if starts (suc i) then (all, (suc i, true) ∷ threads) else (false, [])

-- The end of the loop that makes the threads.
unfoldable pub enter_threads : Bool × List (ℕ × Bool) → Cmd Server (Unit {0})
enter_threads (all, threads) s =
    let t = record s { workers = s.workers ++ threads } in if all then ok tt t else threw t

-- `max_size` is that of the vector of threads: `reserve` throws beyond it.
unfoldable pub start : (ℕ → Bool) → ℕ → Cmd Server (Unit {0})
unfolding do_accept enter_threads
start starts max_size s =
    let t = do_accept (record s { is_running = true }) in
    if s.is_running
    then ok tt s
    else if ltb max_size s.thread_pool_size
    then threw t
    else enter_threads (spawn starts s.thread_pool_size 0) t

unfoldable pub update : (ℕ → Session) → ℕ → Session → ℕ → Session
update sessions i session j = if i == j then session else sessions j

-- `for (auto& session : sessions_) session->stop();`
unfoldable pub stop_members : List ℕ → (ℕ → Session) → ℕ → Session
unfolding update
stop_members [] sessions = sessions
stop_members (i ∷ members) sessions =
    stop_members members (update sessions i (Session.stop (sessions i)))

unfoldable pub stop_all : Server → Server
stop_all s = record s {
  sessions = stop_members s.manager.sessions s.sessions;
  manager = clear_sessions s.manager;
}

-- Whether a thread is the one that runs this code, if that is a worker.
abbrev pub is_self : Option ℕ → ℕ → Bool
is_self none i = false
is_self (some caller) i = caller == i

-- The loop of joins: `false` if a thread was to join itself, where join throws.
unfoldable pub join_workers : Option ℕ → List (ℕ × Bool) → Bool × List (ℕ × Bool)
join_workers caller [] = (true, [])
join_workers caller ((i, joinable) ∷ workers) =
    let (joined, rest) = join_workers caller workers in
    if joinable && is_self caller i
    then (false, (i, joinable) ∷ workers)
    else (joined, (i, false) ∷ rest)

-- The last lines of stop, by the outcome of the joins.
unfoldable pub finish_stop : Bool × List (ℕ × Bool) → Cmd Server (Unit {0})
finish_stop (true, workers) s = ok tt (record s { workers = [] })
finish_stop (false, workers) s = threw (record s { workers = workers })

-- What the handler of an accept does with a socket.
unfoldable pub welcome : Option (String × String) → Server → Server
unfolding update
welcome endpoint s =
    let manager = add_session s.next s.manager in
    let session = new_session s.next endpoint manager in
    record s {
      sessions = update s.sessions s.next (Session.start session);
      next = suc s.next;
      manager = manager;
    }

-- The end of an accept: an error, or a socket and its peer.
unfoldable pub on_accept : Option (Option (String × String)) → Server → Server
unfolding do_accept
on_accept none s = if s.is_running then do_accept s else s
on_accept (some endpoint) s = let t = welcome endpoint s in if t.is_running then do_accept t else t

-- A step of a session, which has the manager in its hands.
unfoldable pub session_step : ℕ → Event → Server → Server
unfolding update
session_step i e s =
    let v = handle e (record (s.sessions i) { manager = s.manager }) in
    record s { sessions = update s.sessions i v; manager = v.manager }

-- What the workers can run next.
pub data ServerEvent : Type 0 where
  accept_ends : Option (Option (String × String)) → ServerEvent
  session_has : ℕ → Event → ServerEvent

unfoldable pub dispatch : ServerEvent → Server → Server
dispatch (accept_ends result) s =
    if s.accepting then on_accept result (record s { accepting = false }) else s
dispatch (session_has i e) s = if ltb i s.next then session_step i e s else s

unfoldable pub step : ServerEvent → Server → Server
step e s = if s.context_stopped then s else dispatch e s

unfoldable pub run : List ServerEvent → Server → Server
run [] s = s
run (e ∷ es) s = run es (step e s)

-- The handlers that the other threads run between the steps of stop. Those of `before_joins` had
-- begun when the context was stopped, and end all the same.
pub record Meanwhile : Type 0 where
  pub before_stop_all : List ServerEvent
  pub before_close : List ServerEvent
  pub before_context_stop : List ServerEvent
  pub before_joins : List ServerEvent

unfoldable pub finish_handlers : List ServerEvent → Server → Server
unfolding dispatch
finish_handlers [] s = s
finish_handlers (e ∷ es) s = finish_handlers es (dispatch e s)

-- stop up to the joins, by its steps; stopAll holds the mutex of the manager throughout.
unfoldable pub shut : Meanwhile → Server → Server
unfolding stop_all run finish_handlers
shut m s =
    let cleared = stop_all (run m.before_stop_all (record s { is_running = false })) in
    let closed = record (run m.before_close cleared) { acceptor_open = false } in
    let halted = record (run m.before_context_stop closed) { context_stopped = true } in
    finish_handlers m.before_joins halted

unfoldable pub join_all : Option ℕ → Cmd Server (Unit {0})
unfolding join_workers finish_stop
join_all caller s = finish_stop (join_workers caller s.workers) s

-- `caller` is the worker that calls stop, if one does.
unfoldable pub stop : Meanwhile → Option ℕ → Cmd Server (Unit {0})
unfolding shut join_all
stop m caller s = if not s.is_running then ok tt s else join_all caller (shut m s)

-- The destructor, which no worker runs.
unfoldable pub destroy_server : Meanwhile → Cmd Server (Unit {0})
unfolding stop
destroy_server m = stop m none

-- The handler of a signal; `failed` is its error code.
unfoldable pub on_signal : Meanwhile → ℕ → Bool → Cmd Server (Unit {0})
unfolding stop
on_signal m worker failed s = if failed then ok tt s else stop m (some worker) s

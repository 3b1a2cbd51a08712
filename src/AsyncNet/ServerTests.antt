-- ===== src/AsyncNet/ServerTests.antt =====
-- The theorems on the server, its program and its logger applied to small cases.
use Prim.Native.String.{String}
use text.Mathlib.Text
use object_oriented_programm.Prelude.{
  ltb, leb, ℕ, ◌≡◌, refl, ◌++◌, Bool, true, false, List, [], ◌∷◌, some, none, ok, threw, ◌==◌,
  arith, if◌then◌else◌, lookup,
}
use object_oriented_programm.AsyncNet.SessionManager.{
  new_manager, contains, add_session, insert_member, remove_session, erase_member, clear_sessions,
}
use object_oriented_programm.AsyncNet.Session
use object_oriented_programm.AsyncNet.Session.{
  handler_runs, stopping, handle, new_session, run_handler, on_posted, on_stop,
}
use object_oriented_programm.AsyncNet.Session.Membership.{Steps, handle-Steps}
use object_oriented_programm.AsyncNet.Server.{
  Server, ServerEvent, accept_ends, session_has, new_server, Meanwhile, shut, stop_members, update,
  finish_handlers, step, dispatch, on_accept, welcome, session_step, start, stop_all, stop,
  on_signal, run,
}
use object_oriented_programm.AsyncNet.Server.Registry.{Listens, run-Listens}
use object_oriented_programm.AsyncNet.Server.Stages.{
  Started, listening, listening-Listens, start-Started,
}
use object_oriented_programm.AsyncNet.Server.Shutdown.{flagged, stop-outside, on_signal-throws}
use object_oriented_programm.AsyncNet.Main.{parse_args, parsed, help, defaults}
use object_oriented_programm.AsyncNet.Main.Arguments.{
  Setting, port_setting, threads_setting, words, apply, parse_args-words,
}
use object_oriented_programm.AsyncNet.Logger.{Entry, error, debug, warn}

abbrev free : ℕ → Bool
free port = port == 8080

-- The first two threads can be started, and no third.
abbrev two_start : ℕ → Bool
two_start j = ltb j 3

-- Of three threads the last does not start.
start-Started_example :
    (s : Server) × (t : Server) × (new_server free 8080 3 ≡ some s)
    × (start two_start 100 s ≡ (if leb 3 2 then ok tt t else threw t))
    × Started 8080 3 2 t
    × ((es : List ServerEvent) → Listens (run es t))
start-Started_example =
    start-Started free two_start 100 8080 3 2 refl (omega arith) (omega arith)
      (λ j lo hi. ground arith) (λ more. refl)

-- Two clients come, and the first is stopped.
abbrev visits : List ServerEvent
visits =
    accept_ends (some (some ("10.0.0.1", "5000")))
    ∷ accept_ends (some none)
    ∷ session_has 0 Session.stop_called
    ∷ session_has 0 handler_runs
    ∷ []

run-Listens_example : Listens (run visits (listening 8080 2 2))
run-Listens_example = run-Listens visits (listening 8080 2 2) (listening-Listens 8080 2 2)

abbrev busy : Server
busy = record (listening 8080 2 2) {
  next = 2;
  manager = record new_manager { sessions = 1 ∷ 0 ∷ [] };
}

-- A client comes after stopAll, and a session is stopped before it.
abbrev meanwhile : Meanwhile
meanwhile = record {
  before_stop_all = session_has 0 Session.stop_called ∷ session_has 0 handler_runs ∷ [];
  before_close = accept_ends (some none) ∷ [];
  before_context_stop = accept_ends (some none) ∷ [];
  before_joins = [];
}

stop-outside_example :
    (t : Server) × (stop meanwhile none busy ≡ ok tt t)
    × (t.is_running ≡ false)
    × (t.workers ≡ [])
    × (t.acceptor_open ≡ false)
    × (t.context_stopped ≡ true)
    × ((i : ℕ) → contains i t.manager.sessions ≡ true → i ≡ 2)
    × ((i : ℕ)
        → contains i (flagged meanwhile busy).manager.sessions ≡ true
        → (stop_all (flagged meanwhile busy)).sessions i
          ≡ Session.stop ((flagged meanwhile busy).sessions i))
stop-outside_example = stop-outside meanwhile busy refl (refl, (refl, tt))

-- The client that came after stopAll is in the manager, and no stop is posted to its session.
late_client_stays :
    (contains 2 (shut meanwhile busy).manager.sessions ≡ true)
    × (((shut meanwhile busy).sessions 2).posted ≡ [])
unfolding shut run stop_all stop_members update finish_handlers step dispatch on_accept welcome
    add_session insert_member session_step handle run_handler on_posted on_stop remove_session
    erase_member clear_sessions new_session Session.start
late_client_stays = (refl, refl)

on_signal-throws_example :
    (t : Server) × (on_signal meanwhile 1 false busy ≡ threw t)
    × (t.is_running ≡ false)
    × (t.context_stopped ≡ true)
    × (lookup 1 t.workers ≡ some true)
    × ((later : Meanwhile) → stop later none t ≡ ok tt t)
on_signal-throws_example = on_signal-throws meanwhile busy 1 refl refl (omega arith) (omega arith)

abbrev leaving : Session.Session
leaving = record (new_session 0 none (record new_manager { sessions = 1 ∷ 0 ∷ [] })) {
  posted = stopping ∷ [];
}

handle-Steps_example : Steps leaving (handle handler_runs leaving)
handle-Steps_example = handle-Steps handler_runs leaving

-- std::atoi of the texts below.
abbrev number : String → ℕ
number text = if Text.◌==◌ text "9090" then 9090 else if Text.◌==◌ text "3" then 3 else 0

abbrev settings : List Setting
settings = port_setting true "9090" ∷ threads_setting false "3" ∷ []

parse_args-words_example :
    (parse_args number 8 (words settings ++ []) ≡ parsed (apply number settings (defaults 8)))
    × (parse_args number 8 (words settings ++ "--help" ∷ "-p" ∷ []) ≡ help)
parse_args-words_example = parse_args-words number 8 settings ("-p" ∷ []) true

abbrev date : ℕ → String
date ms = "2026-01-01 00:00:00"

abbrev entries : List Entry
entries =
    record { level = debug; now = 5; thread = "1"; message = "hidden" }
    ∷ record { level = error; now = 6; thread = "1"; message = "failed" }
    ∷ record { level = warn; now = 7; thread = "2"; message = "slow" }
    ∷ []

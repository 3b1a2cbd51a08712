-- ===== src/AsyncNet/Server/Closing.antt =====
-- What handlers can change while 01_AsyncNet_Server/src/Server.cpp stops.
use object_oriented_programm.Prelude.{
  ℕ, suc, ◌≡◌, refl, ◌≤◌, Bool, true, false, ◌||◌, Option, none, some, List, [], ◌∷◌, ltb, ◌==◌,
  if◌then◌else◌, arith,
}
use Prim.Native.String.{String}
use object_oriented_programm.AsyncNet.SessionManager.{contains, add_session}
use object_oriented_programm.AsyncNet.SessionManager.Members.{
  Unique, contains-insert_member, insert_member-Unique,
}
use object_oriented_programm.AsyncNet.Session.{Event}
use object_oriented_programm.AsyncNet.Session.Membership.{handle-Steps}
use object_oriented_programm.AsyncNet.Server.{
  Server, ServerEvent, accept_ends, session_has, welcome, on_accept, session_step, dispatch, step,
  run, finish_handlers,
}

-- A server that no longer runs, where `s` did when `n` was the next session: the accept that was
-- under way has brought at most that one, and else the manager holds only what `held` has.
pub record Closing (n : ℕ) (held : List ℕ) (s t : Server) : Type 0 where
  pub stopped : t.is_running ≡ false
  pub bound : t.next ≤ suc n
  pub waiting : t.accepting ≡ true → t.next ≡ n
  pub members :
      (i : ℕ) → contains i t.manager.sessions ≡ true → (contains i held || (n == i)) ≡ true
  pub unique : Unique s.manager.sessions → Unique t.manager.sessions
  pub same_workers : t.workers ≡ s.workers
  pub same_acceptor : t.acceptor_open ≡ s.acceptor_open
  pub same_context : t.context_stopped ≡ s.context_stopped

module _ (n : ℕ) (held : List ℕ) (s : Server) where
  session_step-Closing :
      (i : ℕ) (e : Event) (t : Server) → Closing n held s t → Closing n held s (session_step i e t)
  unfolding session_step
  session_step-Closing i e t c =
      let k = handle-Steps e (record (t.sessions i) { manager = t.manager }) in
      record {
        stopped = c.stopped;
        bound = c.bound;
        waiting = c.waiting;
        members = λ j h. ground (arith, k.members j, c.members j);
        unique = λ u. k.unique (c.unique u);
        same_workers = c.same_workers;
        same_acceptor = c.same_acceptor;
        same_context = c.same_context;
      }

  -- The accept that was under way has ended.
  ended-Closing :
      (t : Server) → Closing n held s t → Closing n held s (record t { accepting = false })
  ended-Closing t c = record {
    stopped = c.stopped;
    bound = c.bound;
    waiting = λ h. cc;
    members = c.members;
    unique = c.unique;
    same_workers = c.same_workers;
    same_acceptor = c.same_acceptor;
    same_context = c.same_context;
  }

  welcome-Closing :
      (endpoint : Option (String × String)) (t : Server)
      → t.next ≡ n
      → t.accepting ≡ false
      → Closing n held s t
      → Closing n held s (welcome endpoint t)
  unfolding welcome add_session
  welcome-Closing endpoint t at_n ended c = record {
    stopped = c.stopped;
    bound = omega (arith, at_n);
    waiting = λ h. cc;
    members =
        λ j h. ground (arith, contains-insert_member j t.next t.manager.sessions, c.members j);
    unique = λ u. insert_member-Unique t.next t.manager.sessions (c.unique u);
    same_workers = c.same_workers;
    same_acceptor = c.same_acceptor;
    same_context = c.same_context;
  }

  either :
      (b : Bool) (u v : Server)
      → (b ≡ true → Closing n held s u)
      → (b ≡ false → Closing n held s v)
      → Closing n held s (if b then u else v)
  either true u v here there = here refl
  either false u v here there = there refl

  on_accept-Closing :
      (result : Option (Option (String × String))) (t : Server)
      → t.next ≡ n
      → t.accepting ≡ false
      → Closing n held s t
      → Closing n held s (on_accept result t)
  unfolding on_accept
  on_accept-Closing none t at_n ended c = either t.is_running _ t (λ h. absurd cc) (λ h. c)
  on_accept-Closing (some endpoint) t at_n ended c =
      let w = welcome-Closing endpoint t at_n ended c in
      let stopped = w.stopped in
      either (welcome endpoint t).is_running _ (welcome endpoint t) (λ h. absurd cc) (λ h. w)

  dispatch-Closing :
      (e : ServerEvent) (t : Server) → Closing n held s t → Closing n held s (dispatch e t)
  unfolding dispatch
  dispatch-Closing (accept_ends result) t c =
      either t.accepting _ t
        (λ h.
          on_accept-Closing result (record t { accepting = false }) (c.waiting h) refl
            (ended-Closing t c))
        (λ h. c)
  dispatch-Closing (session_has i e) t c =
      either (ltb i t.next) _ t (λ h. session_step-Closing i e t c) (λ h. c)

  pub run-Closing :
      (es : List ServerEvent) (t : Server) → Closing n held s t → Closing n held s (run es t)
  unfolding run step
  run-Closing [] t c = c
  run-Closing (e ∷ es) t c =
      run-Closing es (step e t)
        (either t.context_stopped t (dispatch e t) (λ h. c) (λ h. dispatch-Closing e t c))

  pub finish_handlers-Closing :
      (es : List ServerEvent) (t : Server)
      → Closing n held s t
      → Closing n held s (finish_handlers es t)
  unfolding finish_handlers
  finish_handlers-Closing [] t c = c
  finish_handlers-Closing (e ∷ es) t c =
      finish_handlers-Closing es (dispatch e t) (dispatch-Closing e t c)

-- ===== src/AsyncNet/Server/Registry.antt =====
-- While 01_AsyncNet_Server/src/Server.cpp runs: which sessions its manager holds, and that it listens.
use object_oriented_programm.Prelude.{
  ℕ, ◌≡◌, refl, ◌<◌, Bool, true, false, not, ◌&&◌, Option, none, some, List, [], ◌∷◌, ltb, ◌==◌,
  if◌then◌else◌, arith, Bool-cases, inl, inr, ==_iff, subst,
}
use Prim.Native.String.{String}
use object_oriented_programm.AsyncNet.SessionManager.{contains, add_session}
use object_oriented_programm.AsyncNet.SessionManager.Members.{
  Unique, contains-insert_member, insert_member-Unique,
}
use object_oriented_programm.AsyncNet.Session
use object_oriented_programm.AsyncNet.Session.{Session, Event, handle, new_session}
use object_oriented_programm.AsyncNet.Session.Membership.{handle-Steps}
use object_oriented_programm.AsyncNet.Server.{
  Server, ServerEvent, accept_ends, session_has, update, welcome, on_accept, session_step, dispatch,
  step, run,
}

-- The manager of a running server holds the sessions that were made and are not stopped, each once.
pub record Registry (s : Server) : Type 0 where
  pub names : (i : ℕ) → (s.sessions i).self ≡ i
  pub members :
      (i : ℕ) → contains i s.manager.sessions ≡ (ltb i s.next && not (s.sessions i).is_stopped)
  pub unique : Unique s.manager.sessions
  pub running : s.is_running ≡ true

session_step-Registry :
    (i : ℕ) (e : Event) (s : Server) → i < s.next → Registry s → Registry (session_step i e s)
unfolding session_step update
session_step-Registry i e s old r =
    let s0 = record (s.sessions i) { manager = s.manager } in
    let v = handle e s0 in
    let k = handle-Steps e s0 in
    let here : contains i v.manager.sessions ≡ (ltb i s.next && not v.is_stopped) =
      rw (k.members i) (ground (arith, r.names i, r.members i, k.stays_stopped)) in
    record {
      names = λ j. ground (arith, r.names i, r.names j, k.self_same, ==_iff i j);
      members = λ j. elim (Bool-cases (i == j)) [
        | inl h ↦
            let m = (==_iff i j).0 h in
            rw h (
              subst (λ l. contains l v.manager.sessions ≡ (ltb l s.next && not v.is_stopped)) m
                here)
        | inr h ↦ rw (h, k.members j) (ground (arith, r.names i, r.members j))
      ];
      unique = k.unique r.unique;
      running = r.running;
    }

welcome-Registry :
    (endpoint : Option (String × String)) (s : Server) → Registry s → Registry (welcome endpoint s)
unfolding welcome update add_session Session.start new_session
welcome-Registry endpoint s r = record {
  names = λ j. ground (arith, r.names j);
  members = λ j. ground (arith, contains-insert_member j s.next s.manager.sessions, r.members j);
  unique = insert_member-Unique s.next s.manager.sessions r.unique;
  running = r.running;
}

-- The flag of the accept does not matter to the sessions.
accepting-Registry :
    (flag : Bool) (s : Server) → Registry s → Registry (record s { accepting = flag })
accepting-Registry flag s r = record {
  names = r.names;
  members = r.members;
  unique = r.unique;
  running = r.running;
}

-- And it waits for the next client.
abbrev pub Listens : Server → Type 0
Listens s = Registry s × (s.accepting ≡ true)

on_accept-Listens :
    (result : Option (Option (String × String))) (s : Server)
    → Registry s
    → Listens (on_accept result s)
unfolding on_accept
on_accept-Listens none s r = subst Listens (rw (r.running) refl) (accepting-Registry true s r, refl)
on_accept-Listens (some endpoint) s r =
    let w = welcome-Registry endpoint s r in
    subst Listens (rw (w.running) refl) (accepting-Registry true (welcome endpoint s) w, refl)

either :
    (b : Bool) (s t : Server) → (b ≡ true → Listens s) → Listens t → Listens (if b then s else t)
either true s t h l = h refl
either false s t h l = l

dispatch-Listens : (e : ServerEvent) (s : Server) → Listens s → Listens (dispatch e s)
unfolding dispatch
dispatch-Listens (accept_ends result) s (r, l) =
    either s.accepting _ s
      (λ h.
        on_accept-Listens result (record s { accepting = false }) (accepting-Registry false s r))
      (r, l)
dispatch-Listens (session_has i e) s (r, l) =
    either (ltb i s.next) _ s
      (λ h. (session_step-Registry i e s (ground arith) r, unfold session_step in l)) (r, l)

step-Listens : (e : ServerEvent) (s : Server) → Listens s → Listens (step e s)
unfolding step
step-Listens e s l = either s.context_stopped s (dispatch e s) (λ h. l) (dispatch-Listens e s l)

-- If a server runs and waits for the next client, and its manager holds just the sessions that were
-- made and are not stopped, each once, then all of this holds again after any events of accepts,
-- failed or not, and of sessions.
pub run-Listens : (es : List ServerEvent) (s : Server) → Listens s → Listens (run es s)
unfolding run
run-Listens [] s r = r
run-Listens (e ∷ es) s r = run-Listens es (step e s) (step-Listens e s r)

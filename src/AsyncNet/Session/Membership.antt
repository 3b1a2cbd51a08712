-- ===== src/AsyncNet/Session/Membership.antt =====
-- What a step of a session does to the set of the manager: it leaves it when it is stopped.
use object_oriented_programm.Prelude.{
  ℕ, ◌≡◌, refl, Bool, true, false, not, ◌&&◌, List, [], ◌∷◌, ◌==◌, arith, Bool-cases, inl, inr, ◌∙◌,
}
use object_oriented_programm.AsyncNet.SessionManager.{
  contains, erase_member, remove_session, increment_processed_messages,
}
use object_oriented_programm.AsyncNet.SessionManager.Members.{
  Unique, contains-erase_member, erase_member-Unique,
}
use object_oriented_programm.AsyncNet.Session.{
  Session, Posted, stopping, sending, Event, handler_runs, read_ends, write_ends, send_called,
  stop_called, is_clear, pop_front, on_stop, on_send, on_write, on_posted, run_handler, end_write,
  handle, send, stop, counted,
}
use object_oriented_programm.AsyncNet.Session.ReadEnds.{end_read-keeps}

-- Whether the session is stopped from `s` to `v`.
abbrev pub leaves : Session → Session → Bool
leaves s v = v.is_stopped && not s.is_stopped

pub record Steps (s v : Session) : Type 0 where
  pub self_same : v.self ≡ s.self
  pub stays_stopped : s.is_stopped ≡ true → v.is_stopped ≡ true
  pub members :
      (i : ℕ)
      → contains i v.manager.sessions
        ≡ (contains i s.manager.sessions && not ((s.self == i) && leaves s v))
  pub unique : Unique s.manager.sessions → Unique v.manager.sessions

abbrev Same : Session → Session → Type 0
Same s v =
    (v.self ≡ s.self) × (v.is_stopped ≡ s.is_stopped) × (v.manager.sessions ≡ s.manager.sessions)

Same-Steps : (s v : Session) → Same s v → Steps s v
Same-Steps s v (e, f, g) = record {
  self_same = e;
  stays_stopped = λ h. f ∙ h;
  members = λ i. rw (f, g) (ground arith);
  unique = λ u. rw g u;
}

stopped-Steps :
    (s v : Session)
    → s.is_stopped ≡ false
    → v.self ≡ s.self
    → v.is_stopped ≡ true
    → v.manager.sessions ≡ erase_member s.self s.manager.sessions
    → Steps s v
stopped-Steps s v e f g m = record {
  self_same = f;
  stays_stopped = λ h. g;
  members = λ i. rw (m, e, g) (ground (arith, contains-erase_member i s.self s.manager.sessions));
  unique = λ u. rw m (erase_member-Unique s.self s.manager.sessions u);
}

on_stop-Steps : (s : Session) → Steps s (on_stop s)
unfolding on_stop remove_session
on_stop-Steps s = elim (Bool-cases s.is_stopped) [
  | inl e ↦ rw e (Same-Steps _ _ (refl, refl, refl))
  | inr e ↦ stopped-Steps s (on_stop s) e (rw e refl) (rw e refl) (rw e refl)
]

on_send-Same : (bytes : List ℕ) (s : Session) → Same s (on_send bytes s)
unfolding on_send
on_send-Same bytes s = elim (Bool-cases s.is_stopped) [
  | inl e ↦ rw e (refl, refl, refl)
  | inr e ↦ elim (Bool-cases (is_clear s.write_queue)) [
    | inl f ↦ rw (e, f) (refl, refl, refl)
    | inr f ↦ rw (e, f) (refl, refl, refl)
  ]
]

on_write-Same : (well : Bool) (s : Session) → Same s (on_write well s)
unfolding on_write stop
on_write-Same false s = (refl, refl, refl)
on_write-Same true s = elim (Bool-cases (is_clear (pop_front s.write_queue))) [
  | inl e ↦ rw e (refl, refl, refl)
  | inr e ↦ rw e (refl, refl, refl)
]

end_write-Same : (f : List (List ℕ)) (well : Bool) (s : Session) → Same s (end_write f well s)
unfolding end_write
end_write-Same [] well s = (refl, refl, refl)
end_write-Same (bytes ∷ others) well s = on_write-Same well _

forget_posted :
    (s : Session) (ps : List Posted) {v : Session} → Steps (record s { posted = ps }) v → Steps s v
forget_posted s ps k = record {
  self_same = k.self_same;
  stays_stopped = k.stays_stopped;
  members = k.members;
  unique = k.unique;
}

counted-Same : (s t : Session) → Same s t → Same s (counted t)
unfolding increment_processed_messages
counted-Same s t same = same

run_handler-Steps : (ps : List Posted) (s : Session) → Steps s (run_handler ps s)
unfolding run_handler on_posted
run_handler-Steps [] s = Same-Steps s s (refl, refl, refl)
run_handler-Steps (stopping ∷ ps) s = forget_posted s ps (on_stop-Steps (record s { posted = ps }))
run_handler-Steps (sending bytes ∷ ps) s =
    Same-Steps s _ (on_send-Same bytes (record s { posted = ps }))

-- On every event of a session: its name stays, a stopped session stays stopped, the manager's set
-- afterwards is that of before without the session if this event stopped it and unchanged if not,
-- and a set without doubles stays so.
pub handle-Steps : (e : Event) (s : Session) → Steps s (handle e s)
unfolding handle
handle-Steps handler_runs s = run_handler-Steps s.posted s
handle-Steps (read_ends result) s = Same-Steps s _ (
    end_read-keeps (Same s) (λ p t same. same) (λ r t same. same) (λ t same. counted-Same s t same)
      s.reading result s (refl, refl, refl))
handle-Steps (write_ends well) s = Same-Steps s _ (end_write-Same s.in_flight well s)
handle-Steps (send_called packet) s = unfold send in Same-Steps s _ (refl, refl, refl)
handle-Steps stop_called s = unfold stop in Same-Steps s _ (refl, refl, refl)

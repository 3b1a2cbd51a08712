-- ===== src/AsyncNet/Server/Shutdown.antt =====
-- stop of 01_AsyncNet_Server/src/Server.cpp, from a thread of the pool and from another.
use object_oriented_programm.Prelude.{
  ℕ, zero, suc, ◌+◌, ◌≡◌, refl, ◌≤◌, ◌<◌, Bool, true, false, none, some, List, [], ◌∷◌, ◌==◌,
  if◌then◌else◌, arith, ok, threw, ap, Bool-cases, inl, inr, ◌∙◌, subst, ==_iff, lookup,
}
use object_oriented_programm.AsyncNet.SessionManager.{contains, clear_sessions}
use object_oriented_programm.AsyncNet.SessionManager.Members.{Unique}
use object_oriented_programm.AsyncNet.Session
use object_oriented_programm.AsyncNet.Session.{Session}
use object_oriented_programm.AsyncNet.Server.{
  Server, Meanwhile, stop_members, stop_all, update, run, join_workers, finish_stop, join_all, shut,
  stop, on_signal,
}
use object_oriented_programm.AsyncNet.Server.Closing.{Closing, run-Closing, finish_handlers-Closing}
use object_oriented_programm.AsyncNet.Server.Stages.{threads_of}

join_outside : (workers : List (ℕ × Bool)) → (join_workers none workers).0 ≡ true
unfolding join_workers
join_outside [] = refl
join_outside ((i, joinable) ∷ workers) = ground (arith, join_outside workers)

-- The workers are those of `start`, and `caller` is one of them.
join_self :
    (caller n i : ℕ)
    → i < caller
    → caller ≤ i + n
    → ((join_workers (some caller) (threads_of n i)).0 ≡ false)
      × (lookup caller (join_workers (some caller) (threads_of n i)).1 ≡ some true)
unfolding join_workers
join_self caller zero i lo hi = absurd (omega arith)
join_self caller (suc n) i lo hi =
    let here : (suc i == suc i) ≡ true = ground arith in
    elim (Bool-cases (caller == suc i)) [
      | inl e ↦ rw e (refl, ground arith)
      | inr e ↦
          let (stuck, kept) = join_self caller n (suc i) (ground arith) (omega arith) in
          let other : (suc i == caller) ≡ false = ground arith in rw e (stuck, rw other kept)
    ]

finish_joined :
    (r : Bool × List (ℕ × Bool)) (s : Server)
    → r.0 ≡ true
    → finish_stop r s ≡ ok tt (record s { workers = [] })
unfolding finish_stop
finish_joined (true, workers) s h = refl
finish_joined (false, workers) s h = cc

finish_deadlock :
    (r : Bool × List (ℕ × Bool)) (s : Server)
    → r.0 ≡ false
    → finish_stop r s ≡ threw (record s { workers = r.1 })
unfolding finish_stop
finish_deadlock (true, workers) s h = cc
finish_deadlock (false, workers) s h = refl

stop_members-at :
    (members : List ℕ) (sessions : ℕ → Session) (i : ℕ)
    → Unique members
    → stop_members members sessions i
      ≡ (if contains i members then Session.stop (sessions i) else sessions i)
unfolding stop_members update
stop_members-at [] sessions i u = refl
stop_members-at (m ∷ members) sessions i (fresh, u) =
    let rest = stop_members-at members (update sessions m (Session.stop (sessions m))) i u in
    elim (Bool-cases (m == i)) [
      | inl e ↦
          let same : m ≡ i = (==_iff m i).0 e in
          let out : contains i members ≡ false =
            subst (λ k. contains k members ≡ false) same fresh in
          let here : Session.stop (sessions m) ≡ Session.stop (sessions i) =
            ap (λ k. Session.stop (sessions k)) same in
          rest ∙ rw (out, e) here
      | inr e ↦ rest ∙ rw e refl
    ]

-- stopAll ends the first phase of stop, and what follows can hold one session at most.
stop_all-Closing :
    (n : ℕ) (held : List ℕ) (s t : Server) → Closing n held s t → Closing n [] s (stop_all t)
unfolding stop_all clear_sessions
stop_all-Closing n held s t c = record {
  stopped = c.stopped;
  bound = c.bound;
  waiting = c.waiting;
  members = λ i h. cc;
  unique = λ u. tt;
  same_workers = c.same_workers;
  same_acceptor = c.same_acceptor;
  same_context = c.same_context;
}

-- The server in front of stopAll.
abbrev pub flagged : Meanwhile → Server → Server
flagged m s = run m.before_stop_all (record s { is_running = false })

flagged-Closing : (m : Meanwhile) (s : Server) → Closing s.next s.manager.sessions s (flagged m s)
flagged-Closing m s =
    run-Closing s.next s.manager.sessions s m.before_stop_all (record s { is_running = false })
      (record {
        stopped = refl;
        bound = omega arith;
        waiting = λ h. refl;
        members = λ i h. rw h refl;
        unique = λ u. u;
        same_workers = refl;
        same_acceptor = refl;
        same_context = refl;
      })

shut-Closing :
    (m : Meanwhile) (s : Server)
    → Closing s.next [] (record s { acceptor_open = false; context_stopped = true }) (shut m s)
unfolding shut
shut-Closing m s =
    let a = stop_all (flagged m s) in
    let ca = stop_all-Closing s.next s.manager.sessions s (flagged m s) (flagged-Closing m s) in
    let cb = run-Closing s.next [] s m.before_close a ca in
    let b = record (run m.before_close a) { acceptor_open = false } in
    let closed = record s { acceptor_open = false } in
    let closing : Closing s.next [] closed b = record {
      stopped = cb.stopped;
      bound = cb.bound;
      waiting = cb.waiting;
      members = cb.members;
      unique = cb.unique;
      same_workers = cb.same_workers;
      same_acceptor = refl;
      same_context = cb.same_context;
    } in
    let halting = run-Closing s.next [] closed m.before_context_stop b closing in
    finish_handlers-Closing s.next [] (record s { acceptor_open = false; context_stopped = true })
      m.before_joins (record (run m.before_context_stop b) { context_stopped = true })
      (record {
        stopped = halting.stopped;
        bound = halting.bound;
        waiting = halting.waiting;
        members = halting.members;
        unique = halting.unique;
        same_workers = halting.same_workers;
        same_acceptor = halting.same_acceptor;
        same_context = refl;
      })

-- Whatever events the workers handle between its steps: on a running server whose manager holds no
-- session twice, stop, called by a thread that is no worker, returns; the server no longer runs, it
-- has no worker threads, its acceptor is closed and its context stopped; the manager holds no
-- session but possibly the one of the accept that was under way; and stopAll has posted stop to
-- each session that the manager held when it was called.
pub stop-outside :
    (m : Meanwhile) (s : Server)
    → s.is_running ≡ true
    → Unique s.manager.sessions
    → (t : Server) × (stop m none s ≡ ok tt t)
      × (t.is_running ≡ false)
      × (t.workers ≡ [])
      × (t.acceptor_open ≡ false)
      × (t.context_stopped ≡ true)
      × ((i : ℕ) → contains i t.manager.sessions ≡ true → i ≡ s.next)
      × ((i : ℕ)
          → contains i (flagged m s).manager.sessions ≡ true
          → (stop_all (flagged m s)).sessions i ≡ Session.stop ((flagged m s).sessions i))
unfolding stop join_all stop_all
stop-outside m s running u =
    let c = shut-Closing m s in
    let f = flagged m s in
    let fc = flagged-Closing m s in
    (
      record (shut m s) { workers = [] },
      rw
          (
            running,
            finish_joined (join_workers none (shut m s).workers) (shut m s)
                (join_outside (shut m s).workers),
          )
          refl,
      c.stopped,
      refl,
      c.same_acceptor,
      c.same_context,
      λ i h. ground (arith, c.members i h),
      λ i h. stop_members-at f.manager.sessions f.sessions i (fc.unique u) ∙ rw h refl,
    )

-- On a running server with the workers of start, and whatever events the other workers handle
-- meanwhile, the handler of a signal, run by one of them without an error, throws, for the worker
-- would join itself; the server is left as one that no longer runs, its context is stopped, the
-- worker is still joinable, and a later stop from outside returns at once and changes nothing.
pub on_signal-throws :
    (m : Meanwhile) (s : Server) (worker : ℕ)
    → s.is_running ≡ true
    → s.workers ≡ threads_of s.thread_pool_size 0
    → 0 < worker
    → worker ≤ s.thread_pool_size
    → (t : Server) × (on_signal m worker false s ≡ threw t)
      × (t.is_running ≡ false)
      × (t.context_stopped ≡ true)
      × (lookup worker t.workers ≡ some true)
      × ((later : Meanwhile) → stop later none t ≡ ok tt t)
unfolding on_signal stop join_all
on_signal-throws m s worker running fresh lo hi =
    let caller = some worker in
    let c = shut-Closing m s in
    let at = c.same_workers ∙ fresh in
    let (deadlock, kept) = join_self worker s.thread_pool_size 0 lo (omega arith) in
    let stuck : (join_workers caller (shut m s).workers).0 ≡ false = rw at deadlock in
    (
      record (shut m s) { workers = (join_workers caller (shut m s).workers).1 },
      rw (running, finish_deadlock (join_workers caller (shut m s).workers) (shut m s) stuck) refl,
      c.stopped,
      c.same_context,
      rw at kept,
      λ later. rw (c.stopped) refl,
    )

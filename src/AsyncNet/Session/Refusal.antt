-- ===== src/AsyncNet/Session/Refusal.antt =====
-- What a session of 01_AsyncNet_Server/src/Session.cpp does with a header that it refuses.
use Prim.Native.String.{String}
use object_oriented_programm.Prelude.{
  ℕ, ◌≡◌, refl, Bool, true, false, not, ◌||◌, some, List, [], ◌∷◌, ltb, ◌==◌, length, arith, ◌∙◌,
  Bool-cases, inl, inr, sym, subst,
}
use object_oriented_programm.AsyncNet.Protocol.{
  magic_header, header_size, max_payload_size, read_header, deserialize_header,
}
use object_oriented_programm.AsyncNet.SessionManager.{SessionManager, remove_session}
use object_oriented_programm.AsyncNet.Session.{
  Session, Posted, stopping, sending, Event, no_read, read_ends, handler_runs, write_ends,
  send_called, stop_called, handle, run, end_read, on_header, on_fields, run_handler, on_posted,
  on_send, on_stop, send, stop, end_write,
}
use object_oriented_programm.AsyncNet.Session.Echo.{idle}

-- A stopped session that reads and writes nothing.
pub record Quiet (s : Session) : Type 0 where
  pub stopped : s.is_stopped ≡ true
  pub reads_nothing : s.reading ≡ no_read
  pub writes_nothing : s.in_flight ≡ []

-- What such a session keeps.
abbrev pub Unmoved : Session → Session → Type 0
Unmoved s t = Quiet t × (t.delivered ≡ s.delivered) × (t.manager ≡ s.manager)

posted-Unmoved : (s : Session) (ps : List Posted) → Quiet s → Unmoved s (record s { posted = ps })
posted-Unmoved s ps q = (
  record {
    stopped = q.stopped;
    reads_nothing = q.reads_nothing;
    writes_nothing = q.writes_nothing;
  },
  refl,
  refl,
)

run_handler-Unmoved : (ps : List Posted) (s : Session) → Quiet s → Unmoved s (run_handler ps s)
unfolding run_handler on_posted on_stop on_send
run_handler-Unmoved [] s q = (q, refl, refl)
run_handler-Unmoved (stopping ∷ ps) s q =
    subst (Unmoved s) (rw q.stopped refl) (posted-Unmoved s ps q)
run_handler-Unmoved (sending bytes ∷ ps) s q =
    subst (Unmoved s) (rw q.stopped refl) (posted-Unmoved s ps q)

handle-Unmoved : (e : Event) (s : Session) → Quiet s → Unmoved s (handle e s)
unfolding handle send stop
handle-Unmoved handler_runs s q = run_handler-Unmoved s.posted s q
handle-Unmoved (read_ends result) s q =
    subst (λ r. Unmoved s (end_read r result s)) (sym q.reads_nothing)
      (unfold end_read in (q, refl, refl))
handle-Unmoved (write_ends well) s q =
    subst (λ f. Unmoved s (end_write f well s)) (sym q.writes_nothing)
      (unfold end_write in (q, refl, refl))
handle-Unmoved (send_called packet) s q = posted-Unmoved s _ q
handle-Unmoved stop_called s q = posted-Unmoved s _ q

run-Unmoved : (es : List Event) (s : Session) → Quiet s → Unmoved s (run es s)
unfolding run
run-Unmoved [] s q = (q, refl, refl)
run-Unmoved (e ∷ es) s q =
    let (q', d, m) = handle-Unmoved e s q in
    let (q'', d', m') = run-Unmoved es (handle e s) q' in (q'', d' ∙ d, m' ∙ m)

-- Why a header is refused.
abbrev pub is_refused : List ℕ → Bool
is_refused bytes =
    not ((read_header bytes).magic == magic_header)
    || ltb max_payload_size (read_header bytes).length

module _ (bytes : List ℕ) (delivered : List (List ℕ)) (self : ℕ) (address : String)
    (m : SessionManager) where
  abbrev closed : Session
  closed = record (idle delivered self address m) {
    reading = no_read;
    is_stopped = true;
    manager = remove_session self m;
  }

  handle-refused :
      length bytes ≡ header_size
      → is_refused bytes ≡ true
      → handle handler_runs (handle (read_ends (some bytes)) (idle delivered self address m))
        ≡ closed
  unfolding handle end_read on_header on_fields deserialize_header stop run_handler on_posted
      on_stop
  handle-refused whole refused =
      let long : ltb (length bytes) header_size ≡ false = ground arith in
      elim (Bool-cases ((read_header bytes).magic == magic_header)) [
        | inl own ↦
            let big : ltb max_payload_size (read_header bytes).length ≡ true = rw own at refused in
            rw (long, own, big) refl
        | inr foreign ↦ rw (long, foreign) refl
      ]

  -- A session that waits for a header with nothing to write, and reads 8 bytes with a foreign magic
  -- number or a length above 65536, is stopped when the posted handler has run; whatever events
  -- follow, it is then stopped, has delivered nothing more, and has done nothing to the manager but
  -- leave it, so that no message is counted.
  pub run-refused :
      (es : List Event)
      → length bytes ≡ header_size
      → is_refused bytes ≡ true
      → let t = run (read_ends (some bytes) ∷ handler_runs ∷ es) (idle delivered self address m) in
        (t.is_stopped ≡ true) × (t.delivered ≡ delivered) × (t.manager ≡ remove_session self m)
  unfolding run
  run-refused es whole refused =
      let quiet : Quiet closed = record {
        stopped = refl;
        reads_nothing = refl;
        writes_nothing = refl;
      } in
      let (q, d, k) = run-Unmoved es closed quiet in
      subst
        (λ v.
          ((run es v).is_stopped ≡ true)
          × ((run es v).delivered ≡ delivered)
          × ((run es v).manager ≡ remove_session self m))
        (sym (handle-refused whole refused)) (q.stopped, d, k)

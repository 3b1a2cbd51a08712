-- ===== src/AsyncNet/Session/Order.antt =====
-- The order in which 01_AsyncNet_Server/src/Session.cpp writes what it is asked to send.
use object_oriented_programm.Prelude.{
  append-nil, append_assoc, ℕ, ◌≡◌, refl, Bool, true, false, Option, List, [], ◌∷◌, ◌++◌, sym, ap,
  ◌∙◌, ◌⊎◌, inl, inr, Bool-cases,
}
use object_oriented_programm.AsyncNet.Session.ReadEnds.{end_read-keeps}
use object_oriented_programm.AsyncNet.Session.{
  Session, Posted, stopping, sending, Event, handler_runs, read_ends, write_ends, send_called,
  stop_called, front, handle, run, on_posted, run_handler, end_read, end_write, send, stop,
  is_clear, pop_front, Reading, on_send, on_stop, on_write,
}

-- What a handler adds to the queue: nothing, once the session is stopped.
abbrev pub taken_by : List Posted → Bool → List (List ℕ)
taken_by (sending bytes ∷ rest) false = bytes ∷ []
taken_by handlers stopped = []

abbrev pub taken_at : Event → Session → List (List ℕ)
taken_at handler_runs s = taken_by s.posted s.is_stopped
taken_at (read_ends result) s = []
taken_at (write_ends well) s = []
taken_at (send_called packet) s = []
taken_at stop_called s = []

-- The buffers that the handlers take for sending, in the order in which they run.
unfoldable pub taken : List Event → Session → List (List ℕ)
taken [] s = []
taken (e ∷ es) s = taken_at e s ++ taken es (handle e s)

-- Nothing is being written, or just the front of the queue, by one async_write.
abbrev pub WritesFront : Session → Type 0
WritesFront s = (s.in_flight ≡ []) ⊎ (s.in_flight ≡ front s.write_queue)

abbrev pub all_bytes : Session → List (List ℕ)
all_bytes s = s.delivered ++ s.write_queue

abbrev Kept : Session → List (List ℕ) → Session → Type 0
Kept s new s' = (all_bytes s' ≡ all_bytes s ++ new) × WritesFront s'

clear_nil : (q : List (List ℕ)) → is_clear q ≡ true → q ≡ []
clear_nil [] h = refl
clear_nil (x ∷ q) h = cc

front-append :
    (q : List (List ℕ)) (bytes : List ℕ) → is_clear q ≡ false → front (q ++ bytes ∷ []) ≡ front q
front-append [] bytes h = cc
front-append (x ∷ q) bytes h = refl

front-cons :
    (q : List (List ℕ)) (bytes : List ℕ) (others : List (List ℕ))
    → bytes ∷ others ≡ front q
    → (bytes ∷ pop_front q ≡ q) × (others ≡ [])
front-cons [] bytes others h = cc
front-cons (x ∷ q) bytes others h = (cc, cc)

-- The queue was empty, and so nothing is being written.
clear-idle : (s : Session) → WritesFront s → is_clear s.write_queue ≡ true → s.in_flight ≡ []
clear-idle s (inl idle) h = idle
clear-idle s (inr writing) h = writing ∙ ap front (clear_nil s.write_queue h)

-- What a read does not touch.
abbrev SameWrites : Session → Session → Type 0
SameWrites s s' =
    (s'.delivered ≡ s.delivered) × (s'.write_queue ≡ s.write_queue) × (s'.in_flight ≡ s.in_flight)

end_read-SameWrites :
    (reading : Reading) (result : Option (List ℕ)) (s : Session)
    → SameWrites s (end_read reading result s)
end_read-SameWrites reading result s =
    end_read-keeps (SameWrites s) (λ p t same. same) (λ r t same. same) (λ t same. same) reading
      result s (refl, refl, refl)

SameWrites-Kept : (s s' : Session) → WritesFront s → SameWrites s s' → Kept s [] s'
SameWrites-Kept s s' w (d, q, f) = (rw (d, q) (sym (append-nil (all_bytes s))), rw (f, q) w)

on_send-Kept :
    (bytes : List ℕ) (ps : List Posted) (s : Session)
    → WritesFront s
    → Kept s (taken_by (sending bytes ∷ ps) s.is_stopped) (on_send bytes s)
unfolding on_send
on_send-Kept bytes ps s w =
    let longer = sym (append_assoc s.delivered s.write_queue (bytes ∷ [])) in
    elim (Bool-cases s.is_stopped) [
      | inl stopped ↦ rw stopped (sym (append-nil (all_bytes s)), w)
      | inr active ↦ elim (Bool-cases (is_clear s.write_queue)) [
        | inl clear ↦ rw (active, clear, clear-idle s w clear) (longer, inr refl)
        | inr busy ↦
            rw (active, busy)
              (
                longer,
                elim w [
                  | inl idle ↦ inl idle
                  | inr writing ↦ inr (writing ∙ sym (front-append s.write_queue bytes busy))
                ],
              )
      ]
    ]

handler-Kept :
    (ps : List Posted) (s : Session)
    → WritesFront s
    → Kept s (taken_by ps s.is_stopped) (run_handler ps s)
unfolding run_handler on_posted on_stop
handler-Kept [] s w = (sym (append-nil (all_bytes s)), w)
handler-Kept (stopping ∷ ps) s w = elim (Bool-cases s.is_stopped) [
  | inl e ↦ rw e (sym (append-nil (all_bytes s)), w)
  | inr e ↦ rw e (sym (append-nil (all_bytes s)), w)
]
handler-Kept (sending bytes ∷ ps) s w = on_send-Kept bytes ps (record s { posted = ps }) w

write-Kept :
    (f : List (List ℕ)) (well : Bool) (s : Session)
    → s.in_flight ≡ f
    → WritesFront s
    → Kept s [] (end_write f well s)
unfolding end_write on_write stop
write-Kept [] well s e w = (sym (append-nil (all_bytes s)), w)
write-Kept (bytes ∷ others) well s e (inl idle) = cc
write-Kept (bytes ∷ others) false s e (inr writing) =
    let (_, alone) = front-cons s.write_queue bytes others (sym e ∙ writing) in
    (sym (append-nil (all_bytes s)), inl alone)
write-Kept (bytes ∷ others) true s e (inr writing) =
    let (whole, alone) = front-cons s.write_queue bytes others (sym e ∙ writing) in
    let same =
      append_assoc s.delivered (bytes ∷ []) (pop_front s.write_queue)
      ∙ ap (◌++◌ s.delivered) whole
      ∙ sym (append-nil (all_bytes s)) in
    elim (Bool-cases (is_clear (pop_front s.write_queue))) [
      | inl clear ↦ rw clear (same, inl alone)
      | inr more ↦ rw (more, alone) (same, inr refl)
    ]

step : (e : Event) (s : Session) → WritesFront s → Kept s (taken_at e s) (handle e s)
unfolding handle
step handler_runs s w = handler-Kept s.posted s w
step (read_ends result) s w =
    SameWrites-Kept s (end_read s.reading result s) w (end_read-SameWrites s.reading result s)
step (write_ends well) s w = write-Kept s.in_flight well s refl w
step (send_called packet) s w = unfold send in (sym (append-nil (all_bytes s)), w)
step stop_called s w = unfold stop in (sym (append-nil (all_bytes s)), w)

-- From a session with at most one write in flight, of the front of its queue, after any events: the
-- buffers delivered to the socket followed by those in the queue are those of before followed by
-- the buffers that the handlers of send took, in the order in which the handlers ran, so that none
-- is lost or overtaken; and again at most one write is in flight, of the front of the queue, so
-- that none is written twice and no two writes overlap.
pub run-all_bytes :
    (es : List Event) (s : Session)
    → WritesFront s
    → ((run es s).delivered ++ (run es s).write_queue
        ≡ (s.delivered ++ s.write_queue) ++ taken es s)
      × WritesFront (run es s)
unfolding run taken
run-all_bytes [] s w = (sym (append-nil (all_bytes s)), w)
run-all_bytes (e ∷ es) s w =
    let (kept, w') = step e s w in
    let (later, w'') = run-all_bytes es (handle e s) w' in
    (
      later
          ∙ ap (λ xs. xs ++ taken es (handle e s)) kept
          ∙ append_assoc (all_bytes s) (taken_at e s) (taken es (handle e s)),
      w'',
    )

-- ===== src/Lob/LockFreeQueue/Alone.antt =====
-- Calls of emplace and pop of 02_LOB_Engine/include/LockFreeQueue.hpp that run while the other
-- thread does not move.
use object_oriented_programm.Prelude.{
  ℕ, ◌+◌, ◌%◌, ◌^◌, ◌≡◌, refl, ◌<◌, Bool, true, false, Option, none, some, List, [], ◌∷◌, ◌++◌, leb,
  ◌==◌, length, arith, ap, sym, subst, ◌∙◌, ◌⊎◌, inl, inr, le-cases, Bool-cases, append-nil,
}
use Prim.Native.Nat.{◌∣◌}
use object_oriented_programm.Lob.LockFreeQueue.{
  Queue, Producer, resting, Consumer, waiting, System, start, produce, consume, run, size_sub,
}
use object_oriented_programm.Lob.LockFreeQueue.Fifo.{
  Inv, run-Inv, start-Inv, lengths, room, same_ends, first_at,
}

module _ {A : Type 0} (c : ℕ) (divides : c ∣ 2 ^ 64) (small : c < 2 ^ 64) where
  no_items : (xs : List A) → length xs ≡ 0 → xs ≡ []
  no_items [] h = refl
  no_items (x ∷ xs) h = absurd (omega arith)

  -- What a call of emplace with `x` comes to from `s`: room and a new item, or no room.
  abbrev pub Emplaces : A → System A → Type 0
  Emplaces x s =
      let t = run c (some x ∷ some x ∷ some x ∷ some x ∷ []) s in
      let u = run c (some x ∷ some x ∷ []) s in
      ((length s.sent < length s.received + c)
        × (t.producer ≡ resting (some true))
        × (t.sent ≡ s.sent ++ x ∷ []))
      ⊎ ((length s.sent ≡ length s.received + c)
          × (u.producer ≡ resting (some false))
          × (u.sent ≡ s.sent))

  emplace-Inv :
      (x : A) (q : Queue A) (k : Consumer A) (result : Option Bool) (sent received : List A)
      → let s : System A = record {
        queue = q;
        producer = resting result;
        consumer = k;
        sent = sent;
        received = received;
      } in
        Inv c divides small s → Emplaces x s
  unfolding run produce
  emplace-Inv x q k result sent received v =
      let seen = room c divides small q sent received v.pending v.ring in
      let l = lengths c divides small q sent received v.pending v.ring in
      elim (le-cases c (length v.pending)) [
        | inl full ↦
            let test : leb c (size_sub q.tail q.head) ≡ true = ground (arith, seen) in
            inr (omega (arith, l, v.ring.fits), rw test refl, rw test refl)
        | inr free ↦
            let test : leb c (size_sub q.tail q.head) ≡ false = ground (arith, seen) in
            inl (omega (arith, l), rw test refl, rw test refl)
      ]

  -- What a call of pop comes to from `s`: the oldest item, or nothing in an empty queue.
  abbrev pub Pops : System A → Type 0
  Pops s =
      let t = run c (none ∷ none ∷ none ∷ none ∷ []) s in
      let u = run c (none ∷ none ∷ []) s in
      ((x : A) × (rest : List A) × (s.sent ≡ s.received ++ x ∷ rest)
        × (t.consumer ≡ waiting (some (some x)))
        × (t.received ≡ s.received ++ x ∷ []))
      ⊎ ((s.sent ≡ s.received) × (u.consumer ≡ waiting (some none)) × (u.received ≡ s.received))

  pop-Inv :
      (q : Queue A) (p : Producer A) (result : Option (Option A)) (sent received : List A)
      → let s : System A = record {
        queue = q;
        producer = p;
        consumer = waiting result;
        sent = sent;
        received = received;
      } in
        Inv c divides small s → Pops s
  unfolding run consume
  pop-Inv q p result sent received v =
      let l = lengths c divides small q sent received v.pending v.ring in
      elim (Bool-cases (q.head == q.tail)) [
        | inl none_left ↦
            let count : length v.pending ≡ 0 =
              ground (arith, v.ring.head_eq, v.ring.tail_eq, l, v.ring.fits) in
            let none_pending =
              v.ring.sent_eq
              ∙ ap (λ xs. received ++ xs) (no_items v.pending count)
              ∙ append-nil received in
            inr (none_pending, rw none_left refl, rw none_left refl)
        | inr some_left ↦
            let (rest, e) =
              first_at c divides small q sent received v.pending v.ring
                (same_ends c divides small q sent received v.pending v.ring some_left) in
            inl (
              q.buffer (q.head % c),
              rest,
              v.ring.sent_eq ∙ ap (λ xs. received ++ xs) e,
              rw some_left refl,
              rw some_left refl,
            )
      ]

  -- For a capacity below 2 ^ 64 that divides it, in a state that a schedule reaches with no call
  -- under way: a call of emplace that runs alone ends, after four steps with its item published if
  -- fewer items than the capacity wait, and after two with a refusal if as many wait; a call of pop
  -- that runs alone ends, after four steps with the oldest waiting item, and after two with none if
  -- no item waits.
  pub calls-end :
      (blank x : A) (schedule : List (Option A)) (made : Option Bool) (got : Option (Option A))
      → let s = run c schedule (start blank) in
        s.producer ≡ resting made → s.consumer ≡ waiting got → Emplaces x s × Pops s
  calls-end blank x schedule made got p k =
      let s = run c schedule (start blank) in
      let v = run-Inv c divides small schedule (start blank) (start-Inv c divides small blank) in
      let with_producer : s ≡ record s { producer = resting made } =
        ap (λ y. record s { producer = y }) p in
      let with_consumer : s ≡ record s { consumer = waiting got } =
        ap (λ y. record s { consumer = y }) k in
      (
        subst (Emplaces x) (sym with_producer) (
            emplace-Inv x s.queue s.consumer made s.sent s.received
              (subst (Inv c divides small) with_producer v)),
        subst Pops (sym with_consumer) (
            pop-Inv s.queue s.producer got s.sent s.received
              (subst (Inv c divides small) with_consumer v)),
      )

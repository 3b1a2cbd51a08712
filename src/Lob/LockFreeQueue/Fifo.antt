-- ===== src/Lob/LockFreeQueue/Fifo.antt =====
-- Under every schedule of the two threads, what pop gives out is what emplace put in, in order.
use object_oriented_programm.Prelude.{
  append_assoc, ℕ, ◌+◌, ◌%◌, ◌^◌, ◌≡◌, refl, ◌≤◌, ◌<◌, false, Option, none, some, List, [], ◌∷◌,
  ◌++◌, leb, ◌==◌, arith, length, length-append, sym, ◌∙◌, ap, subst, Bool-cases, inl, inr,
}
use Prim.Native.Nat.{◌∣◌}
use native.Mathlib.Nat.{mod-mod_of_dvd}
use object_oriented_programm.Lob.LockFreeQueue.{
  Queue, Producer, resting, has_tail, has_room, written, Consumer, waiting, has_head, not_empty,
  moved, System, start, produce, consume, run, size_add, size_sub, size, write_slot,
}
use object_oriented_programm.Lob.LockFreeQueue.Slots.{
  Holds, Holds-write, Holds-snoc, write_self, slots_apart,
}

module _ {A : Type 0} (c : ℕ) (divides : c ∣ 2 ^ 64) (small : c < 2 ^ 64) where
  -- The shared members hold the items that are sent and not received.
  pub record Ring (q : Queue A) (sent received pending : List A) : Type 0 where
    pub sent_eq : sent ≡ received ++ pending
    pub head_eq : q.head ≡ length received % 2 ^ 64
    pub tail_eq : q.tail ≡ length sent % 2 ^ 64
    pub fits : length pending ≤ c
    pub holds : Holds c q.buffer (length received) pending

  -- What the locals of the producer say, and those of the consumer.
  abbrev pub ProducerAt : Queue A → List A → Producer A → Type 0
  ProducerAt q pending (resting result) = Unit {0}
  ProducerAt q pending (has_tail x tail) = tail ≡ q.tail
  ProducerAt q pending (has_room x tail) = (tail ≡ q.tail) × (length pending < c)
  ProducerAt q pending (written x tail) =
      (tail ≡ q.tail) × (length pending < c) × (q.buffer (tail % c) ≡ x)

  abbrev pub ConsumerAt : ℕ → List A → Consumer A → Type 0
  ConsumerAt h pending (waiting result) = Unit {0}
  ConsumerAt h pending (has_head head) = head ≡ h
  ConsumerAt h pending (not_empty head) = (head ≡ h) × (1 ≤ length pending)
  ConsumerAt h pending (moved head x) = (head ≡ h) × (rest : List A) × (pending ≡ x ∷ rest)

  pub record Inv (s : System A) : Type 0 where
    pub pending : List A
    pub ring : Ring s.queue s.sent s.received pending
    pub producer_at : ProducerAt s.queue pending s.producer
    pub consumer_at : ConsumerAt s.queue.head pending s.consumer

  module _ (q : Queue A) (sent received pending : List A) (r : Ring q sent received pending) where
    pub lengths : length sent ≡ length received + length pending
    lengths = ap (λ xs. length xs) r.sent_eq ∙ length-append received pending

    pub tail_slot : q.tail % c ≡ (length received + length pending) % c
    tail_slot =
        ap (λ t. t % c) r.tail_eq ∙ mod-mod_of_dvd c (length sent) divides ∙ ap (λ n. n % c) lengths

    pub head_slot : q.head % c ≡ length received % c
    head_slot = ap (λ t. t % c) r.head_eq ∙ mod-mod_of_dvd c (length received) divides

    -- The test for room sees how many items there are.
    pub room : size_sub q.tail q.head ≡ length pending
    room = omega (arith, r.tail_eq, r.head_eq, lengths, r.fits, small)

    pub same_ends : (q.head == q.tail) ≡ false → 1 ≤ length pending
    same_ends h = ground (arith, r.tail_eq, r.head_eq, lengths)

    write_Ring :
        (x : A)
        → length pending < c
        → Ring (record q { buffer = write_slot q.buffer (q.tail % c) x }) sent received pending
    write_Ring x n = record {
      sent_eq = r.sent_eq;
      head_eq = r.head_eq;
      tail_eq = r.tail_eq;
      fits = r.fits;
      holds = rw tail_slot (
          Holds-write c q.buffer x (length received) (length received + length pending) pending
            (omega arith) (omega (arith, n)) r.holds);
    }

    publish_Ring :
        (x : A)
        → length pending < c
        → q.buffer (q.tail % c) ≡ x
        → Ring (record q { tail = size_add q.tail 1 }) (sent ++ x ∷ []) received (pending ++ x ∷ [])
    publish_Ring x n e = record {
      sent_eq = ap (λ xs. xs ++ x ∷ []) r.sent_eq ∙ append_assoc received pending (x ∷ []);
      head_eq = r.head_eq;
      tail_eq = omega (arith, r.tail_eq, length-append sent (x ∷ []));
      fits = omega (arith, n, length-append pending (x ∷ []));
      holds =
          Holds-snoc c q.buffer (length received) pending x r.holds
            (subst (λ k. q.buffer k ≡ x) tail_slot e);
    }

  take_Ring :
      (q : Queue A) (sent received pending : List A) (x : A)
      → Ring q sent received (x ∷ pending)
      → Ring (record q { head = size_add q.head 1 }) sent (received ++ x ∷ []) pending
  take_Ring q sent received pending x r = record {
    sent_eq = r.sent_eq ∙ sym (append_assoc received (x ∷ []) pending);
    head_eq = omega (arith, r.head_eq, length-append received (x ∷ []));
    tail_eq = r.tail_eq;
    fits = omega (arith, r.fits);
    holds =
        subst (λ n. Holds c q.buffer n pending) (omega (arith, length-append received (x ∷ [])))
          (r.holds.1);
  }

  consumer-longer :
      (h : ℕ) (pending : List A) (x : A) (q : Consumer A)
      → ConsumerAt h pending q
      → ConsumerAt h (pending ++ x ∷ []) q
  consumer-longer h pending x (waiting result) a = tt
  consumer-longer h pending x (has_head head) a = a
  consumer-longer h pending x (not_empty head) (a, n) =
      (a, omega (arith, length-append pending (x ∷ []), n))
  consumer-longer h pending x (moved head y) (a, rest, f) =
      (a, rest ++ x ∷ [], ap (λ xs. xs ++ x ∷ []) f)

  producer-shorter :
      (q : Queue A) (h : ℕ) (x : A) (pending : List A) (p : Producer A)
      → ProducerAt q (x ∷ pending) p
      → ProducerAt (record q { head = h }) pending p
  producer-shorter q h x pending (resting result) a = tt
  producer-shorter q h x pending (has_tail y tail) a = a
  producer-shorter q h x pending (has_room y tail) (a, n) = (a, omega (arith, n))
  producer-shorter q h x pending (written y tail) (a, n, b) = (a, omega (arith, n), b)

  produce-Inv :
      (item : A) (p : Producer A) (s : System A) (v : Inv s)
      → ProducerAt s.queue v.pending p
      → Inv (produce c item p s)
  unfolding produce
  produce-Inv item (resting result) s v a = record {
    pending = v.pending;
    ring = v.ring;
    producer_at = refl;
    consumer_at = v.consumer_at;
  }
  produce-Inv item (has_tail x tail) s v a =
      let seen =
        ap (λ t. size_sub t s.queue.head) a ∙ room s.queue s.sent s.received v.pending v.ring in
      elim (Bool-cases (leb c (size_sub tail s.queue.head))) [
        | inl e ↦ rw e (record {
          pending = v.pending;
          ring = v.ring;
          producer_at = tt;
          consumer_at = v.consumer_at;
        })
        | inr e ↦ rw e (record {
          pending = v.pending;
          ring = v.ring;
          producer_at = (a, ground (arith, seen));
          consumer_at = v.consumer_at;
        })
      ]
  produce-Inv item (has_room x tail) s v (a, n) = record {
    pending = v.pending;
    ring = rw a (write_Ring s.queue s.sent s.received v.pending v.ring x n);
    producer_at = (a, n, write_self c s.queue.buffer x (tail % c));
    consumer_at = v.consumer_at;
  }
  produce-Inv item (written x tail) s v (a, n, e) = record {
    pending = v.pending ++ x ∷ [];
    ring = rw a (
        publish_Ring s.queue s.sent s.received v.pending v.ring x n
          (subst (λ t. s.queue.buffer (t % c) ≡ x) a e));
    producer_at = tt;
    consumer_at = consumer-longer s.queue.head v.pending x s.consumer v.consumer_at;
  }

  take-Inv :
      (head : ℕ) (x : A) (s : System A) (pending : List A)
      → head ≡ s.queue.head
      → Ring s.queue s.sent s.received (x ∷ pending)
      → ProducerAt s.queue (x ∷ pending) s.producer
      → Inv (consume c (moved head x) s)
  unfolding consume
  take-Inv head x s pending a r p = record {
    pending = pending;
    ring = rw a (take_Ring s.queue s.sent s.received pending x r);
    producer_at = producer-shorter s.queue (size_add head 1) x pending s.producer p;
    consumer_at = tt;
  }

  pub first_at :
      (q : Queue A) (sent received pending : List A)
      → Ring q sent received pending
      → 1 ≤ length pending
      → (rest : List A) × (pending ≡ q.buffer (q.head % c) ∷ rest)
  first_at q sent received [] r n = absurd (omega arith)
  first_at q sent received (y ∷ rest) r n =
      let here : q.buffer (q.head % c) ≡ y =
        ap q.buffer (head_slot q sent received (y ∷ rest) r) ∙ r.holds.0 in
      (rest, ap (λ z. z ∷ rest) (sym here))

  consume-Inv :
      (k : Consumer A) (s : System A) (v : Inv s)
      → ConsumerAt s.queue.head v.pending k
      → Inv (consume c k s)
  unfolding consume
  consume-Inv (waiting result) s v a = record {
    pending = v.pending;
    ring = v.ring;
    producer_at = v.producer_at;
    consumer_at = refl;
  }
  consume-Inv (has_head head) s v a = elim (Bool-cases (head == s.queue.tail)) [
    | inl e ↦ rw e (record {
      pending = v.pending;
      ring = v.ring;
      producer_at = v.producer_at;
      consumer_at = tt;
    })
    | inr e ↦ rw e (record {
      pending = v.pending;
      ring = v.ring;
      producer_at = v.producer_at;
      consumer_at = (
        a,
        same_ends s.queue s.sent s.received v.pending v.ring
            (subst (λ h. (h == s.queue.tail) ≡ false) a e),
      );
    })
  ]
  consume-Inv (not_empty head) s v (a, n) = record {
    pending = v.pending;
    ring = v.ring;
    producer_at = v.producer_at;
    consumer_at =
        let (rest, e) = first_at s.queue s.sent s.received v.pending v.ring n in
        (a, rest, e ∙ ap (λ h. s.queue.buffer (h % c) ∷ rest) (sym a));
  }
  consume-Inv (moved head x) s v (a, rest, e) =
      take-Inv head x s rest a (subst (λ xs. Ring s.queue s.sent s.received xs) e v.ring)
        (subst (λ xs. ProducerAt s.queue xs s.producer) e v.producer_at)

  pub run-Inv : (schedule : List (Option A)) (s : System A) → Inv s → Inv (run c schedule s)
  unfolding run
  run-Inv [] s v = v
  run-Inv (some item ∷ schedule) s v =
      run-Inv schedule _ (produce-Inv item s.producer s v v.producer_at)
  run-Inv (none ∷ schedule) s v = run-Inv schedule _ (consume-Inv s.consumer s v v.consumer_at)

  pub start-Inv : (blank : A) → Inv (start blank)
  unfolding start
  start-Inv blank = record {
    pending = [];
    ring = record {
      sent_eq = refl;
      head_eq = refl;
      tail_eq = refl;
      fits = omega arith;
      holds = tt;
    };
    producer_at = tt;
    consumer_at = tt;
  }

  -- For a capacity below 2 ^ 64 that divides it, and under every schedule of the steps of one
  -- producer and one consumer, the items that emplace has published are those that pop has given
  -- out, in that order, followed by at most `c` more.
  pub run-fifo :
      (blank : A) (schedule : List (Option A))
      → let s = run c schedule (start blank) in
        (pending : List A) × (s.sent ≡ s.received ++ pending) × (length pending ≤ c)
  run-fifo blank schedule =
      let v = run-Inv schedule (start blank) (start-Inv blank) in
      (v.pending, v.ring.sent_eq, v.ring.fits)

  -- For a capacity below 2 ^ 64 that divides it: whenever a schedule brings the producer to the
  -- write of a slot and the consumer to the move out of one, the two slots differ.
  pub run-no_race :
      (blank : A) (schedule : List (Option A)) (x : A) (tail head : ℕ)
      → (run c schedule (start blank)).producer ≡ has_room x tail
      → (run c schedule (start blank)).consumer ≡ not_empty head
      → (head % c == tail % c) ≡ false
  run-no_race blank schedule x tail head p k =
      let s = run c schedule (start blank) in
      let v = run-Inv schedule (start blank) (start-Inv blank) in
      let (a, n) = subst (ProducerAt s.queue v.pending) p v.producer_at in
      let (b, m) = subst (ConsumerAt s.queue.head v.pending) k v.consumer_at in
      let te = tail_slot s.queue s.sent s.received v.pending v.ring in
      let he = head_slot s.queue s.sent s.received v.pending v.ring in
      rw (a, b, te, he)
        (slots_apart c (length s.received) (length s.received + length v.pending) (omega (arith, m))
          (omega (arith, n)))

  -- For a capacity below 2 ^ 64 that divides it, and as long as fewer than 2 ^ 64 items have been
  -- published: size of the two members that a schedule leaves is the number of items that are
  -- published and not given out, and at most the capacity.
  pub run-size :
      (blank : A) (schedule : List (Option A))
      → let s = run c schedule (start blank) in
        length s.sent < 2 ^ 64
        → (size s.queue.head s.queue.tail + length s.received ≡ length s.sent)
          × (size s.queue.head s.queue.tail ≤ c)
  unfolding size
  run-size blank schedule few =
      let s = run c schedule (start blank) in
      let v = run-Inv schedule (start blank) (start-Inv blank) in
      let l = lengths s.queue s.sent s.received v.pending v.ring in
      (
        ground (arith, v.ring.head_eq, v.ring.tail_eq, l, few),
        ground (arith, v.ring.head_eq, v.ring.tail_eq, l, few, v.ring.fits),
      )

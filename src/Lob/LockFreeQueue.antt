-- ===== src/Lob/LockFreeQueue.antt =====
-- 02_LOB_Engine/include/LockFreeQueue.hpp: a ring for one producer and one consumer. Each access to
-- a shared member is one step, and the two threads' steps come in any order. `size_t` wraps at
-- 2 ^ 64, and `& MASK_` is `% capacity`, the capacity being a power of two.
pub mod Slots
pub mod Fifo
pub mod Alone
use object_oriented_programm.Prelude.{
  ℕ, ◌+◌, ◌-◌, ◌%◌, ◌^◌, ◌≡◌, Bool, true, false, Option, none, some, List, [], ◌∷◌, ◌++◌, leb, ◌==◌,
  if◌then◌else◌,
}

-- size_t addition and subtraction.
abbrev pub size_add : ℕ → ℕ → ℕ
size_add a b = (a + b) % 2 ^ 64

abbrev pub size_sub : ℕ → ℕ → ℕ
size_sub a b = (a + 2 ^ 64 - b) % 2 ^ 64

-- The members that the threads share.
pub record Queue (A : Type 0) : Type 0 where
  pub buffer : ℕ → A
  pub head : ℕ
  pub tail : ℕ

-- Where emplace is, with the locals that it has: before, after the load of the tail, after the test
-- for room, after the write of the slot. The result of a call that has ended is kept.
pub data Producer (A : Type 0) : Type 0 where
  resting : Option Bool → Producer A
  has_tail : A → ℕ → Producer A
  has_room : A → ℕ → Producer A
  written : A → ℕ → Producer A

-- Where pop is: before, after the load of the head, after the test, after the move.
pub data Consumer (A : Type 0) : Type 0 where
  waiting : Option (Option A) → Consumer A
  has_head : ℕ → Consumer A
  not_empty : ℕ → Consumer A
  moved : ℕ → A → Consumer A

-- `sent` are the items whose tail is stored, `received` those whose head is.
pub record System (A : Type 0) : Type 0 where
  pub queue : Queue A
  pub producer : Producer A
  pub consumer : Consumer A
  pub sent : List A
  pub received : List A

module _ {A : Type 0} where
  -- A buffer of default items.
  unfoldable pub new_queue : A → Queue A
  new_queue blank = record { buffer = λ i. blank; head = 0; tail = 0 }

  unfoldable pub write_slot : (ℕ → A) → ℕ → A → ℕ → A
  write_slot buffer i item j = if i == j then item else buffer j

  unfoldable pub start : A → System A
  unfolding new_queue
  start blank = record {
    queue = new_queue blank;
    producer = resting none;
    consumer = waiting none;
    sent = [];
    received = [];
  }

  module _ (capacity : ℕ) where
    -- The next access of the producer; a producer that rests is called with an item.
    unfoldable pub produce : A → Producer A → System A → System A
    unfolding write_slot
    produce item (resting result) s = record s { producer = has_tail item s.queue.tail }
    produce item (has_tail x tail) s =
        if leb capacity (size_sub tail s.queue.head)
        then record s { producer = resting (some false) }
        else record s { producer = has_room x tail }
    produce item (has_room x tail) s = record s {
      queue = record s.queue { buffer = write_slot s.queue.buffer (tail % capacity) x };
      producer = written x tail;
    }
    produce item (written x tail) s = record s {
      queue = record s.queue { tail = size_add tail 1 };
      producer = resting (some true);
      sent = s.sent ++ x ∷ [];
    }

    -- The next access of the consumer.
    unfoldable pub consume : Consumer A → System A → System A
    consume (waiting result) s = record s { consumer = has_head s.queue.head }
    consume (has_head head) s =
        if head == s.queue.tail
        then record s { consumer = waiting (some none) }
        else record s { consumer = not_empty head }
    consume (not_empty head) s = record s {
      consumer = moved head (s.queue.buffer (head % capacity));
    }
    consume (moved head item) s = record s {
      queue = record s.queue { head = size_add head 1 };
      consumer = waiting (some (some item));
      received = s.received ++ item ∷ [];
    }

    -- A schedule: which thread moves, and the item of a new call of emplace.
    unfoldable pub run : List (Option A) → System A → System A
    run [] s = s
    run (some item ∷ schedule) s = run schedule (produce item s.producer s)
    run (none ∷ schedule) s = run schedule (consume s.consumer s)

-- The two loads of size, relaxed: any two values that the members had.
unfoldable pub size : ℕ → ℕ → ℕ
size head tail = if leb head tail then size_sub tail head else 0

unfoldable pub empty : ℕ → ℕ → Bool
unfolding size
empty head tail = size head tail == 0

-- ===== src/Lob/OrderBook/Start.antt =====
-- The constructor of 02_LOB_Engine/src/OrderBook.cpp: a book without orders.
use object_oriented_programm.Prelude.{ℕ, zero, suc, ◌≡◌, refl, [], arith, length}
use object_oriented_programm.Lob.Types.{Side, buy, sell}
use object_oriented_programm.Lob.Pool.{slots}
use object_oriented_programm.Lob.OrderBook.{new_book, levels}
use object_oriented_programm.Lob.OrderBook.View.{count, slot}
use object_oriented_programm.Lob.OrderBook.Represents.{Represents, opposite}

count-slots : (a n : ℕ) → count a (slots n) ≡ slot n a
unfolding slots
count-slots a zero = ground arith
count-slots a (suc n) = ground (arith, count-slots a n)

length-slots : (n : ℕ) → length (slots n) ≡ n
unfolding slots
length-slots zero = refl
length-slots (suc n) = omega (arith, length-slots n)

no_levels : (m n : ℕ) (side : Side) → levels side (new_book m n) ≡ []
unfolding new_book
no_levels m n buy = refl
no_levels m n sell = refl

-- A new book, whatever the sizes of its two pools, represents two empty sides: every slot of both
-- pools is free exactly once.
pub new_book-Represents : (m n : ℕ) (side : Side) → Represents (new_book m n) side [] []
unfolding new_book
new_book-Represents m n side = record {
  mine_map = no_levels m n side;
  theirs_map = no_levels m n (opposite side);
  mine_at = tt;
  theirs_at = tt;
  order_slots = λ a. omega (arith, count-slots a m);
  order_total = omega (arith, length-slots m);
  level_slots = λ p. omega (arith, count-slots p n);
  order_map = λ id. refl;
  well_formed = record {
    mine_stand = tt;
    theirs_stand = tt;
    mine_sorted = tt;
    theirs_sorted = tt;
    unique = λ id. omega arith;
  };
}

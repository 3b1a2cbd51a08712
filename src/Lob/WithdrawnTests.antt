-- ===== src/Lob/WithdrawnTests.antt =====
-- A book whose pool of orders is used up.
use object_oriented_programm.Prelude.{
  ℕ, ◌≡◌, refl, ◌≤◌, some, none, List, [], ◌∷◌, arith, ok, threw, ◌⊎◌, lookup,
}
use object_oriented_programm.Lob.Types.{Ptr, buy, sell, limit, market, new_order}
use object_oriented_programm.Lob.OrderBook.{OrderBook, new_book}
use object_oriented_programm.Lob.OrderBook.View.{Level}
use object_oriented_programm.Lob.OrderBook.Represents.{Represents}
use object_oriented_programm.Lob.OrderBook.Orders.{add_order}
use object_oriented_programm.Lob.OrderBook.Withdrawn.{add_order-full}
use object_oriented_programm.Lob.Demo.{still, code}
use object_oriented_programm.Lob.Tests.{state_after}

-- One order in a pool of one slot.
one_slot : OrderBook
unfolding code new_book
one_slot = state_after (add_order still 7 sell 105 50 limit (new_book 1 1)) (new_book 1 1)

abbrev only_offer : List Level
only_offer =
    record { addr = 1; price = 105; orders = (1, new_order 7 105 50 sell limit 0) ∷ [] } ∷ []

one_slot-Represents : Represents one_slot buy [] only_offer
unfolding one_slot code new_book
one_slot-Represents = record {
  mine_map = refl;
  theirs_map = refl;
  mine_at = tt;
  theirs_at = (
    record {
      ne_null = refl;
      level_at = refl;
      holds = ((refl, tt), (refl, refl, tt));
      volume_small = omega arith;
    },
    tt,
  );
  order_slots = λ a. ground arith;
  order_total = refl;
  level_slots = λ p. ground arith;
  order_map = λ id. ground arith;
  well_formed = record {
    mine_stand = tt;
    theirs_stand = (refl, (omega arith, refl, refl, tt), tt);
    mine_sorted = tt;
    theirs_sorted = (tt, tt);
    unique = λ id. ground arith;
  };
}

abbrev wanted : ℕ
wanted = 50

-- Not even an order that would only take is accepted.
add_order-full_example :
    ((add_order still 9 buy 105 wanted market one_slot ≡ ok [] one_slot)
      × ((wanted ≡ 0) ⊎ ((a : Ptr) × (lookup 9 one_slot.order_map ≡ some a))))
    ⊎ ((add_order still 9 buy 105 wanted market one_slot ≡ threw one_slot)
        × (1 ≤ wanted)
        × (lookup 9 one_slot.order_map ≡ none))
unfolding one_slot code new_book
add_order-full_example =
    add_order-full one_slot buy [] only_offer one_slot-Represents still 9 105 wanted market refl

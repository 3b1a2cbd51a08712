-- ===== src/Lob/UnitTests.antt =====
-- 02_LOB_Engine/tests/TestOrderBook.cpp: each test as the list of the conditions that it asserts.
use object_oriented_programm.Prelude.{
  ℕ, ◌≡◌, refl, Bool, true, false, Option, some, none, List, [], ◌∷◌, ◌==◌, length, element, Cmd,
  pure, ◌>>=◌, ◌>>◌,
}
use object_oriented_programm.Lob.Types.{buy, sell, limit, MatchEvent}
use object_oriented_programm.Lob.OrderBook.{OrderBook, get_book, new_book}
use object_oriented_programm.Lob.OrderBook.Orders.{add_order, cancel_order}
use object_oriented_programm.Lob.OrderBook.Queries.{best, get_best_bid, get_active_orders_count}
use object_oriented_programm.Lob.Demo.{code, still, result}

-- `matches[i]` was made by that order, with that quantity.
abbrev maker_is : ℕ → ℕ → List MatchEvent → Bool
maker_is i id ms = elim (element ms i) [ none ↦ false | some m ↦ m.maker_order_id == id ]

abbrev quantity_is : ℕ → ℕ → List MatchEvent → Bool
quantity_is i qty ms = elim (element ms i) [ none ↦ false | some m ↦ m.match_quantity == qty ]

abbrev best_is : ℕ → ℕ → Option (ℕ × ℕ) → List Bool
best_is price qty none = false ∷ []
best_is price qty (some (p, q)) = true ∷ (p == price) ∷ (q == qty) ∷ []

abbrev missing : Option (ℕ × ℕ) → Bool
missing none = true
missing (some x) = false

test_price_time_priority : Cmd OrderBook (List Bool)
unfolding code element
test_price_time_priority = do
  add_order still 1 sell 100 50 limit
  add_order still 2 sell 100 50 limit
  matches ← add_order still 3 buy 100 60 limit
  pure (
      (length matches == 2)
      ∷ maker_is 0 1 matches
      ∷ quantity_is 0 50 matches
      ∷ maker_is 1 2 matches
      ∷ quantity_is 1 10 matches
      ∷ [])

test_partial_and_full_fills : Cmd OrderBook (List Bool)
unfolding code element
test_partial_and_full_fills = do
  add_order still 10 buy 150 100 limit
  matches ← add_order still 20 sell 150 40 limit
  b ← get_book
  bid ← get_best_bid
  pure (
      (length matches == 1)
      ∷ quantity_is 0 40 matches
      ∷ (get_active_orders_count b == 1)
      ∷ best_is 150 60 bid)

test_order_cancellation : Cmd OrderBook (List Bool)
unfolding code
test_order_cancellation = do
  add_order still 100 buy 200 500 limit
  b ← get_book
  canceled ← cancel_order 100
  c ← get_book
  bid ← get_best_bid
  pure (
      (get_active_orders_count b == 1)
      ∷ canceled
      ∷ (get_active_orders_count c == 0)
      ∷ missing bid
      ∷ [])

priority_passes :
    result (test_price_time_priority (new_book 4 4)) ≡ some (true ∷ true ∷ true ∷ true ∷ true ∷ [])
unfolding test_price_time_priority new_book
priority_passes = refl

fills_pass :
    result (test_partial_and_full_fills (new_book 4 4))
    ≡ some (true ∷ true ∷ true ∷ true ∷ true ∷ true ∷ [])
unfolding test_partial_and_full_fills new_book best get_best_bid
fills_pass = refl

cancellation_passes :
    result (test_order_cancellation (new_book 4 4)) ≡ some (true ∷ true ∷ true ∷ true ∷ [])
unfolding test_order_cancellation new_book best get_best_bid
cancellation_passes = refl

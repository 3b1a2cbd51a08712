-- ===== src/Lob/OrderBook/Cancel.antt =====
-- cancelOrder of 02_LOB_Engine/src/OrderBook.cpp against the lists that the book stands for.
pub mod Lists
pub mod Remains
pub mod Leave
pub mod Close
pub mod Gone
use object_oriented_programm.Prelude.{
  ℕ, ◌≡◌, ◌≤◌, refl, arith, Bool, true, false, Option, some, none, List, [], ◌∷◌, ◌++◌, lookup, ok,
  ◌∙◌, sym, subst, ap, Option-cases, is_some, if◌then◌else◌, inl, inr,
}
use object_oriented_programm.Lob.Types.{Ptr, Side, buy, sell}
use object_oriented_programm.Lob.OrderBook.{OrderBook}
use object_oriented_programm.Lob.OrderBook.View.{Level, orders_of, count}
use object_oriented_programm.Lob.PriceLevel.Chain.{Entry}
use object_oriented_programm.Lob.OrderBook.Represents.{
  Represents, opposite, order_index, first_some, flip, ids, lookup-none,
}
use object_oriented_programm.Lob.OrderBook.Orders.{cancel_order, cancel_found}
use object_oriented_programm.Lob.OrderBook.Cancel.Lists.{cancel_from, Stands, stands, with_orders}
use object_oriented_programm.Lob.OrderBook.Cancel.Remains.{was, remains}
use object_oriented_programm.Lob.OrderBook.Cancel.Gone.{gone_lem}

-- An order of one side goes from that side.
pub cancel_side :
    (b : OrderBook) (side : Side) (mine theirs : List Level) (id : ℕ) (a : Ptr)
    → Represents b side mine theirs
    → lookup id b.order_map ≡ some a
    → lookup id (order_index (orders_of mine)) ≡ some a
    → (d : OrderBook) × (cancel_order id b ≡ ok true d)
      × Represents d side (cancel_from id mine) theirs
unfolding cancel_order
cancel_side b side mine theirs id a r found h =
    let s = stands id a mine h in
    let whole = s.levels_eq ∙ ap (λ xs. s.above ++ with_orders s.level xs ∷ s.below) s.orders_eq in
    let (d, run, r') =
      gone_lem b side s.above s.level s.older a s.order s.younger s.below theirs
        (subst (λ vs. Represents b side vs theirs) whole r) in
    (
      d,
      rw found (subst (λ i. cancel_found i (some a) b ≡ ok true d) s.id_eq run),
      rw s.cancelled r',
    )

-- The side of an identifier decides the lists that are left.
abbrev pub holder : ℕ → List Level → Option Ptr
holder id mine = lookup id (order_index (orders_of mine))

-- The levels of a side after the order goes, if it is there.
unfoldable pub less_order : ℕ → List Level → List Level
less_order id vs = if is_some (holder id vs) then cancel_from id vs else vs

pub less_order-none : (id : ℕ) (vs : List Level) → holder id vs ≡ none → less_order id vs ≡ vs
unfolding less_order
less_order-none id vs e = rw e

pub less_order-some :
    (id a : ℕ) (vs : List Level) → holder id vs ≡ some a → less_order id vs ≡ cancel_from id vs
unfolding less_order
less_order-some id a vs e = rw e

abbrev Cancels : OrderBook → Side → (mine theirs : List Level) → ℕ → Type 0
Cancels b side mine theirs id =
    (d : OrderBook) × (cancel_order id b ≡ ok true d) × Represents d side mine theirs

first_none : (o p : Option Ptr) (a : Ptr) → o ≡ none → first_some o p ≡ some a → p ≡ some a
first_none o p a e h = rw e at h

unflip :
    (b : OrderBook) (side : Side) (mine theirs : List Level)
    → Represents b (opposite side) theirs mine
    → Represents b side mine theirs
unflip b buy mine theirs r = flip b sell theirs mine r
unflip b sell mine theirs r = flip b buy theirs mine r

theirs_only :
    (b : OrderBook) (side : Side) (mine theirs : List Level) (id : ℕ) (a : Ptr)
    → Represents b side mine theirs
    → lookup id b.order_map ≡ some a
    → holder id mine ≡ none
    → Cancels b side mine (less_order id theirs) id
theirs_only b side mine theirs id a r found none_mine =
    let h =
      first_none (holder id mine) (holder id theirs) a none_mine (sym (r.order_map id) ∙ found) in
    let (d, run, r') =
      cancel_side b (opposite side) theirs mine id a (flip b side mine theirs r) found h in
    (
      d,
      run,
      unflip d side mine (less_order id theirs) (
          subst (λ vs. Represents d (opposite side) vs mine) (sym (less_order-some id a theirs h))
            r'),
    )

count-present :
    (id c : ℕ) (xs : List Entry) → lookup id (order_index xs) ≡ some c → 1 ≤ count id (ids xs)
count-present id c [] h = cc
count-present id c ((a, o) ∷ xs) h = ground (arith, count-present id c xs)

-- On a book that represents two lists of levels, cancelling an identifier that the map leads to an
-- order answers true, and the book then represents the lists without that order, and without its
-- level if it was the only order there; no other order or level moves.
pub cancel_order_lem :
    (b : OrderBook) (side : Side) (mine theirs : List Level) (id : ℕ) (a : Ptr)
    → Represents b side mine theirs
    → lookup id b.order_map ≡ some a
    → (d : OrderBook) × (cancel_order id b ≡ ok true d)
      × Represents d side (less_order id mine) (less_order id theirs)
cancel_order_lem b side mine theirs id a r found = elim (Option-cases (holder id mine)) [
  | inl e ↦
      subst (λ vs. Cancels b side vs (less_order id theirs) id) (sym (less_order-none id mine e))
        (theirs_only b side mine theirs id a r found e)
  | inr (c, e) ↦
      let same = sym found ∙ r.order_map id ∙ ap (λ o. first_some o (holder id theirs)) e in
      let gone : holder id theirs ≡ none =
        lookup-none id (orders_of theirs)
          (omega (arith, r.unique id, count-present id c (orders_of mine) e)) in
      let (d, run, r') = cancel_side b side mine theirs id a r found (e ∙ sym same) in
      (d, run, rw (less_order-some id c mine e, less_order-none id theirs gone) r')
]

-- A cancellation of any other identifier answers false and changes nothing.
pub cancel_order-unknown :
    (b : OrderBook) (id : ℕ) → lookup id b.order_map ≡ none → cancel_order id b ≡ ok false b
unfolding cancel_order cancel_found
cancel_order-unknown b id e = rw e

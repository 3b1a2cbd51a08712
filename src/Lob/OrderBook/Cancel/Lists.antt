-- ===== src/Lob/OrderBook/Cancel/Lists.antt =====
-- What a cancellation does to the levels of a side: an independent description, over lists.
use object_oriented_programm.Prelude.{
  ℕ, ◌≡◌, refl, true, false, some, none, List, [], ◌∷◌, ◌++◌, ◌==◌, if◌then◌else◌, arith, lookup,
  ==_iff, Bool-cases, inl, inr, ap,
}
use object_oriented_programm.Lob.Types.{Ptr, Order}
use object_oriented_programm.Lob.PriceLevel.Chain.{Entry, has}
use object_oriented_programm.Lob.OrderBook.View.{Level, orders_of}
use object_oriented_programm.Lob.OrderBook.Represents.{order_index, ids, lookup-index-append}
use object_oriented_programm.Lob.OrderBook.Matching.Sweep.{is_nil}

unfoldable pub erase_order : ℕ → List Entry → List Entry
erase_order id [] = []
erase_order id ((a, o) ∷ xs) = if o.id == id then xs else (a, o) ∷ erase_order id xs

abbrev pub with_orders : Level → List Entry → Level
with_orders v xs = record v { orders = xs }

-- The level with these orders, if there are any.
abbrev pub kept_level : Level → List Entry → List Level
kept_level v xs = if is_nil xs then [] else with_orders v xs ∷ []

-- The order goes, and its level with it if it was the last.
unfoldable pub cancel_from : ℕ → List Level → List Level
cancel_from id [] = []
cancel_from id (v ∷ vs) =
    if has id (ids v.orders)
    then kept_level v (erase_order id v.orders) ++ vs
    else v ∷ cancel_from id vs

-- Where the order stands on its side.
pub record Stands (id a : ℕ) (vs : List Level) : Type 0 where
  pub above : List Level
  pub level : Level
  pub below : List Level
  pub older : List Entry
  pub order : Order
  pub younger : List Entry
  pub levels_eq : vs ≡ above ++ level ∷ below
  pub orders_eq : level.orders ≡ older ++ (a, order) ∷ younger
  pub id_eq : order.id ≡ id
  pub cancelled : cancel_from id vs ≡ above ++ (kept_level level (older ++ younger) ++ below)

-- The part of `Stands` within a level.
record StandsIn (id a : ℕ) (xs : List Entry) : Type 0 where
  older : List Entry
  order : Order
  younger : List Entry
  orders_eq : xs ≡ older ++ (a, order) ∷ younger
  id_eq : order.id ≡ id
  erased : erase_order id xs ≡ older ++ younger

stands_in : (id a : ℕ) (xs : List Entry) → lookup id (order_index xs) ≡ some a → StandsIn id a xs
unfolding erase_order
stands_in id a [] h = cc
stands_in id a ((b, o) ∷ xs) h = elim (Bool-cases (o.id == id)) [
  | inl e ↦ record {
    older = [];
    order = o;
    younger = xs;
    orders_eq = ground arith;
    id_eq = (==_iff o.id id).0 e;
    erased = rw e;
  }
  | inr e ↦
      let s = stands_in id a xs (rw e at h) in
      record {
        older = (b, o) ∷ s.older;
        order = s.order;
        younger = s.younger;
        orders_eq = ap (◌∷◌ (b, o)) s.orders_eq;
        id_eq = s.id_eq;
        erased = rw (e, s.erased);
      }
]

lookup-has :
    (id : ℕ) (xs : List Entry)
    → has id (ids xs) ≡ true
    → (a : Ptr) × (lookup id (order_index xs) ≡ some a)
lookup-has id [] h = cc
lookup-has id ((a, o) ∷ xs) h = elim (Bool-cases (o.id == id)) [
  | inl e ↦ (a, rw e)
  | inr e ↦ let (c, f) = lookup-has id xs (rw e at h) in (c, rw e f)
]

lookup-not-has :
    (id : ℕ) (xs : List Entry) → has id (ids xs) ≡ false → lookup id (order_index xs) ≡ none
lookup-not-has id [] h = refl
lookup-not-has id ((a, o) ∷ xs) h = ground (arith, lookup-not-has id xs)

-- An order that the map of a side leads to stands in one of its levels.
pub stands :
    (id a : ℕ) (vs : List Level) → lookup id (order_index (orders_of vs)) ≡ some a → Stands id a vs
unfolding cancel_from
stands id a [] h = cc
stands id a (v ∷ vs) h = elim (Bool-cases (has id (ids v.orders))) [
  | inl here ↦
      let (c, e) = lookup-has id v.orders here in
      let s =
        stands_in id a v.orders (ground (arith, lookup-index-append id v.orders (orders_of vs))) in
      record {
        above = [];
        level = v;
        below = vs;
        older = s.older;
        order = s.order;
        younger = s.younger;
        levels_eq = refl;
        orders_eq = s.orders_eq;
        id_eq = s.id_eq;
        cancelled = rw (here, s.erased);
      }
  | inr later ↦
      let s = stands id a vs (
        ground (
          arith,
          lookup-index-append id v.orders (orders_of vs),
          lookup-not-has id v.orders later,
        )) in
      record {
        above = v ∷ s.above;
        level = s.level;
        below = s.below;
        older = s.older;
        order = s.order;
        younger = s.younger;
        levels_eq = ap (◌∷◌ v) s.levels_eq;
        orders_eq = s.orders_eq;
        id_eq = s.id_eq;
        cancelled = rw (later, s.cancelled);
      }
]

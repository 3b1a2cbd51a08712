-- ===== src/Lob/Exchange/Gone.antt =====
-- An order of 02_LOB_Engine's book in the queue of its side: whether it waits there, and the queue
-- that its cancellation leaves.
use object_oriented_programm.Prelude.{
  ℕ, ◌≡◌, refl, true, false, ◌||◌, List, [], ◌∷◌, ◌++◌, ◌==◌, lookup, is_some, Option, some, none,
  arith, Bool-cases, Option-cases, inl, inr, ap, ◌∙◌, sym,
}
use object_oriented_programm.Lob.Types.{Ptr}
use object_oriented_programm.Lob.PriceLevel.Chain.{Entry, has}
use object_oriented_programm.Lob.OrderBook.View.{Level, orders_of}
use object_oriented_programm.Lob.OrderBook.Represents.{
  first_some, lookup-index-append, ids, order_index,
}
use object_oriented_programm.Lob.OrderBook.Cancel.Lists.{erase_order, cancel_from, kept_level}
use object_oriented_programm.Lob.OrderBook.Cancel.{less_order, less_order-none, less_order-some}
use object_oriented_programm.Lob.Exchange.{Quote, step_back, waits}
use object_oriented_programm.Lob.Exchange.Flat.{quotes, flat}

waits-append : (id : ℕ) (xs ys : List Quote) → waits id (xs ++ ys) ≡ (waits id xs || waits id ys)
waits-append id [] ys = refl
waits-append id (q ∷ xs) ys = ground (arith, waits-append id xs ys)

has-waits : (id p : ℕ) (xs : List Entry) → waits id (quotes p xs) ≡ has id (ids xs)
has-waits id p [] = refl
has-waits id p ((a, o) ∷ xs) = ap (λ b. (o.id == id) || b) (has-waits id p xs)

lookup-waits :
    (id p : ℕ) (xs : List Entry) → is_some (lookup id (order_index xs)) ≡ waits id (quotes p xs)
lookup-waits id p [] = refl
lookup-waits id p ((a, o) ∷ xs) = ground (arith, lookup-waits id p xs)

pub some_first : (o p : Option Ptr) → is_some (first_some o p) ≡ (is_some o || is_some p)
some_first none p = refl
some_first (some a) p = refl

pub lookup-flat :
    (id : ℕ) (vs : List Level)
    → is_some (lookup id (order_index (orders_of vs))) ≡ waits id (flat vs)
lookup-flat id [] = refl
lookup-flat id (v ∷ vs) = ground (
  arith,
  lookup-index-append id v.orders (orders_of vs),
  some_first (lookup id (order_index v.orders)) (lookup id (order_index (orders_of vs))),
  lookup-waits id v.price v.orders,
  lookup-flat id vs,
  waits-append id (quotes v.price v.orders) (flat vs),
)

-- The order is on this level, or on a later one.
step_back-here :
    (id p : ℕ) (xs : List Entry) (ys : List Quote)
    → has id (ids xs) ≡ true
    → step_back id (quotes p xs ++ ys) ≡ quotes p (erase_order id xs) ++ ys
unfolding step_back erase_order
step_back-here id p [] ys h = cc
step_back-here id p ((a, o) ∷ xs) ys h = elim (Bool-cases (o.id == id)) [
  | inl same ↦ rw same refl
  | inr ne ↦ rw (ne, step_back-here id p xs ys (rw ne at h)) refl
]

step_back-later :
    (id p : ℕ) (xs : List Entry) (ys : List Quote)
    → has id (ids xs) ≡ false
    → step_back id (quotes p xs ++ ys) ≡ quotes p xs ++ step_back id ys
unfolding step_back
step_back-later id p [] ys h = refl
step_back-later id p ((a, o) ∷ xs) ys h = elim (Bool-cases (o.id == id)) [
  | inl same ↦ let e = rw same at h in cc
  | inr ne ↦ rw (ne, step_back-later id p xs ys (rw ne at h)) refl
]

flat-kept :
    (v : Level) (xs : List Entry) (vs : List Level)
    → flat (kept_level v xs ++ vs) ≡ quotes v.price xs ++ flat vs
flat-kept v [] vs = refl
flat-kept v (x ∷ xs) vs = refl

flat-cancel : (id : ℕ) (vs : List Level) → flat (cancel_from id vs) ≡ step_back id (flat vs)
unfolding cancel_from
flat-cancel id [] = unfold step_back in refl
flat-cancel id (v ∷ vs) = elim (Bool-cases (has id (ids v.orders))) [
  | inl here ↦ rw here (
      flat-kept v (erase_order id v.orders) vs
      ∙ sym (step_back-here id v.price v.orders (flat vs) here))
  | inr later ↦
      rw (later, flat-cancel id vs) (sym (step_back-later id v.price v.orders (flat vs) later))
]

pub step_back-unknown : (id : ℕ) (qs : List Quote) → waits id qs ≡ false → step_back id qs ≡ qs
unfolding step_back
step_back-unknown id [] h = refl
step_back-unknown id (q ∷ qs) h = elim (Bool-cases (q.id == id)) [
  | inl same ↦ let e = rw same at h in cc
  | inr ne ↦ rw (ne, step_back-unknown id qs (rw ne at h)) refl
]

pub flat-less_order : (id : ℕ) (vs : List Level) → flat (less_order id vs) ≡ step_back id (flat vs)
flat-less_order id vs = elim (Option-cases (lookup id (order_index (orders_of vs)))) [
  | inl gone ↦
      rw (less_order-none id vs gone)
        (sym (step_back-unknown id (flat vs) (sym (lookup-flat id vs) ∙ ap is_some gone)))
  | inr (a, found) ↦ rw (less_order-some id a vs found) (flat-cancel id vs)
]

-- ===== src/Lob/Exchange/Flat.antt =====
-- The levels of a side of 02_LOB_Engine's book, read as one queue: what a sweep and a rest
-- do to the levels is what meet and queue_up do to the queue.
use object_oriented_programm.Prelude.{
  ℕ, suc, ◌-◌, ◌≡◌, refl, Bool, true, false, ◌||◌, List, [], ◌∷◌, ◌++◌, leb, ◌==◌, arith,
  Bool-cases, inl, inr, ap, ◌∙◌, sym, append_assoc,
}
use object_oriented_programm.Lob.Types.{Ptr, Side, buy, sell, Order}
use object_oriented_programm.Lob.PriceLevel.Chain.{Entry}
use object_oriented_programm.Lob.OrderBook.{before}
use object_oriented_programm.Lob.OrderBook.View.{Level}
use object_oriented_programm.Lob.OrderBook.Represents.{LevelsStand, AllBehind, Sorted}
use object_oriented_programm.Lob.OrderBook.Matching.Fill.{fill}
use object_oriented_programm.Lob.OrderBook.Matching.Sweep.{Trade, tag, is_nil, sweep, reports}
use object_oriented_programm.Lob.OrderBook.Orders.Join.{join}
use object_oriented_programm.Lob.Exchange.{Quote, Deal, meet, queue_up, reports_of}

abbrev pub quotes : ℕ → List Entry → List Quote
quotes price [] = []
quotes price ((a, o) ∷ xs) =
    record { id = o.id; price = price; wanted = o.remaining_qty } ∷ quotes price xs

abbrev pub flat : List Level → List Quote
flat [] = []
flat (v ∷ vs) = quotes v.price v.orders ++ flat vs

abbrev pub deals_of : List Trade → List Deal
deals_of [] = []
deals_of ((price, o, q) ∷ ts) = record { maker = o.id; price = price; quantity = q } ∷ deals_of ts

pub reports-deals :
    (clock : ℕ → ℕ) (id n : ℕ) (ts : List Trade)
    → reports clock id n ts ≡ reports_of clock id n (deals_of ts)
reports-deals clock id n [] = refl
reports-deals clock id n ((price, o, q) ∷ ts) = rw (reports-deals clock id (suc n) ts) refl

deals_of-append : (ts us : List Trade) → deals_of (ts ++ us) ≡ deals_of ts ++ deals_of us
deals_of-append [] us = refl
deals_of-append ((price, o, q) ∷ ts) us = rw (deals_of-append ts us) refl

-- One level against the front of the queue.
module _ (closed : ℕ → Bool) (p : ℕ) (ys : List Quote) where
  meet-closed :
      (n : ℕ) (xs : List Entry)
      → is_nil xs ≡ false
      → ((n == 0) || closed p) ≡ true
      → meet closed n (quotes p xs ++ ys)
        ≡ record { left = quotes p xs ++ ys; deals = []; rest = n }
  unfolding meet
  meet-closed n [] h e = cc
  meet-closed n ((a, o) ∷ xs) h e = rw e refl

  module _ (open_here : closed p ≡ false) where
    meet-emptied :
        (n : ℕ) (xs : List Entry)
        → is_nil (fill n xs).left ≡ true
        → let f = fill n xs in
          let next = meet closed f.rest ys in
          meet closed n (quotes p xs ++ ys) ≡ record {
            left = next.left;
            deals = deals_of (tag p f.fills) ++ next.deals;
            rest = next.rest;
          }
    unfolding meet fill
    meet-emptied n [] h = refl
    meet-emptied n ((a, o) ∷ xs) h = elim (Bool-cases (n == 0)) [
      | inl zero_left ↦ let e = rw zero_left at h in cc
      | inr more ↦ elim (Bool-cases (leb o.remaining_qty n)) [
        | inl whole ↦
            rw
              (
                more,
                whole,
                open_here,
                meet-emptied (n - o.remaining_qty) xs (rw (more, whole) at h),
              )
              refl
        | inr part ↦ let e = rw (more, part) at h in cc
      ]
    ]

    meet-left :
        (n : ℕ) (xs : List Entry)
        → is_nil (fill n xs).left ≡ false
        → let f = fill n xs in
          meet closed n (quotes p xs ++ ys)
          ≡ record { left = quotes p f.left ++ ys; deals = deals_of (tag p f.fills); rest = f.rest }
    unfolding meet fill
    meet-left n [] h = cc
    meet-left n ((a, o) ∷ xs) h = elim (Bool-cases (n == 0)) [
      | inl zero_left ↦ rw zero_left refl
      | inr more ↦ elim (Bool-cases (leb o.remaining_qty n)) [
        | inl whole ↦
            rw (more, whole, open_here, meet-left (n - o.remaining_qty) xs (rw (more, whole) at h))
              refl
        | inr part ↦ rw (more, part, open_here) refl
      ]
    ]

pub flat-sweep :
    (closed : ℕ → Bool) (side : Side) (n : ℕ) (vs : List Level)
    → LevelsStand side vs
    → let s = sweep closed n vs in
      meet closed n (flat vs)
      ≡ record { left = flat s.left; deals = deals_of s.trades; rest = s.rest }
unfolding sweep
flat-sweep closed side n [] st = unfold meet in refl
flat-sweep closed side n (v ∷ vs) (full, _, st) =
    let f = fill n v.orders in
    elim (Bool-cases ((n == 0) || closed v.price)) [
      | inl stops ↦ rw (stops, meet-closed closed v.price (flat vs) n v.orders full stops) refl
      | inr goes ↦
          let open_here : closed v.price ≡ false = ground arith in
          elim (Bool-cases (is_nil f.left)) [
            | inl gone ↦
                let next = flat-sweep closed side f.rest vs st in
                rw
                  (
                    goes,
                    gone,
                    meet-emptied closed v.price (flat vs) open_here n v.orders gone,
                    next,
                    deals_of-append (tag v.price f.fills) (sweep closed f.rest vs).trades,
                  )
                  refl
            | inr stays ↦
                rw (goes, stays, meet-left closed v.price (flat vs) open_here n v.orders stays) refl
          ]
    ]

-- A queue whose front is a level.
queue_up-front :
    (ahead : ℕ → ℕ → Bool) (q : Quote) (p : ℕ) (xs : List Entry) (ys : List Quote)
    → is_nil xs ≡ false
    → ahead q.price p ≡ true
    → queue_up ahead q (quotes p xs ++ ys) ≡ q ∷ quotes p xs ++ ys
unfolding queue_up
queue_up-front ahead q p [] ys h e = cc
queue_up-front ahead q p ((a, o) ∷ xs) ys h e = rw e refl

queue_up-behind :
    (ahead : ℕ → ℕ → Bool) (q : Quote) (p : ℕ) (xs : List Entry) (ys : List Quote)
    → ahead q.price p ≡ false
    → queue_up ahead q (quotes p xs ++ ys) ≡ quotes p xs ++ queue_up ahead q ys
unfolding queue_up
queue_up-behind ahead q p [] ys e = refl
queue_up-behind ahead q p ((a, o) ∷ xs) ys e = rw (e, queue_up-behind ahead q p xs ys e) refl

quotes-append : (p : ℕ) (xs ys : List Entry) → quotes p (xs ++ ys) ≡ quotes p xs ++ quotes p ys
quotes-append p [] ys = refl
quotes-append p ((a, o) ∷ xs) ys = rw (quotes-append p xs ys) refl

before_self : (side : Side) (p : ℕ) → before side p p ≡ false
before_self buy p = ground arith
before_self sell p = ground arith

module _ (side : Side) (a : Ptr) (o : Order) (price : ℕ) where
  abbrev at_price : ℕ → Quote
  at_price z = record { id = o.id; price = z; wanted = o.remaining_qty }

  abbrev quote_of : Quote
  quote_of = at_price price

  ahead_of_rest :
      (vs : List Level)
      → AllBehind side price vs
      → LevelsStand side vs
      → queue_up (before side) quote_of (flat vs) ≡ quote_of ∷ flat vs
  ahead_of_rest [] b st = unfold queue_up in refl
  ahead_of_rest (v ∷ vs) (b, bs) (full, _, st) =
      queue_up-front (before side) quote_of v.price v.orders (flat vs) full b

  pub flat-join :
      (p : Ptr) (vs : List Level)
      → Sorted side vs
      → LevelsStand side vs
      → flat (join side price (a, o) p vs) ≡ queue_up (before side) quote_of (flat vs)
  unfolding join
  flat-join p [] s st = unfold queue_up in refl
  flat-join p (v ∷ vs) (b, s) (full, os, st) = elim (Bool-cases (v.price == price)) [
    | inl at ↦
        let same : v.price ≡ price = ground arith in
        let here : before side price v.price ≡ false = rw same (before_self side price) in
        rw
          (
            at,
            quotes-append v.price v.orders ((a, o) ∷ []),
            queue_up-behind (before side) quote_of v.price v.orders (flat vs) here,
          )
          (append_assoc (quotes v.price v.orders) (quotes v.price ((a, o) ∷ [])) (flat vs)
            ∙ ap (λ (z : ℕ). quotes v.price v.orders ++ at_price z ∷ flat vs) same
            ∙ ap (λ ys. quotes v.price v.orders ++ ys) (sym (ahead_of_rest vs (rw same at b) st)))
    | inr ne ↦ elim (Bool-cases (before side price v.price)) [
      | inl first ↦
          rw (ne, first)
            (sym (queue_up-front (before side) quote_of v.price v.orders (flat vs) full first))
      | inr wait ↦
          rw (ne, wait, flat-join p vs s st)
            (sym (queue_up-behind (before side) quote_of v.price v.orders (flat vs) wait))
    ]
  ]

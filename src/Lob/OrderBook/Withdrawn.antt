-- ===== src/Lob/OrderBook/Withdrawn.antt =====
-- addOrder and then cancelOrder of 02_LOB_Engine/src/OrderBook.cpp, and addOrder on a full book.
use object_oriented_programm.Prelude.{
  ℕ, ◌+◌, ◌≡◌, refl, ◌≤◌, ◌<◌, ◌^◌, true, false, some, none, List, [], ◌∷◌, ◌++◌, ltb, ◌==◌, arith,
  lookup, ok, threw, Bool-cases, Option-cases, inl, inr, ◌⊎◌, ◌∙◌, sym, ap, subst, length,
}
use object_oriented_programm.Lob.Types.{Ptr, Side, OrderType, limit, Order, new_order}
use object_oriented_programm.Lob.Pool.{Pool, allocate}
use object_oriented_programm.Lob.PriceLevel.Chain.{Entry, has}
use object_oriented_programm.Lob.OrderBook.{OrderBook, before}
use object_oriented_programm.Lob.OrderBook.View.{Level, orders_of}
use object_oriented_programm.Lob.OrderBook.Represents.{
  Represents, LevelsStand, ids, first_some, order_index, lookup-index-append,
}
use object_oriented_programm.Lob.OrderBook.Matching.Sweep.{Swept, stop, reports, sweep, sweep-stop}
use object_oriented_programm.Lob.OrderBook.Matching.SideLoop.{closed_to}
use object_oriented_programm.Lob.OrderBook.Orders.{add_order, cancel_order}
use object_oriented_programm.Lob.OrderBook.Orders.Join.{join}
use object_oriented_programm.Lob.OrderBook.Orders.Append.{VolumesFit}
use object_oriented_programm.Lob.OrderBook.Orders.Match.{outcome}
use object_oriented_programm.Lob.OrderBook.AddOrder.{
  LevelAvailable, add_order_lem, own_side, both_absent,
}
use object_oriented_programm.Lob.OrderBook.Cancel.Lists.{cancel_from, erase_order}
use object_oriented_programm.Lob.OrderBook.Cancel.{
  cancel_order_lem, cancel_order-unknown, less_order, less_order-none, less_order-some,
}

abbrev Absent : ℕ → List Entry → Type 0
Absent id xs = lookup id (order_index xs) ≡ none

Absent-split : (id : ℕ) (xs ys : List Entry) → Absent id (xs ++ ys) → Absent id xs × Absent id ys
Absent-split id xs ys h = ground (arith, lookup-index-append id xs ys)

Absent-has : (id : ℕ) (xs : List Entry) → Absent id xs → has id (ids xs) ≡ false
Absent-has id [] h = refl
Absent-has id ((a, o) ∷ xs) h = ground (arith, Absent-has id xs)

module _ (id : ℕ) (a : Ptr) (xs ys : List Entry) where
  in_front : lookup id (order_index xs) ≡ some a → lookup id (order_index (xs ++ ys)) ≡ some a
  in_front h = ground (arith, lookup-index-append id xs ys)

  in_back :
      Absent id xs
      → lookup id (order_index ys) ≡ some a
      → lookup id (order_index (xs ++ ys)) ≡ some a
  in_back h k = ground (arith, lookup-index-append id xs ys)

-- An order behind others that are not it.
module _ (id : ℕ) (a : Ptr) (o : Order) (named : o.id ≡ id) where
  has-last : (xs : List Entry) → has id (ids (xs ++ (a, o) ∷ [])) ≡ true
  has-last [] = ground arith
  has-last ((c, p) ∷ xs) = ground (arith, has-last xs)

  erase_order-last : (xs : List Entry) → Absent id xs → erase_order id (xs ++ (a, o) ∷ []) ≡ xs
  unfolding erase_order
  erase_order-last [] h = let e : (o.id == id) ≡ true = ground arith in rw e refl
  erase_order-last ((c, p) ∷ xs) h =
      let e : (p.id == id) ≡ false = ground arith in
      rw e (ap (λ ys. (c, p) ∷ ys) (erase_order-last xs (rw e at h)))

  lookup-last :
      (xs : List Entry) → Absent id xs → lookup id (order_index (xs ++ (a, o) ∷ [])) ≡ some a
  lookup-last xs h =
      let e : (o.id == id) ≡ true = ground arith in
      ground (arith, e, lookup-index-append id xs ((a, o) ∷ []))

  lookup-join :
      (side : Side) (price : ℕ) (p : Ptr) (vs : List Level)
      → Absent id (orders_of vs)
      → lookup id (order_index (orders_of (join side price (a, o) p vs))) ≡ some a
  unfolding join
  lookup-join side price p [] h = lookup-last [] refl
  lookup-join side price p (v ∷ vs) h =
      let (here, later) = Absent-split id v.orders (orders_of vs) h in
      elim (Bool-cases (v.price == price)) [
        | inl at ↦ rw at (in_front id a _ (orders_of vs) (lookup-last v.orders here))
        | inr ne ↦ elim (Bool-cases (before side price v.price)) [
          | inl first ↦ rw (ne, first) (in_front id a ((a, o) ∷ []) _ (lookup-last [] refl))
          | inr wait ↦
              rw (ne, wait) (in_back id a v.orders _ here (lookup-join side price p vs later))
        ]
      ]

  cancel_from-join :
      (side : Side) (price : ℕ) (p : Ptr) (vs : List Level)
      → Absent id (orders_of vs)
      → LevelsStand side vs
      → cancel_from id (join side price (a, o) p vs) ≡ vs
  unfolding join cancel_from
  cancel_from-join side price p [] h s = rw (has-last [], erase_order-last [] refl) refl
  cancel_from-join side price p (v ∷ vs) h (full, _, s) =
      let (here, later) = Absent-split id v.orders (orders_of vs) h in
      elim (Bool-cases (v.price == price)) [
        | inl at ↦ rw (at, has-last v.orders, erase_order-last v.orders here, full) refl
        | inr ne ↦ elim (Bool-cases (before side price v.price)) [
          | inl first ↦ rw (ne, first, has-last [], erase_order-last [] refl) refl
          | inr wait ↦
              rw (ne, wait, Absent-has id v.orders here)
                (ap (λ ws. v ∷ ws) (cancel_from-join side price p vs later s))
        ]
      ]

-- No level of the other side is at a price that the order accepts.
abbrev pub OutOfReach : Side → Order → List Level → Type 0
OutOfReach side t [] = Unit {0}
OutOfReach side t (v ∷ vs) = before side v.price t.price ≡ true

outcome-stop :
    (side : Side) (t : Order) (vs : List Level)
    → t.type ≡ limit
    → OutOfReach side t vs
    → outcome side t vs ≡ stop t.remaining_qty vs
unfolding sweep
outcome-stop side t [] l h = refl
outcome-stop side t (v ∷ vs) l h =
    sweep-stop (closed_to (before side) t) t.remaining_qty v vs (rw (l, h) (ground arith))

no_items : (xs : List Ptr) → length xs ≡ 0 → xs ≡ []
no_items [] h = refl
no_items (x ∷ xs) h = absurd (omega arith)

allocate-full : (o : Order) (s : Pool Order) → s.free_list ≡ [] → allocate o s ≡ threw s
unfolding allocate
allocate-full o s e = rw e refl

module _ (b : OrderBook) (side : Side) (mine theirs : List Level)
    (r : Represents b side mine theirs) where
  both-Absent :
      (id : ℕ)
      → lookup id b.order_map ≡ none
      → Absent id (orders_of mine) × Absent id (orders_of theirs)
  both-Absent id new =
      both_absent (lookup id (order_index (orders_of mine)))
        (lookup id (order_index (orders_of theirs))) (sym (r.order_map id) ∙ new)

  module _ (id price qty : ℕ) (valid : (qty == 0) ≡ false) where
    abbrev pub placed : Order
    placed = new_order id price qty side limit 0

    own_side-join :
        (a p : Ptr)
        → OutOfReach side placed theirs
        → own_side side placed (outcome side placed theirs) a p mine
          ≡ join side price (a, placed) p mine
    own_side-join a p away =
        let wants : ltb 0 qty ≡ true = ground arith in
        rw (outcome-stop side placed theirs refl away, wants) refl

    placed-Represents :
        (d : OrderBook) (a p : Ptr)
        → OutOfReach side placed theirs
        → (let s = outcome side placed theirs in
            Represents d side (own_side side placed s a p mine) s.left)
        → Represents d side (join side price (a, placed) p mine) theirs
    placed-Represents d a p away k =
        let stays = outcome-stop side placed theirs refl away in
        subst (λ vs. Represents d side vs theirs) (own_side-join a p away)
          (subst
            (λ (s : Swept).
              Represents d side (own_side side placed (outcome side placed theirs) a p mine) s.left)
            stays k)

    added :
        (clock : ℕ → ℕ) (a : Ptr) (rest : List Ptr)
        → qty < 2 ^ 32
        → lookup id b.order_map ≡ none
        → b.order_pool.free_list ≡ a ∷ rest
        → LevelAvailable b price mine
        → b.order_pool.capacity < 2 ^ 64
        → ((p : Ptr) → VolumesFit (join side price (a, placed) p mine))
        → OutOfReach side placed theirs
        → (p : Ptr) × (d : OrderBook) × (add_order clock id side price qty limit b ≡ ok [] d)
          × Represents d side (join side price (a, placed) p mine) theirs
    added clock a rest small new free available few fits away =
        let stays = outcome-stop side placed theirs refl away in
        let fits' = λ (p : Ptr). subst VolumesFit (sym (own_side-join a p away)) (fits p) in
        let (p, d, run, r') =
          add_order_lem clock b side mine theirs r id price qty limit a rest valid small new free
            available few fits' in
        let silent =
          subst
            (λ (s : Swept).
              add_order clock id side price qty limit b ≡ ok (reports clock id 0 s.trades) d)
            stays run in
        (p, d, silent, placed-Represents d a p away r')

    -- On a book that represents two lists of levels, a new limit order that the best level of the
    -- other side does not meet, under the conditions of `add_order_lem`, is accepted without a
    -- trade; cancelling it then answers true, and the book represents the same two lists again;
    -- cancelling it once more answers false and changes nothing.
    pub cancel_order-add_order :
        (clock : ℕ → ℕ) (a : Ptr) (rest : List Ptr)
        → qty < 2 ^ 32
        → lookup id b.order_map ≡ none
        → b.order_pool.free_list ≡ a ∷ rest
        → LevelAvailable b price mine
        → b.order_pool.capacity < 2 ^ 64
        → ((p : Ptr) → VolumesFit (join side price (a, placed) p mine))
        → OutOfReach side placed theirs
        → (d e : OrderBook) × (add_order clock id side price qty limit b ≡ ok [] d)
          × (cancel_order id d ≡ ok true e)
          × Represents e side mine theirs
          × (cancel_order id e ≡ ok false e)
    cancel_order-add_order clock a rest small new free available few fits away =
        let (p, d, run, k) = added clock a rest small new free available few fits away in
        let (m, t) = both-Absent id new in
        let held = lookup-join id a placed refl side price p mine m in
        let (e, run', k') =
          cancel_order_lem d side (join side price (a, placed) p mine) theirs id a k (
            k.order_map id
            ∙ ap (λ o. first_some o (lookup id (order_index (orders_of theirs)))) held) in
        let mine' =
          less_order-some id a (join side price (a, placed) p mine) held
          ∙ cancel_from-join id a placed refl side price p mine m r.mine_stand in
        let back = subst (λ vs. Represents e side vs (less_order id theirs)) mine' k' in
        let back' = subst (λ vs. Represents e side mine vs) (less_order-none id theirs t) back in
        (d, e, run, run', back', cancel_order-unknown e id (back'.order_map id ∙ rw (m, t) refl))

  -- On a represented book that holds as many orders as its pool has slots, every call of addOrder,
  -- of a market order too, leaves the book as it is: it answers no trades if the quantity is 0 or
  -- the identifier is in use, and otherwise throws.
  pub add_order-full :
      (clock : ℕ → ℕ) (id price qty : ℕ) (type : OrderType)
      → length (orders_of mine) + length (orders_of theirs) ≡ b.order_pool.capacity
      → ((add_order clock id side price qty type b ≡ ok [] b)
          × ((qty ≡ 0) ⊎ ((a : Ptr) × (lookup id b.order_map ≡ some a))))
        ⊎ ((add_order clock id side price qty type b ≡ threw b)
            × (1 ≤ qty)
            × (lookup id b.order_map ≡ none))
  unfolding add_order
  add_order-full clock id price qty type full =
      let none_free = no_items b.order_pool.free_list (omega (arith, r.order_total)) in
      elim (Bool-cases (qty == 0)) [
        | inl zero_qty ↦ inl (rw zero_qty refl, inl (ground arith))
        | inr some_qty ↦ elim (Option-cases (lookup id b.order_map)) [
          | inl new ↦ inr (
            rw
                (
                  some_qty,
                  new,
                  allocate-full (new_order id price qty side type 0) b.order_pool none_free,
                )
                refl,
            ground arith,
            new,
          )
          | inr (a, known) ↦ inl (rw (some_qty, known) refl, inr (a, known))
        ]
      ]

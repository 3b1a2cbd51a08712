-- ===== src/Lob/OrderBook/Orders/JoinLaws.antt =====
-- What an order that comes to rest keeps of the lists of its side.
use object_oriented_programm.Prelude.{
  ℕ, ◌+◌, ◌≡◌, refl, ◌≤◌, true, false, List, [], ◌∷◌, ◌++◌, ◌==◌, if◌then◌else◌, arith, ==_iff,
  Bool-cases, inl, inr, ◌∙◌, sym,
}
use object_oriented_programm.Lob.Types.{Ptr, Side, buy, sell, Order}
use object_oriented_programm.Lob.PriceLevel.Chain.{Entry}
use object_oriented_programm.Lob.OrderBook.{before}
use object_oriented_programm.Lob.OrderBook.View.{Level, count, orders_of}
use object_oriented_programm.Lob.OrderBook.Represents.{
  ids, OrdersStand, LevelsStand, AllBehind, Sorted,
}
use object_oriented_programm.Lob.OrderBook.Matching.Sweep.{is_nil}
use object_oriented_programm.Lob.OrderBook.Matching.Ids.{count-ids}
use object_oriented_programm.Lob.OrderBook.Orders.Join.{join}

is_nil-snoc : (xs : List Entry) (e : Entry) → is_nil (xs ++ e ∷ []) ≡ false
is_nil-snoc [] e = refl
is_nil-snoc (x ∷ xs) e = refl

before-total :
    (side : Side) (p q : ℕ) → (q == p) ≡ false → before side p q ≡ false → before side q p ≡ true
before-total buy p q ne h = ground arith
before-total sell p q ne h = ground arith

before_trans :
    (side : Side) (p q r : ℕ)
    → before side p q ≡ true
    → before side q r ≡ true
    → before side p r ≡ true
before_trans buy p q r h k = ground arith
before_trans sell p q r h k = ground arith

pub AllBehind-trans :
    (side : Side) (p q : ℕ) (vs : List Level)
    → before side p q ≡ true
    → AllBehind side q vs
    → AllBehind side p vs
AllBehind-trans side p q [] h b = tt
AllBehind-trans side p q (v ∷ vs) h (b, bs) =
    (before_trans side p q v.price h b, AllBehind-trans side p q vs h bs)

OrdersStand-snoc :
    (side : Side) (price : ℕ) (xs : List Entry) (a : Ptr) (o : Order)
    → OrdersStand side price xs
    → 1 ≤ o.remaining_qty
    → o.side ≡ side
    → o.price ≡ price
    → OrdersStand side price (xs ++ (a, o) ∷ [])
OrdersStand-snoc side price [] a o s pos es ep = (pos, es, ep, tt)
OrdersStand-snoc side price ((b, u) ∷ xs) a o s pos es ep =
    (s.0, s.1, s.2, OrdersStand-snoc side price xs a o s.3 pos es ep)

module _ (side : Side) (price : ℕ) (a : Ptr) (o : Order) (p : Ptr) where
  pub join-LevelsStand :
      (vs : List Level)
      → LevelsStand side vs
      → 1 ≤ o.remaining_qty
      → o.side ≡ side
      → o.price ≡ price
      → LevelsStand side (join side price (a, o) p vs)
  unfolding join
  join-LevelsStand [] s pos es ep = (refl, (pos, es, ep, tt), tt)
  join-LevelsStand (v ∷ vs) (n, os, s) pos es ep = elim (Bool-cases (v.price == price)) [
    | inl e ↦
        let same : o.price ≡ v.price = ep ∙ sym ((==_iff v.price price).0 e) in
        rw e (
          is_nil-snoc v.orders (a, o),
          OrdersStand-snoc side v.price v.orders a o os pos es same,
          s,
        )
    | inr ne ↦ elim (Bool-cases (before side price v.price)) [
      | inl first ↦ rw (ne, first) (refl, (pos, es, ep, tt), (n, os, s))
      | inr later ↦ rw (ne, later) (n, os, join-LevelsStand vs s pos es ep)
    ]
  ]

  join-AllBehind :
      (q : ℕ) (vs : List Level)
      → AllBehind side q vs
      → before side q price ≡ true
      → AllBehind side q (join side price (a, o) p vs)
  unfolding join
  join-AllBehind q [] b h = (h, tt)
  join-AllBehind q (v ∷ vs) b h = elim (Bool-cases (v.price == price)) [
    | inl e ↦ rw e b
    | inr ne ↦ elim (Bool-cases (before side price v.price)) [
      | inl first ↦ rw (ne, first) (h, b)
      | inr later ↦ rw (ne, later) (b.0, join-AllBehind q vs b.1 h)
    ]
  ]

  pub join-Sorted : (vs : List Level) → Sorted side vs → Sorted side (join side price (a, o) p vs)
  unfolding join
  join-Sorted [] s = (tt, tt)
  join-Sorted (v ∷ vs) (b, s) = elim (Bool-cases (v.price == price)) [
    | inl e ↦ rw e (b, s)
    | inr ne ↦ elim (Bool-cases (before side price v.price)) [
      | inl first ↦ rw (ne, first) ((first, AllBehind-trans side price v.price vs first b), (b, s))
      | inr later ↦
          rw (ne, later)
            (
              join-AllBehind v.price vs b (before-total side price v.price ne later),
              join-Sorted vs s,
            )
    ]
  ]

  -- The order's identifier joins the others.
  pub join-ids :
      (id : ℕ) (vs : List Level)
      → count id (ids (orders_of (join side price (a, o) p vs)))
        ≡ (if o.id == id then 1 else 0) + count id (ids (orders_of vs))
  unfolding join
  join-ids id [] = omega arith
  join-ids id (v ∷ vs) = ground (
    arith,
    join-ids id vs,
    count-ids id (v.orders ++ (a, o) ∷ []) (orders_of vs),
    count-ids id v.orders ((a, o) ∷ []),
    count-ids id v.orders (orders_of vs),
    count-ids id v.orders (orders_of (join side price (a, o) p vs)),
  )

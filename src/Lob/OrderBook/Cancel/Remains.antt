-- ===== src/Lob/OrderBook/Cancel/Remains.antt =====
-- What is left of the lists of a side when an order goes.
use object_oriented_programm.Prelude.{
  append_assoc, ℕ, ◌+◌, ◌≡◌, refl, true, false, List, [], ◌∷◌, ◌++◌, ◌==◌, arith, lookup, erase, ap,
  ◌∙◌, sym,
}
use object_oriented_programm.Lob.Types.{Ptr, Side, buy, sell, Order}
use object_oriented_programm.Lob.PriceLevel.Chain.{Entry}
use object_oriented_programm.Lob.OrderBook.{before}
use object_oriented_programm.Lob.OrderBook.View.{Level, index, count, orders_of}
use object_oriented_programm.Lob.OrderBook.Represents.{
  order_index, ids, OrdersStand, LevelsStand, AllBehind, Sorted, lookup-index-append,
}
use object_oriented_programm.Lob.OrderBook.Matching.Ids.{count-ids}
use object_oriented_programm.Lob.OrderBook.Cancel.Lists.{kept_level, with_orders}

-- The orders of a side with the level `v` holding `xs` in the middle.
orders_of-middle :
    (ys : List Level) (v : Level) (xs : List Entry) (zs : List Level)
    → orders_of (ys ++ with_orders v xs ∷ zs) ≡ orders_of ys ++ (xs ++ orders_of zs)
orders_of-middle [] v xs zs = refl
orders_of-middle (u ∷ ys) v xs zs =
    rw (orders_of-middle ys v xs zs)
      (sym (append_assoc u.orders (orders_of ys) (xs ++ orders_of zs)))

orders_of-kept :
    (ys : List Level) (v : Level) (xs : List Entry) (zs : List Level)
    → orders_of (ys ++ (kept_level v xs ++ zs)) ≡ orders_of ys ++ (xs ++ orders_of zs)
orders_of-kept [] v [] zs = refl
orders_of-kept [] v (x ∷ xs) zs = refl
orders_of-kept (u ∷ ys) v xs zs =
    rw (orders_of-kept ys v xs zs) (sym (append_assoc u.orders (orders_of ys) (xs ++ orders_of zs)))

module _ (ys : List Level) (v : Level) (older : List Entry) (a : Ptr) (o : Order)
    (younger : List Entry) (zs : List Level) where
  abbrev pub was : List Level
  was = ys ++ with_orders v (older ++ (a, o) ∷ younger) ∷ zs

  abbrev pub remains : List Level
  remains = ys ++ (kept_level v (older ++ younger) ++ zs)

  abbrev pub earlier : List Entry
  earlier = orders_of ys ++ older

  abbrev pub later : List Entry
  later = younger ++ orders_of zs

  pub orders_of-was : orders_of was ≡ earlier ++ (a, o) ∷ later
  orders_of-was =
      orders_of-middle ys v (older ++ (a, o) ∷ younger) zs
      ∙ ap (◌++◌ (orders_of ys)) (append_assoc older ((a, o) ∷ younger) (orders_of zs))
      ∙ sym (append_assoc (orders_of ys) older ((a, o) ∷ later))

  pub orders_of-remains : orders_of remains ≡ earlier ++ later
  orders_of-remains =
      orders_of-kept ys v (older ++ younger) zs
      ∙ ap (◌++◌ (orders_of ys)) (append_assoc older younger (orders_of zs))
      ∙ sym (append_assoc (orders_of ys) older later)

  -- The identifiers of the side are the one that goes and those that stay.
  pub count-was :
      (id : ℕ)
      → count id (ids (orders_of was)) ≡ count id (o.id ∷ []) + count id (ids (orders_of remains))
  count-was id =
      rw (orders_of-was, orders_of-remains)
        (omega (arith, count-ids id earlier ((a, o) ∷ later), count-ids id earlier later))

  -- No other order is found elsewhere than before.
  pub lookup-was :
      (id : ℕ)
      → (o.id == id) ≡ false
      → lookup id (order_index (orders_of remains)) ≡ lookup id (order_index (orders_of was))
  lookup-was id ne =
      rw (orders_of-was, orders_of-remains)
        (ground (
          arith,
          lookup-index-append id earlier ((a, o) ∷ later),
          lookup-index-append id earlier later,
        ))

OrdersStand-gone :
    (side : Side) (price : ℕ) (older : List Entry) (a : Ptr) (o : Order) (younger : List Entry)
    → OrdersStand side price (older ++ (a, o) ∷ younger)
    → OrdersStand side price (older ++ younger)
OrdersStand-gone side price [] a o younger s = s.3
OrdersStand-gone side price ((b, u) ∷ older) a o younger s =
    (s.0, s.1, s.2, OrdersStand-gone side price older a o younger s.3)

pub OrdersStand-order :
    (side : Side) (price : ℕ) (older : List Entry) (a : Ptr) (o : Order) (younger : List Entry)
    → OrdersStand side price (older ++ (a, o) ∷ younger)
    → (o.side ≡ side) × (o.price ≡ price)
OrdersStand-order side price [] a o younger s = (s.1, s.2)
OrdersStand-order side price ((b, u) ∷ older) a o younger s =
    OrdersStand-order side price older a o younger s.3

pub level-OrdersStand :
    (side : Side) (ys : List Level) (v : Level) (zs : List Level)
    → LevelsStand side (ys ++ v ∷ zs)
    → OrdersStand side v.price v.orders
level-OrdersStand side [] v zs s = s.1
level-OrdersStand side (u ∷ ys) v zs s = level-OrdersStand side ys v zs s.2

kept-LevelsStand :
    (side : Side) (v : Level) (xs : List Entry) (zs : List Level)
    → OrdersStand side v.price xs
    → LevelsStand side zs
    → LevelsStand side (kept_level v xs ++ zs)
kept-LevelsStand side v [] zs s t = t
kept-LevelsStand side v (x ∷ xs) zs s t = (refl, s, t)

kept-AllBehind :
    (side : Side) (price : ℕ) (ys : List Level) (v : Level) (xs : List Entry) (zs : List Level)
    → AllBehind side price (ys ++ v ∷ zs)
    → AllBehind side price (ys ++ (kept_level v xs ++ zs))
kept-AllBehind side price [] v [] zs s = s.1
kept-AllBehind side price [] v (x ∷ xs) zs s = s
kept-AllBehind side price (u ∷ ys) v xs zs s = (s.0, kept-AllBehind side price ys v xs zs s.1)

pub remains-LevelsStand :
    (side : Side) (ys : List Level) (v : Level) (older : List Entry) (a : Ptr) (o : Order)
    (younger : List Entry) (zs : List Level)
    → LevelsStand side (was ys v older a o younger zs)
    → LevelsStand side (remains ys v older a o younger zs)
remains-LevelsStand side [] v older a o younger zs s =
    kept-LevelsStand side v (older ++ younger) zs
      (OrdersStand-gone side v.price older a o younger s.1) s.2
remains-LevelsStand side (u ∷ ys) v older a o younger zs s =
    (s.0, s.1, remains-LevelsStand side ys v older a o younger zs s.2)

kept-Sorted :
    (side : Side) (v : Level) (xs : List Entry) (zs : List Level)
    → Sorted side (v ∷ zs)
    → Sorted side (kept_level v xs ++ zs)
kept-Sorted side v [] zs s = s.1
kept-Sorted side v (x ∷ xs) zs s = s

pub remains-Sorted :
    (side : Side) (ys : List Level) (v : Level) (xs : List Entry) (zs : List Level)
    → Sorted side (ys ++ v ∷ zs)
    → Sorted side (ys ++ (kept_level v xs ++ zs))
remains-Sorted side [] v xs zs s = kept-Sorted side v xs zs s
remains-Sorted side (u ∷ ys) v xs zs s =
    (kept-AllBehind side u.price ys v xs zs s.0, remains-Sorted side ys v xs zs s.1)

before-ne : (side : Side) (p q : ℕ) → before side p q ≡ true → (p == q) ≡ false
before-ne buy p q h = ground arith
before-ne sell p q h = ground arith

before-ne-sym : (side : Side) (p q : ℕ) → before side p q ≡ true → (q == p) ≡ false
before-ne-sym buy p q h = ground arith
before-ne-sym sell p q h = ground arith

erase-behind :
    (side : Side) (price : ℕ) (zs : List Level)
    → AllBehind side price zs
    → erase price (index zs) ≡ index zs
unfolding erase
erase-behind side price [] b = refl
erase-behind side price (v ∷ zs) (b, bs) =
    rw (before-ne-sym side price v.price b, erase-behind side price zs bs)

AllBehind-level :
    (side : Side) (price : ℕ) (ys : List Level) (v : Level) (zs : List Level)
    → AllBehind side price (ys ++ v ∷ zs)
    → before side price v.price ≡ true
AllBehind-level side price [] v zs b = b.0
AllBehind-level side price (u ∷ ys) v zs b = AllBehind-level side price ys v zs b.1

-- Erasing the price of a level takes its entry, and no other, out of the map.
pub erase-index :
    (side : Side) (ys : List Level) (v : Level) (zs : List Level)
    → Sorted side (ys ++ v ∷ zs)
    → erase v.price (index (ys ++ v ∷ zs)) ≡ index (ys ++ zs)
unfolding erase
erase-index side [] v zs s = ground (arith, erase-behind side v.price zs s.0)
erase-index side (u ∷ ys) v zs s = rw (
  before-ne side u.price v.price (AllBehind-level side u.price ys v zs s.0),
  erase-index side ys v zs s.1,
)

-- The orders of a level do not matter to the map nor to the order of the prices.
pub index-orders :
    (ys : List Level) (v : Level) (xs us : List Entry) (zs : List Level)
    → index (ys ++ with_orders v xs ∷ zs) ≡ index (ys ++ with_orders v us ∷ zs)
index-orders [] v xs us zs = refl
index-orders (u ∷ ys) v xs us zs = ap (◌∷◌ (u.price, u.addr)) (index-orders ys v xs us zs)

AllBehind-orders :
    (side : Side) (price : ℕ) (ys : List Level) (v : Level) (xs us : List Entry) (zs : List Level)
    → AllBehind side price (ys ++ with_orders v xs ∷ zs)
    → AllBehind side price (ys ++ with_orders v us ∷ zs)
AllBehind-orders side price [] v xs us zs s = s
AllBehind-orders side price (u ∷ ys) v xs us zs s =
    (s.0, AllBehind-orders side price ys v xs us zs s.1)

pub Sorted-orders :
    (side : Side) (ys : List Level) (v : Level) (xs us : List Entry) (zs : List Level)
    → Sorted side (ys ++ with_orders v xs ∷ zs)
    → Sorted side (ys ++ with_orders v us ∷ zs)
Sorted-orders side [] v xs us zs s = s
Sorted-orders side (u ∷ ys) v xs us zs s =
    (AllBehind-orders side u.price ys v xs us zs s.0, Sorted-orders side ys v xs us zs s.1)

-- ===== src/Lob/OrderBook/Cancel/Gone.antt =====
-- cancelOrder on an order of a given level, from `find` to the slot given back.
use object_oriented_programm.Prelude.{
  ℕ, ◌≡◌, refl, true, Option, some, none, List, ◌∷◌, ◌++◌, ◌==◌, if◌then◌else◌, arith, lookup,
  erase, lookup-erase, ok, ap, ◌∙◌, Bool-cases, inl, inr,
}
use object_oriented_programm.Lob.Types.{Ptr, null, Side, buy, sell, Order}
use object_oriented_programm.Lob.Pool.Access.{with_storage, load-ok, store-ok}
use object_oriented_programm.Lob.PriceLevel.Chain.{Entry, linked}
use object_oriented_programm.Lob.PriceLevel.Represents.{level_of}
use object_oriented_programm.Lob.PriceLevel.Remove.{remove_lem}
use object_oriented_programm.Lob.OrderBook.{OrderBook, levels}
use object_oriented_programm.Lob.OrderBook.View.{Level, orders_of}
use object_oriented_programm.Lob.OrderBook.Represents.{
  Represents, opposite, order_index, first_some, lookup-none,
}
use object_oriented_programm.Lob.OrderBook.Orders.{leave_level, cancel_found}
use object_oriented_programm.Lob.OrderBook.Orders.Holding.{Holding, without_order, drop_lem}
use object_oriented_programm.Lob.OrderBook.Cancel.Lists.{with_orders}
use object_oriented_programm.Lob.OrderBook.Cancel.Remains.{
  was, remains, count-was, lookup-was, remains-LevelsStand, remains-Sorted, index-orders,
  Sorted-orders, level-OrdersStand, OrdersStand-order,
}
use object_oriented_programm.Lob.OrderBook.Cancel.Leave.{
  left_book, parted-Between, level_stands, order_at,
}
use object_oriented_programm.Lob.OrderBook.Cancel.Close.{Closed, close_lem}

left_book-levels :
    (side : Side) (b : OrderBook) (h : Ptr → Option Order) (p : Ptr) (price : ℕ) (xs : List Entry)
    → levels side (left_book b h p (level_of price xs)) ≡ levels side b
left_book-levels buy b h p price xs = refl
left_book-levels sell b h p price xs = refl

-- `orderMap_.erase(id)`.
abbrev forgotten : OrderBook → ℕ → OrderBook
forgotten d id = record d { order_map = erase id d.order_map }

forgotten-levels :
    (side : Side) (d : OrderBook) (id : ℕ) → levels side (forgotten d id) ≡ levels side d
forgotten-levels buy d id = refl
forgotten-levels sell d id = refl

module _ (b : OrderBook) (side : Side) (ys : List Level) (v : Level) (older : List Entry) (a : Ptr)
    (o : Order) (younger : List Entry) (zs theirs : List Level)
    (r : Represents b side (was ys v older a o younger zs) theirs) where
  abbrev mine' : List Level
  mine' = remains ys v older a o younger zs

  abbrev alone : Order
  alone = linked o null null null

  leave_lem :
      (c d : OrderBook) × (leave_level a v.addr b ≡ ok tt d)
      × Closed c d side a alone mine' theirs
      × (levels (opposite side) c ≡ levels (opposite side) b)
      × (c.order_map ≡ b.order_map)
  unfolding leave_level
  leave_lem =
      let l = level_stands b side ys v older a o younger zs theirs r in
      let (h, run, holds, at, same) =
        remove_lem v.price v.addr a o older younger b.order_pool l.holds in
      let c = left_book b h v.addr (level_of v.price (older ++ younger)) in
      let m = parted-Between b side ys v older a o younger zs theirs r h holds at same in
      let (es, ep) =
        OrdersStand-order side v.price older a o younger
          (level-OrdersStand side ys (with_orders v (older ++ (a, o) ∷ younger)) zs r.mine_stand) in
      let (d, end, k) =
        close_lem c side a alone ys v (older ++ younger) zs theirs m
          (left_book-levels side b h v.addr v.price (older ++ younger)
            ∙ r.mine_map
            ∙ index-orders ys v (older ++ (a, o) ∷ younger) (older ++ younger) zs)
          (Sorted-orders side ys v (older ++ (a, o) ∷ younger) (older ++ younger) zs
            r.mine_sorted) in
      (
        c,
        d,
        rw (
          l.ne_null,
          load-ok v.addr b.level_pool l.level_at,
          run,
          store-ok v.addr (level_of v.price (older ++ younger)) b.level_pool l.level_at,
          load-ok a (with_storage b.order_pool h) at,
          es,
          ep,
          end,
        ),
        k,
        left_book-levels (opposite side) b h v.addr v.price (older ++ younger),
        refl,
      )

  -- With the identifier forgotten, the order stands in the pool and in no list.
  gone-Holding :
      (c d : OrderBook)
      → Closed c d side a alone mine' theirs
      → levels (opposite side) c ≡ levels (opposite side) b
      → c.order_map ≡ b.order_map
      → Holding (forgotten d o.id) side a alone mine' theirs
  gone-Holding c d k e f = record {
    between = record {
      at = k.between.at;
      others = k.between.others;
      taker_at = k.between.taker_at;
      taker_small = k.between.taker_small;
      order_slots = k.between.order_slots;
      order_total = k.between.order_total;
      level_slots = k.between.level_slots;
    };
    mine_map = forgotten-levels side d o.id ∙ k.mine_map;
    theirs_map = forgotten-levels (opposite side) d o.id ∙ k.theirs_map ∙ e ∙ r.theirs_map;
    order_map = λ id.
        lookup-erase o.id id d.order_map
        ∙ ap (λ m. if o.id == id then none else lookup id m) (k.order_map ∙ f)
        ∙ found id;
    well_formed = record {
      mine_stand = remains-LevelsStand side ys v older a o younger zs r.mine_stand;
      theirs_stand = r.theirs_stand;
      mine_sorted =
          remains-Sorted side ys v (older ++ younger) zs
            (Sorted-orders side ys v (older ++ (a, o) ∷ younger) v.orders zs r.mine_sorted);
      theirs_sorted = r.theirs_sorted;
      unique = λ id. omega (arith, r.unique id, count-was ys v older a o younger zs id);
    };
  }
    where
      found :
          (id : ℕ)
          → (if o.id == id then none else lookup id b.order_map)
            ≡ first_some
                (lookup id (order_index (orders_of mine')))
                (lookup id (order_index (orders_of theirs)))
      found id = elim (Bool-cases (o.id == id)) [
        | inl e ↦
            let total = r.unique id in
            let was' = count-was ys v older a o younger zs id in
            let gone : lookup id (order_index (orders_of mine')) ≡ none =
              lookup-none id (orders_of mine') (ground arith) in
            let not_theirs : lookup id (order_index (orders_of theirs)) ≡ none =
              lookup-none id (orders_of theirs) (ground arith) in
            rw (e, gone, not_theirs)
        | inr ne ↦ rw (ne, r.order_map id, lookup-was ys v older a o younger zs id ne)
      ]

  -- The cancellation takes the order, and its level if it was the last, out of the book.
  pub gone_lem :
      (d : OrderBook) × (cancel_found o.id (some a) b ≡ ok true d) × Represents d side mine' theirs
  unfolding cancel_found
  gone_lem =
      let (c, d, run, k, e, f) = leave_lem in
      let (drop, r') =
        drop_lem (forgotten d o.id) side a alone mine' theirs (gone-Holding c d k e f) in
      (
        without_order (forgotten d o.id) a,
        rw (load-ok a b.order_pool (order_at b side ys v older a o younger zs theirs r), run, drop),
        r',
      )

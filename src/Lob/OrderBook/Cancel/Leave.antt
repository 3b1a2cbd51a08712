-- ===== src/Lob/OrderBook/Cancel/Leave.antt =====
-- remove on the level of an order that is cancelled, and removePriceLevelIfEmpty.
use object_oriented_programm.Prelude.{
  suc, ◌+◌, ◌≡◌, ◌≤◌, Option, some, List, [], ◌∷◌, ◌++◌, arith, length, length-append, ap, ◌∙◌,
}
use object_oriented_programm.Lob.Types.{Ptr, null, Side, Order}
use object_oriented_programm.Lob.Pool.{write}
use object_oriented_programm.Lob.Pool.Access.{with_storage, write_self, write-other}
use object_oriented_programm.Lob.PriceLevel.{PriceLevel}
use object_oriented_programm.Lob.PriceLevel.Chain.{
  Entry, addresses, linked, first, last, Seg-split, SameOutside, addresses-append,
}
use object_oriented_programm.Lob.PriceLevel.Represents.{level_of, volume-append, Holds}
use object_oriented_programm.Lob.OrderBook.{OrderBook}
use object_oriented_programm.Lob.OrderBook.View.{
  Level, LevelAt, LevelsAt-frame, level_addresses, orders_of, count, count-append, slot-le, not-has,
}
use object_oriented_programm.Lob.OrderBook.Represents.{Represents}
use object_oriented_programm.Lob.OrderBook.Matching.Between.{Between}
use object_oriented_programm.Lob.OrderBook.Orders.Open.{
  LevelsAt-append, LevelsAt-split, count-levels, count-side, length-side,
}
use object_oriented_programm.Lob.OrderBook.Cancel.Lists.{with_orders}
use object_oriented_programm.Lob.OrderBook.Cancel.Remains.{was}

-- The levels may be listed in another order.
pub sink :
    (b : OrderBook) (taker : Ptr) (t : Order) (ys : List Level) (v : Level) (zs ws : List Level)
    → Between b taker t (v ∷ (ys ++ zs)) ws
    → Between b taker t ws (ys ++ v ∷ zs)
sink b taker t ys v zs ws m =
    let h = b.order_pool.storage in
    let g = b.level_pool.storage in
    let (above, below) = LevelsAt-split h g ys zs m.at.1 in
    record {
      at = m.others;
      others = LevelsAt-append h g ys (v ∷ zs) above (m.at.0, below);
      taker_at = m.taker_at;
      taker_small = m.taker_small;
      order_slots = λ a. omega (
        arith,
        m.order_slots a,
        count-side a ys (v ∷ zs),
        count-side a (v ∷ []) zs,
        count-side a (v ∷ []) (ys ++ zs),
        count-side a ys zs,
      );
      order_total = omega (
        arith,
        m.order_total,
        length-side ys (v ∷ zs),
        length-side (v ∷ []) zs,
        length-side (v ∷ []) (ys ++ zs),
        length-side ys zs,
      );
      level_slots =
          λ p. omega (arith, m.level_slots p, count-levels p ys (v ∷ zs), count-levels p ys zs);
    }

pub swap :
    (b : OrderBook) (taker : Ptr) (t : Order) (vs ws : List Level)
    → Between b taker t vs ws
    → Between b taker t ws vs
swap b taker t vs ws m = record {
  at = m.others;
  others = m.at;
  taker_at = m.taker_at;
  taker_small = m.taker_small;
  order_slots = λ a. omega (arith, m.order_slots a);
  order_total = omega (arith, m.order_total);
  level_slots = λ p. omega (arith, m.level_slots p);
}

-- The book when `remove` has left the memory `h` of the orders and the level is written.
abbrev pub left_book : OrderBook → (Ptr → Option Order) → Ptr → PriceLevel → OrderBook
left_book b h p l = record b {
  order_pool = with_storage b.order_pool h;
  level_pool = with_storage b.level_pool (write b.level_pool.storage p (some l));
}

module _ (b : OrderBook) (side : Side) (ys : List Level) (v : Level) (older : List Entry) (a : Ptr)
    (o : Order) (younger : List Entry) (zs theirs : List Level)
    (r : Represents b side (was ys v older a o younger zs) theirs) where
  abbrev whole : List Entry
  whole = older ++ (a, o) ∷ younger

  pub level_stands : LevelAt b.order_pool.storage b.level_pool.storage (with_orders v whole)
  level_stands =
      (LevelsAt-split b.order_pool.storage b.level_pool.storage ys (with_orders v whole ∷ zs)
        r.mine_at).1.0

  -- The order stands in the pool, linked to its level.
  pub order_at :
      b.order_pool.storage a ≡ some (linked o v.addr (last null older) (first younger null))
  order_at =
      (Seg-split b.order_pool.storage v.addr null older ((a, o) ∷ younger) null
        level_stands.holds.1).1.1

  count-whole :
      (c : Ptr)
      → count c (addresses whole) ≡ count c (a ∷ []) + count c (addresses (older ++ younger))
  count-whole c = omega (
    arith,
    ap (count c) (addresses-append older ((a, o) ∷ younger)),
    ap (count c) (addresses-append older younger),
    count-append c (addresses older) (a ∷ addresses younger),
    count-append c (addresses older) (addresses younger),
  )

  count-was_side :
      (c : Ptr)
      → count c (addresses (orders_of (was ys v older a o younger zs)))
        ≡ count c (a ∷ [])
          + count c (addresses (older ++ younger))
          + count c (addresses (orders_of (ys ++ zs)))
  count-was_side c = omega (
    arith,
    count-whole c,
    count-side c ys (with_orders v whole ∷ zs),
    ap (count c) (addresses-append whole (orders_of zs)),
    count-append c (addresses whole) (addresses (orders_of zs)),
    count-side c ys zs,
  )

  length-was_side :
      length (orders_of (was ys v older a o younger zs))
      ≡ suc (length (older ++ younger) + length (orders_of (ys ++ zs)))
  length-was_side = omega (
    arith,
    length-side ys (with_orders v whole ∷ zs),
    length-append whole (orders_of zs),
    length-append older ((a, o) ∷ younger),
    length-append older younger,
    length-side ys zs,
  )

  count-shorter :
      (c : Ptr) (v' : Level) (us : List Level)
      → count c (addresses (orders_of (v' ∷ us)))
        ≡ count c (addresses v'.orders) + count c (addresses (orders_of us))
  count-shorter c v' us =
      ap (count c) (addresses-append v'.orders (orders_of us))
      ∙ count-append c (addresses v'.orders) (addresses (orders_of us))

  module _ (h : Ptr → Option Order) (holds : Holds h v.addr (older ++ younger))
      (at : h a ≡ some (linked o null null null))
      (same : SameOutside (addresses whole) b.order_pool.storage h) where
    abbrev parted : OrderBook
    parted = left_book b h v.addr (level_of v.price (older ++ younger))

    spared_order :
        (c : Ptr)
        → 1 ≤ count c (addresses (orders_of (ys ++ zs))) + count c (addresses (orders_of theirs))
        → h c ≡ b.order_pool.storage c
    spared_order c i = same c (
        not-has c (addresses whole) (
          omega (
            arith,
            r.order_slots c,
            slot-le b.order_pool.capacity c,
            count-was_side c,
            count-whole c,
          )))

    spared_level :
        (p : Ptr)
        → 1 ≤ count p (level_addresses (ys ++ zs)) + count p (level_addresses theirs)
        → parted.level_pool.storage p ≡ b.level_pool.storage p
    spared_level p i = write-other b.level_pool.storage v.addr p _ (
        ground (
          arith,
          r.level_slots p,
          slot-le b.level_pool.capacity p,
          count-levels p ys (with_orders v whole ∷ zs),
          count-levels p ys zs,
        ))

    pub parted-Between :
        Between parted a
          (linked o null null null)
          (with_orders v (older ++ younger) ∷ (ys ++ zs))
          theirs
    parted-Between =
        let s = b.order_pool.storage in
        let g = b.level_pool.storage in
        let g' = parted.level_pool.storage in
        let (above, (here, below)) = LevelsAt-split s g ys (with_orders v whole ∷ zs) r.mine_at in
        record {
          at = (
            record {
              ne_null = here.ne_null;
              level_at = write_self g v.addr _;
              holds = holds;
              volume_small = ground (
                arith,
                level_stands.volume_small,
                volume-append older ((a, o) ∷ younger),
                volume-append older younger,
              );
            },
            LevelsAt-frame s h g g' (ys ++ zs) (λ c i. spared_order c (omega arith))
                (λ p i. spared_level p (omega arith)) (LevelsAt-append s g ys zs above below),
          );
          others =
              LevelsAt-frame s h g g' theirs (λ c i. spared_order c (omega arith))
                (λ p i. spared_level p (omega arith)) r.theirs_at;
          taker_at = at;
          taker_small =
              ground (arith, level_stands.volume_small, volume-append older ((a, o) ∷ younger));
          order_slots = λ c. omega (
            arith,
            r.order_slots c,
            count-was_side c,
            count-shorter c (with_orders v (older ++ younger)) (ys ++ zs),
          );
          order_total = omega (
            arith,
            r.order_total,
            length-was_side,
            length-append (older ++ younger) (orders_of (ys ++ zs)),
          );
          level_slots = λ p. omega (
            arith,
            r.level_slots p,
            count-levels p ys (with_orders v whole ∷ zs),
            count-levels p ys zs,
          );
        }

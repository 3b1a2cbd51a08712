-- ===== src/Lob/OrderBook/Matching/Between.antt =====
-- The state between two rounds of the outer matching loop.
use object_oriented_programm.Prelude.{
  ℕ, suc, ◌+◌, ◌≡◌, refl, ◌≤◌, ◌<◌, ◌^◌, some, none, List, [], ◌∷◌, ◌++◌, arith, length,
  length-append, ap, ◌∙◌,
}
use object_oriented_programm.Lob.Types.{Ptr, Order, Side, buy, sell}
use object_oriented_programm.Lob.Pool.{write}
use object_oriented_programm.Lob.Pool.Access.{write-other}
use object_oriented_programm.Lob.PriceLevel.Chain.{Entry, addresses, addresses-append}
use object_oriented_programm.Lob.OrderBook.{OrderBook, with_levels}
use object_oriented_programm.Lob.OrderBook.View.{
  Level, LevelsAt, LevelsAt-frame, level_addresses, orders_of, slot, slot-le, count, count-append,
  not-has,
}
use object_oriented_programm.Lob.OrderBook.Matching.Ready.{Ready}
use object_oriented_programm.Lob.OrderBook.Matching.Fill.{fill}
use object_oriented_programm.Lob.OrderBook.Matching.Sweep.{fill-count, fill-length}
use object_oriented_programm.Lob.OrderBook.Matching.LevelLoop.{LevelFilled, give_back}

-- The taker `t` stands at `taker`, in no list; `vs` are the levels that the iterator has before
-- it and `ws` all the others; every slot of the pools is accounted for.
pub record Between (b : OrderBook) (taker : Ptr) (t : Order) (vs ws : List Level) : Type 0 where
  pub at : LevelsAt b.order_pool.storage b.level_pool.storage vs
  pub others : LevelsAt b.order_pool.storage b.level_pool.storage ws
  pub taker_at : b.order_pool.storage taker ≡ some t
  pub taker_small : t.remaining_qty < 2 ^ 32
  pub order_slots :
      (a : Ptr)
      → count a (taker ∷ [])
          + count a (addresses (orders_of vs))
          + count a (addresses (orders_of ws))
          + count a b.order_pool.free_list
        ≡ slot b.order_pool.capacity a
  pub order_total :
      suc (length (orders_of vs) + length (orders_of ws) + length b.order_pool.free_list)
      ≡ b.order_pool.capacity
  pub level_slots :
      (p : Ptr)
      → count p (level_addresses vs) + count p (level_addresses ws) + count p b.level_pool.free_list
        ≡ slot b.level_pool.capacity p

count-give_back :
    (a : Ptr) (us : List Entry) (free : List Ptr)
    → count a (give_back us free) ≡ count a (addresses us) + count a free
count-give_back a [] free = omega arith
count-give_back a ((p, o) ∷ us) free = omega (arith, count-give_back a us (p ∷ free))

length-give_back :
    (us : List Entry) (free : List Ptr) → length (give_back us free) ≡ length us + length free
length-give_back [] free = omega arith
length-give_back ((p, o) ∷ us) free = omega (arith, length-give_back us (p ∷ free))

count-orders :
    (a : Ptr) (xs ys : List Entry)
    → count a (addresses (xs ++ ys)) ≡ count a (addresses xs) + count a (addresses ys)
count-orders a xs ys =
    ap (count a) (addresses-append xs ys) ∙ count-append a (addresses xs) (addresses ys)

module _ (b : OrderBook) (taker : Ptr) (t : Order) (v : Level) (vs ws : List Level)
    (m : Between b taker t (v ∷ vs) ws) where
  pub Between-Ready : Ready b v.addr taker t v.price v.orders
  Between-Ready = record {
    level_at = m.at.0.level_at;
    taker_at = m.taker_at;
    holds = m.at.0.holds;
    apart = not-has taker (addresses v.orders) (
        ground (
          arith,
          m.order_slots taker,
          slot-le b.order_pool.capacity taker,
          count-orders taker v.orders (orders_of vs),
        ));
    taker_small = m.taker_small;
    volume_small = m.at.0.volume_small;
  }

  -- The inner loop has gone through the orders of `v`.
  module _ (c : OrderBook) where
    pub filled-Between :
        let f = fill t.remaining_qty v.orders in
        LevelFilled v.addr taker t v.price v.orders f b c
        → Between c taker
            (record t { remaining_qty = f.rest })
            (record v { orders = f.left } ∷ vs)
            ws
    filled-Between l =
        let f = fill t.remaining_qty v.orders in
        let spared =
          λ (a : Ptr)
              (i : 1 ≤ count a (addresses (orders_of vs)) + count a (addresses (orders_of ws))).
            l.kept.order_same a (
              not-has a (taker ∷ addresses v.orders) (
                omega (
                  arith,
                  m.order_slots a,
                  slot-le b.order_pool.capacity a,
                  count-orders a v.orders (orders_of vs),
                ))) in
        let level_spared =
          λ (p : Ptr) (i : 1 ≤ count p (level_addresses vs) + count p (level_addresses ws)).
            l.kept.level_same p
              (ground (arith, m.level_slots p, slot-le b.level_pool.capacity p)) in
        record {
          at = (
            record {
              ne_null = m.at.0.ne_null;
              level_at = l.ready.level_at;
              holds = l.ready.holds;
              volume_small = l.ready.volume_small;
            },
            LevelsAt-frame b.order_pool.storage c.order_pool.storage b.level_pool.storage
                c.level_pool.storage vs (λ a i. spared a (omega arith))
                (λ p i. level_spared p (omega arith)) m.at.1,
          );
          others =
              LevelsAt-frame b.order_pool.storage c.order_pool.storage b.level_pool.storage
                c.level_pool.storage ws (λ a i. spared a (omega arith))
                (λ p i. level_spared p (omega arith)) m.others;
          taker_at = l.ready.taker_at;
          taker_small = l.ready.taker_small;
          order_slots = λ a.
              rw (l.kept.order_capacity, l.order_free)
                (omega (
                  arith,
                  m.order_slots a,
                  fill-count a t.remaining_qty v.orders,
                  count-give_back a f.used b.order_pool.free_list,
                  count-orders a v.orders (orders_of vs),
                  count-orders a f.left (orders_of vs),
                ));
          order_total =
              rw (l.kept.order_capacity, l.order_free)
                (omega (
                  arith,
                  m.order_total,
                  fill-length t.remaining_qty v.orders,
                  length-give_back f.used b.order_pool.free_list,
                  length-append v.orders (orders_of vs),
                  length-append f.left (orders_of vs),
                ));
          level_slots = λ p. rw (l.kept.level_capacity, l.kept.level_free) (m.level_slots p);
        }

-- The book after `levelPool_.deallocate(level)`.
abbrev pub without_level : OrderBook → Ptr → OrderBook
without_level b p = record b {
  level_pool = record {
    storage = write b.level_pool.storage p none;
    free_list = p ∷ b.level_pool.free_list;
    capacity = b.level_pool.capacity;
  };
}

-- An empty level goes back to its pool.
pub dropped-Between :
    (b : OrderBook) (taker : Ptr) (t : Order) (v : Level) (vs ws : List Level)
    → v.orders ≡ []
    → Between b taker t (v ∷ vs) ws
    → Between (without_level b v.addr) taker t vs ws
dropped-Between b taker t v vs ws e m =
    let h = b.order_pool.storage in
    let g = b.level_pool.storage in
    let spared = λ (p : Ptr) (i : 1 ≤ count p (level_addresses vs) + count p (level_addresses ws)).
      write-other g v.addr p none
        (ground (arith, m.level_slots p, slot-le b.level_pool.capacity p)) in
    record {
      at =
          LevelsAt-frame h h g (write g v.addr none) vs (λ a i. refl)
            (λ p i. spared p (omega arith)) m.at.1;
      others =
          LevelsAt-frame h h g (write g v.addr none) ws (λ a i. refl)
            (λ p i. spared p (omega arith)) m.others;
      taker_at = m.taker_at;
      taker_small = m.taker_small;
      order_slots = λ a. omega (
        arith,
        m.order_slots a,
        count-orders a v.orders (orders_of vs),
        ap (λ xs. count a (addresses xs)) e,
      );
      order_total =
          omega
            (arith, m.order_total, length-append v.orders (orders_of vs), ap (λ xs. length xs) e);
      level_slots = λ p. omega (arith, m.level_slots p);
    }

-- The maps do not matter to the pools.
pub Between-levels :
    (c : OrderBook) (side : Side) (m : List (ℕ × Ptr)) (taker : Ptr) (t : Order)
    (vs ws : List Level)
    → Between c taker t vs ws
    → Between (with_levels side m c) taker t vs ws
Between-levels c buy m taker t vs ws k = record {
  at = k.at;
  others = k.others;
  taker_at = k.taker_at;
  taker_small = k.taker_small;
  order_slots = k.order_slots;
  order_total = k.order_total;
  level_slots = k.level_slots;
}
Between-levels c sell m taker t vs ws k = record {
  at = k.at;
  others = k.others;
  taker_at = k.taker_at;
  taker_small = k.taker_small;
  order_slots = k.order_slots;
  order_total = k.order_total;
  level_slots = k.level_slots;
}

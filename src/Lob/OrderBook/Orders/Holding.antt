-- ===== src/Lob/OrderBook/Orders/Holding.antt =====
-- The book while an incoming order is matched: it stands in the pool and in no list.
use object_oriented_programm.Prelude.{
  ℕ, ◌+◌, ◌≡◌, refl, ◌≤◌, ◌<◌, ◌^◌, false, some, none, List, ◌∷◌, ◌==◌, arith, length, lookup, ok,
  ap, ◌∙◌,
}
use object_oriented_programm.Lob.Types.{Ptr, null, Side, buy, sell, Order}
use object_oriented_programm.Lob.Pool.{write, allocate, deallocate}
use object_oriented_programm.Lob.Pool.Access.{allocate-ok, deallocate-ok, write_self, write-other}
use object_oriented_programm.Lob.PriceLevel.Chain.{addresses}
use object_oriented_programm.Lob.OrderBook.{OrderBook, levels, on_orders}
use object_oriented_programm.Lob.OrderBook.View.{
  Level, LevelsAt-frame, index, count, slot-le, orders_of,
}
use object_oriented_programm.Lob.OrderBook.Represents.{
  Represents, WellFormed, opposite, order_index, first_some,
}
use object_oriented_programm.Lob.OrderBook.Matching.Between.{Between}

-- `taker` holds `t`; `mine` are the levels on the taker's side, `theirs` those that it meets.
pub record Holding (b : OrderBook) (side : Side) (taker : Ptr) (t : Order)
    (mine theirs : List Level) : Type 0 where
  pub between : Between b taker t theirs mine
  pub mine_map : levels side b ≡ index mine
  pub theirs_map : levels (opposite side) b ≡ index theirs
  pub order_map :
      (id : ℕ)
      → lookup id b.order_map
        ≡ first_some
            (lookup id (order_index (orders_of mine)))
            (lookup id (order_index (orders_of theirs)))
  pub well_formed : WellFormed side mine theirs

-- The book after the pool gave the slot `p` to the order `t`; `rest` are the free slots left.
abbrev pub with_order : OrderBook → Ptr → Order → List Ptr → OrderBook
with_order b p t rest = record b {
  order_pool = record {
    storage = write b.order_pool.storage p (some t);
    free_list = rest;
    capacity = b.order_pool.capacity;
  };
}

module _ (b : OrderBook) (side : Side) (mine theirs : List Level)
    (r : Represents b side mine theirs) where
  allocate-Holding :
      (p : Ptr) (rest : List Ptr) (t : Order)
      → b.order_pool.free_list ≡ p ∷ rest
      → t.remaining_qty < 2 ^ 32
      → levels side (with_order b p t rest) ≡ levels side b
      → levels (opposite side) (with_order b p t rest) ≡ levels (opposite side) b
      → Holding (with_order b p t rest) side p t mine theirs
  allocate-Holding p rest t free small em et =
      let h = b.order_pool.storage in
      let g = b.level_pool.storage in
      let freed = λ (a : Ptr). ap (count a) free in
      let spared =
        λ (a : Ptr)
            (i : 1 ≤ count a (addresses (orders_of mine)) + count a (addresses (orders_of theirs))).
          write-other h p a (some t)
            (ground (arith, freed a, r.order_slots a, slot-le b.order_pool.capacity a)) in
      record {
        between = record {
          at =
              LevelsAt-frame h (write h p (some t)) g g theirs (λ a i. spared a (omega arith))
                (λ q i. refl) r.theirs_at;
          others =
              LevelsAt-frame h (write h p (some t)) g g mine (λ a i. spared a (omega arith))
                (λ q i. refl) r.mine_at;
          taker_at = write_self h p (some t);
          taker_small = small;
          order_slots = λ a. omega (arith, freed a, r.order_slots a);
          order_total = omega (arith, ap (λ ps. length ps) free, r.order_total);
          level_slots = λ q. omega (arith, r.level_slots q);
        };
        mine_map = em ∙ r.mine_map;
        theirs_map = et ∙ r.theirs_map;
        order_map = r.order_map;
        well_formed = r.well_formed;
      }

  -- allocate gives the incoming order a slot that no order of the book has.
  pub allocate_lem :
      (p : Ptr) (rest : List Ptr) (t : Order)
      → b.order_pool.free_list ≡ p ∷ rest
      → t.remaining_qty < 2 ^ 32
      → (on_orders (allocate t) b ≡ ok p (with_order b p t rest))
        × Holding (with_order b p t rest) side p t mine theirs
  allocate_lem p rest t free small = (
    rw (allocate-ok t p rest b.order_pool free),
    allocate-Holding p rest t free small (levels_same side) (levels_same (opposite side)),
  )
    where
      levels_same : (s : Side) → levels s (with_order b p t rest) ≡ levels s b
      levels_same buy = refl
      levels_same sell = refl

-- The book after the slot `p` came back to the pool.
abbrev pub without_order : OrderBook → Ptr → OrderBook
without_order b p = record b {
  order_pool = record {
    storage = write b.order_pool.storage p none;
    free_list = p ∷ b.order_pool.free_list;
    capacity = b.order_pool.capacity;
  };
}

module _ (b : OrderBook) (side : Side) (taker : Ptr) (t : Order) (mine theirs : List Level)
    (m : Holding b side taker t mine theirs) where
  pub taker-ne-null : (taker == null) ≡ false
  taker-ne-null = ground (arith, m.between.order_slots null)

  drop-Represents :
      levels side (without_order b taker) ≡ levels side b
      → levels (opposite side) (without_order b taker) ≡ levels (opposite side) b
      → Represents (without_order b taker) side mine theirs
  drop-Represents em et =
      let h = b.order_pool.storage in
      let g = b.level_pool.storage in
      let spared =
        λ (a : Ptr)
            (i : 1 ≤ count a (addresses (orders_of mine)) + count a (addresses (orders_of theirs))).
          write-other h taker a none
            (ground (arith, m.between.order_slots a, slot-le b.order_pool.capacity a)) in
      record {
        mine_map = em ∙ m.mine_map;
        theirs_map = et ∙ m.theirs_map;
        mine_at =
            LevelsAt-frame h (write h taker none) g g mine (λ a i. spared a (omega arith))
              (λ q i. refl) m.between.others;
        theirs_at =
            LevelsAt-frame h (write h taker none) g g theirs (λ a i. spared a (omega arith))
              (λ q i. refl) m.between.at;
        order_slots = λ a. omega (arith, m.between.order_slots a);
        order_total = omega (arith, m.between.order_total);
        level_slots = λ q. omega (arith, m.between.level_slots q);
        order_map = m.order_map;
        well_formed = m.well_formed;
      }

  -- An order that does not rest gives its slot back.
  pub drop_lem :
      (on_orders (deallocate taker) b ≡ ok tt (without_order b taker))
      × Represents (without_order b taker) side mine theirs
  drop_lem = (
    rw (deallocate-ok taker b.order_pool taker-ne-null m.between.taker_at),
    drop-Represents (levels_same side) (levels_same (opposite side)),
  )
    where
      levels_same : (s : Side) → levels s (without_order b taker) ≡ levels s b
      levels_same buy = refl
      levels_same sell = refl

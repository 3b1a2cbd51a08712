-- ===== src/Lob/OrderBook/Orders/Append.antt =====
-- PriceLevel::append on a level of the book, for an order that comes to rest.
use object_oriented_programm.Prelude.{
  ℕ, ◌+◌, ◌≡◌, refl, ◌≤◌, ◌<◌, ◌^◌, Option, some, List, [], ◌∷◌, ◌++◌, arith, length-append, lookup,
  insert, lookup-insert, ok, ap,
}
use object_oriented_programm.Lob.Types.{Ptr, null, Order}
use object_oriented_programm.Lob.Pool.{write}
use object_oriented_programm.Lob.Pool.Access.{with_storage, write_self, write-other}
use object_oriented_programm.Lob.PriceLevel.{PriceLevel}
use object_oriented_programm.Lob.PriceLevel
use object_oriented_programm.Lob.PriceLevel.Chain.{addresses, addresses-append, SameOutside}
use object_oriented_programm.Lob.PriceLevel.Represents.{level_of, volume, Holds, append_lem}
use object_oriented_programm.Lob.OrderBook.{OrderBook}
use object_oriented_programm.Lob.OrderBook.View.{
  Level, LevelAt, LevelsAt, LevelsAt-frame, level_addresses, count, count-append, not-has, slot,
  slot-le, orders_of,
}
use object_oriented_programm.Lob.OrderBook.Represents.{
  order_index, ids, first_some, lookup-none, lookup-index-append,
}
use object_oriented_programm.Lob.OrderBook.Matching.Between.{Between}
use object_oriented_programm.Lob.OrderBook.Matching.Ids.{count-ids}
use object_oriented_programm.Lob.OrderBook.Orders.Join.{with_entry}
use object_oriented_programm.Lob.OrderBook.Orders.Open.{
  LevelsAt-append, LevelsAt-split, count-levels, count-side, length-side,
}

-- No level holds 2 ^ 32 units or more.
abbrev pub VolumesFit : List Level → Type 0
VolumesFit [] = Unit {0}
VolumesFit (v ∷ vs) = (volume v.orders < 2 ^ 32) × VolumesFit vs

VolumesFit-middle :
    (ys : List Level) (v : Level) (zs : List Level)
    → VolumesFit (ys ++ v ∷ zs)
    → volume v.orders < 2 ^ 32
VolumesFit-middle [] v zs f = f.0
VolumesFit-middle (y ∷ ys) v zs f = VolumesFit-middle ys v zs f.1

lookup-side :
    (id : ℕ) (ys zs : List Level)
    → lookup id (order_index (orders_of (ys ++ zs)))
      ≡ first_some (lookup id (order_index (orders_of ys))) (lookup id (order_index (orders_of zs)))
lookup-side id [] zs = refl
lookup-side id (v ∷ ys) zs = ground (
  arith,
  lookup-side id ys zs,
  lookup-index-append id v.orders (orders_of (ys ++ zs)),
  lookup-index-append id v.orders (orders_of ys),
)

count-ids-side :
    (id : ℕ) (ys zs : List Level)
    → count id (ids (orders_of (ys ++ zs)))
      ≡ count id (ids (orders_of ys)) + count id (ids (orders_of zs))
count-ids-side id [] zs = omega arith
count-ids-side id (v ∷ ys) zs = omega (
  arith,
  count-ids-side id ys zs,
  count-ids id v.orders (orders_of (ys ++ zs)),
  count-ids id v.orders (orders_of ys),
)

-- Where the order's identifier leads, once it is in the map and in its level.
pub joined-lookup :
    (id : ℕ) (a : Ptr) (o : Order) (ys : List Level) (v : Level) (zs ws : List Level)
    (m : List (ℕ × Ptr))
    → count o.id (ids (orders_of (ys ++ v ∷ zs))) + count o.id (ids (orders_of ws)) ≡ 0
    → lookup id m
      ≡ first_some
          (lookup id (order_index (orders_of (ys ++ v ∷ zs))))
          (lookup id (order_index (orders_of ws)))
    → lookup id (insert o.id a m)
      ≡ first_some
          (lookup id (order_index (orders_of (ys ++ with_entry v (a, o) ∷ zs))))
          (lookup id (order_index (orders_of ws)))
joined-lookup id a o ys v zs ws m fresh e = ground (
  arith,
  e,
  lookup-insert o.id id a m,
  lookup-side id ys (v ∷ zs),
  lookup-side id ys (with_entry v (a, o) ∷ zs),
  lookup-index-append id v.orders (orders_of zs),
  lookup-index-append id (v.orders ++ (a, o) ∷ []) (orders_of zs),
  lookup-index-append id v.orders ((a, o) ∷ []),
  count-ids-side o.id ys (v ∷ zs),
  count-ids o.id v.orders (orders_of zs),
  lookup-none o.id (orders_of ys),
  lookup-none o.id v.orders,
  lookup-none o.id (orders_of ws),
)

-- The book after the order at `taker` was appended to `level`, with the links in `h`.
abbrev pub rested : OrderBook → (Ptr → Option Order) → Ptr → Order → Level → OrderBook
rested c h taker t level = record c {
  order_pool = with_storage c.order_pool h;
  level_pool = with_storage c.level_pool (
      write c.level_pool.storage level.addr
        (some (level_of level.price (level.orders ++ (taker, t) ∷ []))));
  order_map = insert t.id taker c.order_map;
}

-- What append did to the memory of the orders.
abbrev pub Appended : OrderBook → (Ptr → Option Order) → Ptr → Order → Level → Type 0
Appended c h taker t level =
    (PriceLevel.append level.addr (level_of level.price level.orders) taker c.order_pool
      ≡ ok (level_of level.price (level.orders ++ (taker, t) ∷ [])) (with_storage c.order_pool h))
    × Holds h level.addr (level.orders ++ (taker, t) ∷ [])
    × SameOutside (taker ∷ addresses level.orders) c.order_pool.storage h

module _ (c : OrderBook) (taker : Ptr) (t : Order) (theirs ahead : List Level) (level : Level)
    (behind : List Level) (k : Between c taker t theirs (ahead ++ level ∷ behind)) where
  pub at_level : LevelAt c.order_pool.storage c.level_pool.storage level
  at_level =
      (LevelsAt-split c.order_pool.storage c.level_pool.storage ahead (level ∷ behind) k.others).1.0

  pub slots :
      (a : Ptr)
      → count a (taker ∷ [])
          + count a (addresses (orders_of theirs))
          + count a (addresses (orders_of ahead))
          + count a (addresses level.orders)
          + count a (addresses (orders_of behind))
          + count a c.order_pool.free_list
        ≡ slot c.order_pool.capacity a
  slots a = omega (
    arith,
    k.order_slots a,
    count-side a ahead (level ∷ behind),
    ap (count a) (addresses-append level.orders (orders_of behind)),
    count-append a (addresses level.orders) (addresses (orders_of behind)),
  )

  pub level_slots :
      (q : Ptr)
      → count q (level_addresses theirs)
          + count q (level_addresses ahead)
          + count q (level.addr ∷ [])
          + count q (level_addresses behind)
          + count q c.level_pool.free_list
        ≡ slot c.level_pool.capacity q
  level_slots q = omega (arith, k.level_slots q, count-levels q ahead (level ∷ behind))

  pub append_run :
      VolumesFit (ahead ++ with_entry level (taker, t) ∷ behind)
      → c.order_pool.capacity < 2 ^ 64
      → (h : Ptr → Option Order) × Appended c h taker t level
  append_run fit few =
      let (h, run, holds, same) =
        append_lem level.price level.addr taker t level.orders c.order_pool
          (ground (arith, slots null))
          (not-has taker (addresses level.orders)
            (ground (arith, slots taker, slot-le c.order_pool.capacity taker)))
          k.taker_at at_level.holds
          (
            VolumesFit-middle ahead (with_entry level (taker, t)) behind fit,
            omega (
              arith,
              k.order_total,
              length-side ahead (level ∷ behind),
              length-append level.orders (orders_of behind),
              length-append level.orders ((taker, t) ∷ []),
            ),
          ) in
      (h, (run, holds, same))

  module _ (h : Ptr → Option Order) (done : Appended c h taker t level)
      (fit : VolumesFit (ahead ++ with_entry level (taker, t) ∷ behind)) where
    pub rested-frame :
        (vs : List Level)
        → ((a : Ptr)
            → count a (addresses (orders_of vs))
              ≤ count a (addresses (orders_of theirs))
                + count a (addresses (orders_of ahead))
                + count a (addresses (orders_of behind)))
        → ((q : Ptr)
            → count q (level_addresses vs)
              ≤ count q (level_addresses theirs)
                + count q (level_addresses ahead)
                + count q (level_addresses behind))
        → LevelsAt c.order_pool.storage c.level_pool.storage vs
        → LevelsAt h (rested c h taker t level).level_pool.storage vs
    rested-frame vs among levels_among =
        LevelsAt-frame c.order_pool.storage h c.level_pool.storage
          (rested c h taker t level).level_pool.storage vs
          (λ a i. done.2 a (
            not-has a (taker ∷ addresses level.orders)
              (omega (arith, slots a, slot-le c.order_pool.capacity a, among a))))
          (λ q i.
            write-other c.level_pool.storage level.addr q _
              (ground (arith, level_slots q, slot-le c.level_pool.capacity q, levels_among q)))

    pub rested-LevelsAt :
        LevelsAt h
          (rested c h taker t level).level_pool.storage
          (ahead ++ with_entry level (taker, t) ∷ behind)
    rested-LevelsAt =
        let (at_ahead, at_rest) =
          LevelsAt-split c.order_pool.storage c.level_pool.storage ahead (level ∷ behind)
            k.others in
        LevelsAt-append h _ ahead (with_entry level (taker, t) ∷ behind)
          (rested-frame ahead (λ a. omega arith) (λ q. omega arith) at_ahead)
          (
            record {
              ne_null = at_level.ne_null;
              level_at = write_self c.level_pool.storage level.addr _;
              holds = done.1;
              volume_small = VolumesFit-middle ahead (with_entry level (taker, t)) behind fit;
            },
            rested-frame behind (λ a. omega arith) (λ q. omega arith) at_rest.1,
          )

-- ===== src/Lob/OrderBook/Cancel/Close.antt =====
-- removePriceLevelIfEmpty of 02_LOB_Engine/src/OrderBook.cpp on the level that an order has left.
use object_oriented_programm.Prelude.{
  ℕ, ◌≡◌, refl, false, some, List, [], ◌∷◌, ◌++◌, ◌==◌, erase, ok, ap, ◌∙◌,
}
use object_oriented_programm.Lob.Types.{Ptr, null, Side, buy, sell, Order}
use object_oriented_programm.Lob.Pool.Access.{load-ok, deallocate-ok}
use object_oriented_programm.Lob.PriceLevel.{is_empty}
use object_oriented_programm.Lob.PriceLevel.Chain.{Entry}
use object_oriented_programm.Lob.PriceLevel.Represents.{level_of}
use object_oriented_programm.Lob.OrderBook.{OrderBook, levels, with_levels}
use object_oriented_programm.Lob.OrderBook.View.{Level, index}
use object_oriented_programm.Lob.OrderBook.Represents.{Sorted, opposite}
use object_oriented_programm.Lob.OrderBook.Matching.Between.{
  Between, without_level, dropped-Between, Between-levels,
}
use object_oriented_programm.Lob.OrderBook.Orders.{remove_price_level_if_empty}
use object_oriented_programm.Lob.OrderBook.Cancel.Lists.{kept_level, with_orders}
use object_oriented_programm.Lob.OrderBook.Cancel.Remains.{erase-index}
use object_oriented_programm.Lob.OrderBook.Cancel.Leave.{sink, swap}

-- The book without the level at `p`, whose map of `side` is `m` now.
abbrev closed : Side → OrderBook → Ptr → List (ℕ × Ptr) → OrderBook
closed side c p m = without_level (with_levels side m c) p

closed-levels :
    (side : Side) (c : OrderBook) (p : Ptr) (m : List (ℕ × Ptr))
    → levels side (closed side c p m) ≡ m
closed-levels buy c p m = refl
closed-levels sell c p m = refl

closed-opposite :
    (side : Side) (c : OrderBook) (p : Ptr) (m : List (ℕ × Ptr))
    → levels (opposite side) (closed side c p m) ≡ levels (opposite side) c
closed-opposite buy c p m = refl
closed-opposite sell c p m = refl

closed-order_map :
    (side : Side) (c : OrderBook) (p : Ptr) (m : List (ℕ × Ptr))
    → (closed side c p m).order_map ≡ c.order_map
closed-order_map buy c p m = refl
closed-order_map sell c p m = refl

close_run :
    (side : Side) (c : OrderBook) (p : Ptr) (price : ℕ)
    → (p == null) ≡ false
    → c.level_pool.storage p ≡ some (level_of price [])
    → remove_price_level_if_empty side price p c
      ≡ ok tt (closed side c p (erase price (levels side c)))
unfolding remove_price_level_if_empty is_empty
close_run buy c p price ne at =
    rw (ne, load-ok p c.level_pool at, deallocate-ok p c.level_pool ne at)
close_run sell c p price ne at =
    rw (ne, load-ok p c.level_pool at, deallocate-ok p c.level_pool ne at)

keep_run :
    (side : Side) (c : OrderBook) (p : Ptr) (price : ℕ) (a : Ptr) (o : Order) (xs : List Entry)
    → (p == null) ≡ false
    → (a == null) ≡ false
    → c.level_pool.storage p ≡ some (level_of price ((a, o) ∷ xs))
    → remove_price_level_if_empty side price p c ≡ ok tt c
unfolding remove_price_level_if_empty is_empty
keep_run side c p price a o xs ne na at = rw (ne, load-ok p c.level_pool at, na)

-- What the call leaves: the level is there if it has orders, and gone if not.
pub record Closed (c d : OrderBook) (side : Side) (taker : Ptr) (t : Order)
    (mine theirs : List Level) : Type 0 where
  pub between : Between d taker t theirs mine
  pub mine_map : levels side d ≡ index mine
  pub theirs_map : levels (opposite side) d ≡ levels (opposite side) c
  pub order_map : d.order_map ≡ c.order_map

pub close_lem :
    (c : OrderBook) (side : Side) (taker : Ptr) (t : Order) (ys : List Level) (v : Level)
    (xs : List Entry) (zs theirs : List Level)
    → Between c taker t (with_orders v xs ∷ (ys ++ zs)) theirs
    → levels side c ≡ index (ys ++ with_orders v xs ∷ zs)
    → Sorted side (ys ++ with_orders v xs ∷ zs)
    → (d : OrderBook) × (remove_price_level_if_empty side v.price v.addr c ≡ ok tt d)
      × Closed c d side taker t (ys ++ (kept_level v xs ++ zs)) theirs
close_lem c side taker t ys v [] zs theirs m e s =
    let p = v.addr in
    let rest = erase v.price (levels side c) in
    (
      closed side c p rest,
      close_run side c p v.price m.at.0.ne_null m.at.0.level_at,
      record {
        between = swap (closed side c p rest) taker t (ys ++ zs) theirs (
            dropped-Between (with_levels side rest c) taker t (with_orders v []) (ys ++ zs) theirs
              refl (Between-levels c side rest taker t (with_orders v [] ∷ (ys ++ zs)) theirs m));
        mine_map =
            closed-levels side c p rest
            ∙ ap (erase v.price) e
            ∙ erase-index side ys (with_orders v []) zs s;
        theirs_map = closed-opposite side c p rest;
        order_map = closed-order_map side c p rest;
      },
    )
close_lem c side taker t ys v ((a, o) ∷ xs) zs theirs m e s = (
  c,
  keep_run side c v.addr v.price a o xs m.at.0.ne_null m.at.0.holds.1.0 m.at.0.level_at,
  record {
    between = sink c taker t ys (with_orders v ((a, o) ∷ xs)) zs theirs m;
    mine_map = e;
    theirs_map = refl;
    order_map = refl;
  },
)

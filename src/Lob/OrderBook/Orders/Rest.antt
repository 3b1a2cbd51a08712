-- ===== src/Lob/OrderBook/Orders/Rest.antt =====
-- The end of addOrder, for an order that comes to rest.
use object_oriented_programm.Prelude.{
  ◌+◌, ◌≡◌, refl, ◌≤◌, ◌<◌, ◌^◌, true, Option, List, [], ◌∷◌, ◌++◌, ltb, arith, length-append, ok,
  ap, ◌∙◌, sym, subst,
}
use object_oriented_programm.Lob.Types.{Ptr, Side, buy, sell, is_limit, Order}
use object_oriented_programm.Lob.Pool.Access.{load-ok, store-ok}
use object_oriented_programm.Lob.PriceLevel.Chain.{Entry, addresses, addresses-append}
use object_oriented_programm.Lob.PriceLevel.Represents.{level_of}
use object_oriented_programm.Lob.OrderBook.{OrderBook, levels}
use object_oriented_programm.Lob.OrderBook.View.{
  Level, index, level_addresses, count, count-append, orders_of,
}
use object_oriented_programm.Lob.OrderBook.Represents.{Represents, WellFormed, opposite, ids}
use object_oriented_programm.Lob.OrderBook.Orders.{rest_or_drop}
use object_oriented_programm.Lob.OrderBook.Orders.Holding.{Holding}
use object_oriented_programm.Lob.OrderBook.Orders.Join.{join, with_entry}
use object_oriented_programm.Lob.OrderBook.Orders.JoinLaws.{join-LevelsStand, join-Sorted, join-ids}
use object_oriented_programm.Lob.OrderBook.Orders.Open.{Opened, Opens, count-side, length-side}
use object_oriented_programm.Lob.OrderBook.Orders.Append.{
  VolumesFit, rested, Appended, append_run, at_level, slots, rested-frame, rested-LevelsAt,
  joined-lookup,
}

levels-rested :
    (s : Side) (c : OrderBook) (h : Ptr → Option Order) (taker : Ptr) (t : Order) (level : Level)
    → levels s (rested c h taker t level) ≡ levels s c
levels-rested buy c h taker t level = refl
levels-rested sell c h taker t level = refl

index-with_entry :
    (ys : List Level) (v : Level) (zs : List Level) (e : Entry)
    → index (ys ++ with_entry v e ∷ zs) ≡ index (ys ++ v ∷ zs)
index-with_entry [] v zs e = refl
index-with_entry (y ∷ ys) v zs e = rw (index-with_entry ys v zs e)

level_addresses-with_entry :
    (ys : List Level) (v : Level) (zs : List Level) (e : Entry)
    → level_addresses (ys ++ with_entry v e ∷ zs) ≡ level_addresses (ys ++ v ∷ zs)
level_addresses-with_entry [] v zs e = refl
level_addresses-with_entry (y ∷ ys) v zs e = rw (level_addresses-with_entry ys v zs e)

module _ (b c : OrderBook) (side : Side) (taker : Ptr) (t : Order) (mine theirs : List Level)
    (p : Ptr) (m : Holding b side taker t mine theirs) (o : Opened b c side taker t mine theirs p)
    (h : Ptr → Option Order) (done : Appended c h taker t o.split.level)
    (fresh : count t.id (ids (orders_of mine)) + count t.id (ids (orders_of theirs)) ≡ 0) where
  abbrev joined : List Level
  joined = o.split.ahead ++ with_entry o.split.level (taker, t) ∷ o.split.behind

  rested-WellFormed :
      1 ≤ t.remaining_qty
      → t.side ≡ side
      → WellFormed side (join side t.price (taker, t) p mine) theirs
  rested-WellFormed pos es = record {
    mine_stand = join-LevelsStand side t.price taker t p mine m.well_formed.mine_stand pos es refl;
    theirs_stand = m.well_formed.theirs_stand;
    mine_sorted = join-Sorted side t.price taker t p mine m.well_formed.mine_sorted;
    theirs_sorted = m.well_formed.theirs_sorted;
    unique = λ id.
        ground (arith, join-ids side t.price taker t p id mine, m.well_formed.unique id, fresh);
  }

  ids_split :
      count t.id (ids (orders_of (o.split.ahead ++ o.split.level ∷ o.split.behind)))
        + count t.id (ids (orders_of theirs))
      ≡ 0
  ids_split = rw o.same_orders fresh

  rested-Represents :
      VolumesFit joined
      → WellFormed side joined theirs
      → Represents (rested c h taker t o.split.level) side joined theirs
  rested-Represents fit w =
      let ahead = o.split.ahead in
      let v = o.split.level in
      let behind = o.split.behind in
      let k = o.placed.between in
      record {
        mine_map =
            levels-rested side c h taker t v
            ∙ o.placed.mine_map
            ∙ sym (index-with_entry ahead v behind (taker, t));
        theirs_map =
            levels-rested (opposite side) c h taker t v ∙ o.placed.theirs_map ∙ m.theirs_map;
        mine_at = rested-LevelsAt c taker t theirs ahead v behind k h done fit;
        theirs_at =
            rested-frame c taker t theirs ahead v behind k h done fit theirs (λ a. omega arith)
              (λ q. omega arith) k.at;
        order_slots = λ a. omega (
          arith,
          slots c taker t theirs ahead v behind k a,
          count-side a ahead (with_entry v (taker, t) ∷ behind),
          ap (count a) (addresses-append (v.orders ++ (taker, t) ∷ []) (orders_of behind)),
          ap (count a) (addresses-append v.orders ((taker, t) ∷ [])),
          count-append a (addresses (v.orders ++ (taker, t) ∷ [])) (addresses (orders_of behind)),
          count-append a (addresses v.orders) (taker ∷ []),
        );
        order_total = omega (
          arith,
          k.order_total,
          length-side ahead (v ∷ behind),
          length-side ahead (with_entry v (taker, t) ∷ behind),
          length-append (v.orders ++ (taker, t) ∷ []) (orders_of behind),
          length-append v.orders (orders_of behind),
          length-append v.orders ((taker, t) ∷ []),
        );
        level_slots = λ q. omega (
          arith,
          k.level_slots q,
          ap (count q) (level_addresses-with_entry ahead v behind (taker, t)),
        );
        order_map = λ id.
            joined-lookup id taker t ahead v behind theirs c.order_map ids_split
              (rw (o.placed.order_map, o.same_orders) (m.order_map id));
        well_formed = w;
      }

-- An order that comes to rest joins the levels of its side, and the map leads to it.
pub rest_lem :
    (b : OrderBook) (side : Side) (taker : Ptr) (t : Order) (mine theirs : List Level) (p : Ptr)
    (m : Holding b side taker t mine theirs)
    → Opens b side taker t mine theirs m p
    → 1 ≤ t.remaining_qty
    → is_limit t.type ≡ true
    → t.side ≡ side
    → count t.id (ids (orders_of mine)) + count t.id (ids (orders_of theirs)) ≡ 0
    → b.order_pool.capacity < 2 ^ 64
    → VolumesFit (join side t.price (taker, t) p mine)
    → (d : OrderBook) × (rest_or_drop t.id side t.type taker b ≡ ok tt d)
      × Represents d side (join side t.price (taker, t) p mine) theirs
unfolding rest_or_drop
rest_lem b side taker t mine theirs p m (c, o, run) pos resting es fresh few fits =
    let v = o.split.level in
    let k = o.placed.between in
    let fits' = subst VolumesFit o.split.joined fits in
    let (h, done) =
      append_run c taker t theirs o.split.ahead v o.split.behind k fits'
        (rw o.placed.order_capacity few) in
    let w = rested-WellFormed b c side taker t mine theirs p m o h done fresh pos es in
    let at = (at_level c taker t theirs o.split.ahead v o.split.behind k).level_at in
    let wants : ltb 0 t.remaining_qty ≡ true = ground arith in
    (
      rested c h taker t v,
      rw (
        load-ok taker b.order_pool m.between.taker_at,
        wants,
        resting,
        run,
        load-ok v.addr c.level_pool at,
        done.0,
        store-ok v.addr (level_of v.price (v.orders ++ (taker, t) ∷ [])) c.level_pool at,
      ),
      subst (λ vs. Represents (rested c h taker t v) side vs theirs) (sym o.split.joined)
          (rested-Represents b c side taker t mine theirs p m o h done fresh fits'
            (subst (λ vs. WellFormed side vs theirs) o.split.joined w)),
    )

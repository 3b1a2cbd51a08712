-- ===== src/Lob/OrderBook/Destroy.antt =====
-- The destructor of 02_LOB_Engine/src/OrderBook.cpp.
use object_oriented_programm.Prelude.{
  ℕ, suc, ◌+◌, ◌≡◌, refl, ◌≤◌, false, Option, some, List, [], ◌∷◌, ◌++◌, ◌==◌, length,
  length-append, arith, Bool-cases, inl, inr, ap, sym, ◌∙◌, ok, subst,
}
use object_oriented_programm.Lob.Types.{Ptr, null, buy, Order}
use object_oriented_programm.Lob.PriceLevel.Chain.{Entry, Seg, addresses, addresses-append}
use object_oriented_programm.Lob.OrderBook.{OrderBook}
use object_oriented_programm.Lob.OrderBook.View.{
  Level, LevelsAt, index, level_addresses, orders_of, count, count-append, slot, slot-le,
}
use object_oriented_programm.Lob.PriceLevel.{PriceLevel}
use object_oriented_programm.Lob.OrderBook.Represents.{
  Represents, ids, order_index, lookup-none, lookup-index-append,
}
use object_oriented_programm.Lob.OrderBook.Matching.Ids.{count-ids}
use object_oriented_programm.Lob.OrderBook.UniqueKeys.{UniqueKeys}
use object_oriented_programm.Lob.OrderBook.Release.{
  values, AllLive, given_back, given_back-lem, given_back-AllLive, release_orders-ok,
  release_levels-ok, values_same,
}
use object_oriented_programm.Lob.OrderBook.Queries.{destroy}

ids-UniqueKeys :
    (xs : List Entry) → ((id : ℕ) → count id (ids xs) ≤ 1) → UniqueKeys (order_index xs)
ids-UniqueKeys [] h = tt
ids-UniqueKeys ((a, o) ∷ xs) h =
    (lookup-none o.id xs (ground (arith, h o.id)), ids-UniqueKeys xs (λ id. omega (arith, h id)))

values-order_index : (xs : List Entry) → values (order_index xs) ≡ addresses xs
values-order_index [] = refl
values-order_index ((a, o) ∷ xs) = ap (◌∷◌ a) (values-order_index xs)

length-order_index : (xs : List Entry) → length (order_index xs) ≡ length xs
length-order_index [] = refl
length-order_index ((a, o) ∷ xs) = ap suc (length-order_index xs)

length-values : (m : List (ℕ × Ptr)) → length (values m) ≡ length m
length-values [] = refl
length-values ((k, p) ∷ m) = ap suc (length-values m)

values-index : (vs : List Level) → values (index vs) ≡ level_addresses vs
values-index [] = refl
values-index (v ∷ vs) = ap (◌∷◌ v.addr) (values-index vs)

module _ {T : Type 0} (h : Ptr → Option T) where
  abbrev Live : Ptr → Type 0
  Live a = ((a == null) ≡ false) × ((x : T) × (h a ≡ some x))

  Live-at : (a : Ptr) (ps : List Ptr) → AllLive h ps → 1 ≤ count a ps → Live a
  Live-at a [] l c = absurd (omega arith)
  Live-at a (p ∷ ps) (ne, here, l) c = elim (Bool-cases (p == a)) [
    | inl same ↦ let e : p ≡ a = ground arith in subst Live e (ne, here)
    | inr other ↦ Live-at a ps l (ground arith)
  ]

  AllLive-intro : (ps : List Ptr) → ((a : Ptr) → 1 ≤ count a ps → Live a) → AllLive h ps
  AllLive-intro [] f = tt
  AllLive-intro (p ∷ ps) f =
      let (ne, here) = f p (ground arith) in (ne, here, AllLive-intro ps (λ a c. f a (omega arith)))

  AllLive-append : (ps qs : List Ptr) → AllLive h ps → AllLive h qs → AllLive h (ps ++ qs)
  AllLive-append [] qs l m = m
  AllLive-append (p ∷ ps) qs (ne, here, l) m = (ne, here, AllLive-append ps qs l m)

Seg-AllLive :
    (h : Ptr → Option Order) (level p : Ptr) (xs : List Entry) (e : Ptr)
    → Seg h level p xs e
    → AllLive h (addresses xs)
Seg-AllLive h level p [] e s = tt
Seg-AllLive h level p ((a, o) ∷ xs) e (ne, at, s) = (ne, (_, at), Seg-AllLive h level a xs e s)

module _ (h : Ptr → Option Order) (g : Ptr → Option PriceLevel) where
  orders_live : (vs : List Level) → LevelsAt h g vs → AllLive h (addresses (orders_of vs))
  orders_live [] at = tt
  orders_live (v ∷ vs) (l, at) =
      subst (AllLive h) (sym (addresses-append v.orders (orders_of vs))) (
        AllLive-append h (addresses v.orders) (addresses (orders_of vs))
          (Seg-AllLive h v.addr null v.orders null l.holds.1) (orders_live vs at))

  levels_live : (vs : List Level) → LevelsAt h g vs → AllLive g (level_addresses vs)
  levels_live [] at = tt
  levels_live (v ∷ vs) (l, at) = (l.ne_null, (_, l.level_at), levels_live vs at)

module _ (b : OrderBook) (bids asks : List Level) (r : Represents b buy bids asks)
    (u : UniqueKeys b.order_map) where
  abbrev here : List Entry
  here = orders_of bids

  abbrev there : List Entry
  there = orders_of asks

  -- The map's pointers are the addresses of the orders.
  pointers :
      ((a : Ptr)
        → count a (values b.order_map) ≡ count a (addresses here) + count a (addresses there))
      × (length b.order_map ≡ length here + length there)
  pointers =
      let (c, l) =
        values_same b.order_map (order_index (here ++ there)) u
          (ids-UniqueKeys (here ++ there)
            (λ id. omega (arith, r.unique id, count-ids id here there)))
          (λ id. r.order_map id ∙ sym (lookup-index-append id here there)) in
      let all = values-order_index (here ++ there) ∙ addresses-append here there in
      (
        λ a. c a ∙ ap (count a) all ∙ count-append a (addresses here) (addresses there),
        l ∙ length-order_index (here ++ there) ∙ length-append here there,
      )

  orders_given : AllLive b.order_pool.storage (values b.order_map)
  orders_given =
      let h = b.order_pool.storage in
      let live =
        AllLive-append h (addresses here) (addresses there)
          (orders_live h b.level_pool.storage bids r.mine_at)
          (orders_live h b.level_pool.storage asks r.theirs_at) in
      AllLive-intro h (values b.order_map) (λ a c.
        Live-at h a (addresses here ++ addresses there) live
          (omega (arith, pointers.0 a, count-append a (addresses here) (addresses there))))

  bids_given : values b.bids ≡ level_addresses bids
  bids_given = ap values r.mine_map ∙ values-index bids

  asks_given : values b.asks ≡ level_addresses asks
  asks_given = ap values r.theirs_map ∙ values-index asks

  levels_once : (a : Ptr) → count a (values b.bids) + count a (values b.asks) ≤ 1
  levels_once a = omega (
    arith,
    r.level_slots a,
    slot-le b.level_pool.capacity a,
    ap (count a) bids_given,
    ap (count a) asks_given,
  )

  -- The book without orders and levels, and with their slots given back.
  abbrev destroyed : OrderBook
  destroyed = record b {
    order_pool = given_back (values b.order_map) b.order_pool;
    level_pool = given_back (values b.asks) (given_back (values b.bids) b.level_pool);
    order_map = [];
    bids = [];
    asks = [];
  }

  destroy-run : destroy b ≡ ok tt destroyed
  unfolding destroy
  destroy-run =
      let g = b.level_pool.storage in
      let h = b.order_pool.storage in
      let bids_live = subst (AllLive g) (sym bids_given) (levels_live h g bids r.mine_at) in
      let asks_live = subst (AllLive g) (sym asks_given) (levels_live h g asks r.theirs_at) in
      let b1 = record b {
        order_pool = given_back (values b.order_map) b.order_pool;
        order_map = [];
      } in
      let b2 = record b1 { level_pool = given_back (values b.bids) b.level_pool; bids = [] } in
      rw
        (
          release_orders-ok b.order_map b
              (λ a. omega (arith, pointers.0 a, r.order_slots a, slot-le b.order_pool.capacity a))
              orders_given,
          release_levels-ok b.bids b1 (λ a. omega (arith, levels_once a)) bids_live,
          release_levels-ok b.asks b2 (λ a. omega (arith, levels_once a))
              (given_back-AllLive (values b.bids) (values b.asks) b.level_pool levels_once
                asks_live),
        )
        refl

  -- p
  pub destroy-Represents :
      (d : OrderBook) × (destroy b ≡ ok tt d) × (d.order_map ≡ []) × Represents d buy [] []
  destroy-Represents =
      let (c, l, n) = given_back-lem (values b.order_map) b.order_pool in
      let (c1, _, n1) = given_back-lem (values b.bids) b.level_pool in
      let (c2, _, n2) = given_back-lem (values b.asks) (given_back (values b.bids) b.level_pool) in
      (
        destroyed,
        destroy-run,
        refl,
        record {
          mine_map = refl;
          theirs_map = refl;
          mine_at = tt;
          theirs_at = tt;
          order_slots =
              λ a. omega (arith, c a, pointers.0 a, r.order_slots a, ap (λ m. slot m a) n);
          order_total = omega (arith, l, n, length-values b.order_map, pointers.1, r.order_total);
          level_slots = λ a. omega (
            arith,
            c1 a,
            c2 a,
            r.level_slots a,
            ap (count a) bids_given,
            ap (count a) asks_given,
            ap (λ m. slot m a) (n2 ∙ n1),
          );
          order_map = λ id. refl;
          well_formed = record {
            mine_stand = tt;
            theirs_stand = tt;
            mine_sorted = tt;
            theirs_sorted = tt;
            unique = λ id. omega arith;
          };
        },
      )

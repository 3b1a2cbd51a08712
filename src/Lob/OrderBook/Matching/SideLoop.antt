-- ===== src/Lob/OrderBook/Matching/SideLoop.antt =====
-- The outer matching loop does to the levels of a side what `sweep` does to their list.
use object_oriented_programm.Prelude.{
  ℕ, ◌+◌, ◌≡◌, refl, Bool, true, false, ◌||◌, ◌&&◌, Option, some, List, [], ◌∷◌, ◌++◌, ◌==◌, arith,
  length, ap, erase, ◌∙◌, sym, subst, ok, Bool-cases, inl, inr, append-nil, append_assoc,
  length-append,
}
use object_oriented_programm.Lob.Types.{Ptr, null, Order, MatchEvent, is_limit}
use object_oriented_programm.Lob.Pool.Access.{load-ok, deallocate-ok}
use object_oriented_programm.Lob.PriceLevel.{is_empty, add64}
use object_oriented_programm.Lob.PriceLevel.Chain.{Entry, Seg}
use object_oriented_programm.Lob.PriceLevel.Represents.{level_of}
use object_oriented_programm.Lob.OrderBook.{OrderBook}
use object_oriented_programm.Lob.OrderBook.View.{Level, HasFree, index}
use object_oriented_programm.Lob.OrderBook.Matching.{match_levels}
use object_oriented_programm.Lob.OrderBook.Matching.Ready.{Counted, tally_trades, tally_volume}
use object_oriented_programm.Lob.OrderBook.Matching.Fill.{fill, events}
use object_oriented_programm.Lob.OrderBook.Matching.Sweep.{
  Swept, Trade, tag, is_nil, stop, sweep, reports, reports-tag, reports-append, length-tag,
  length-events, fill-left, eq_nil, sweep-stop, sweep-emptied, sweep-left,
}
use object_oriented_programm.Lob.OrderBook.Matching.LevelLoop.{forget, quantities, match_level_lem}
use object_oriented_programm.Lob.OrderBook.Matching.Between.{
  Between, Between-Ready, filled-Between, without_level, dropped-Between,
}

abbrev pub sizes : List Trade → List ℕ
sizes [] = []
sizes ((p, o, q) ∷ ts) = q ∷ sizes ts

-- `c` is `b` after the taker went through the levels `vs` with outcome `s`.
pub record SideSwept (taker : Ptr) (t : Order) (ws : List Level) (s : Swept) (b c : OrderBook)
    : Type 0 where
  pub between : Between c taker (record t { remaining_qty = s.rest }) s.left ws
  pub bids : c.bids ≡ b.bids
  pub asks : c.asks ≡ b.asks
  pub order_capacity : c.order_pool.capacity ≡ b.order_pool.capacity
  pub level_capacity : c.level_pool.capacity ≡ b.level_pool.capacity
  pub level_free : HasFree b.level_pool.free_list → HasFree c.level_pool.free_list
  pub order_map : c.order_map ≡ forget s.used b.order_map
  pub counted : Counted (sizes s.trades) b c

sizes-tag-append :
    (price : ℕ) (fs : List (Order × ℕ)) (ts : List Trade)
    → sizes (tag price fs ++ ts) ≡ quantities fs ++ sizes ts
sizes-tag-append price [] ts = refl
sizes-tag-append price (f ∷ fs) ts = rw (sizes-tag-append price fs ts)

sizes-tag : (price : ℕ) (fs : List (Order × ℕ)) → sizes (tag price fs) ≡ quantities fs
sizes-tag price [] = refl
sizes-tag price (f ∷ fs) = rw (sizes-tag price fs)

tally_trades-append :
    (n : ℕ) (xs ys : List ℕ) → tally_trades n (xs ++ ys) ≡ tally_trades (tally_trades n xs) ys
tally_trades-append n [] ys = refl
tally_trades-append n (x ∷ xs) ys = tally_trades-append (add64 n 1) xs ys

tally_volume-append :
    (n : ℕ) (xs ys : List ℕ) → tally_volume n (xs ++ ys) ≡ tally_volume (tally_volume n xs) ys
tally_volume-append n [] ys = refl
tally_volume-append n (x ∷ xs) ys = tally_volume-append (add64 n x) xs ys

-- The statistics after the trades of one level and of those behind it.
Counted-join :
    (price : ℕ) (fs : List (Order × ℕ)) (ts : List Trade) (b c d : OrderBook)
    → Counted (quantities fs) b c
    → Counted (sizes ts) c d
    → Counted (sizes (tag price fs ++ ts)) b d
Counted-join price fs ts b c d l s = rw (sizes-tag-append price fs ts) (
  s.0
      ∙ ap (λ n. tally_trades n (sizes ts)) l.0
      ∙ sym (tally_trades-append b.total_trades_count (quantities fs) (sizes ts)),
  s.1
      ∙ ap (λ n. tally_volume n (sizes ts)) l.1
      ∙ sym (tally_volume-append b.total_volume_traded (quantities fs) (sizes ts)),
)

forget-append :
    (us vs : List Entry) (m : List (ℕ × Ptr)) → forget (us ++ vs) m ≡ forget vs (forget us m)
forget-append [] vs m = refl
forget-append ((a, o) ∷ us) vs m = forget-append us vs (erase o.id m)

-- A level is empty by its head exactly if it has no order.
pub is_empty-nil :
    (h : Ptr → Option Order) (this price p : Ptr) (xs : List Entry)
    → Seg h this p xs null
    → is_empty (level_of price xs) ≡ is_nil xs
unfolding is_empty
is_empty-nil h this price p [] s = refl
is_empty-nil h this price p (x ∷ xs) s = s.0

stop-SideSwept :
    (taker : Ptr) (t : Order) (vs ws : List Level) (b : OrderBook)
    → Between b taker t vs ws
    → SideSwept taker t ws (stop t.remaining_qty vs) b b
stop-SideSwept taker t vs ws b m = record {
  between = m;
  bids = refl;
  asks = refl;
  order_capacity = refl;
  level_capacity = refl;
  level_free = λ f. f;
  order_map = refl;
  counted = (refl, refl);
}

-- The test that ends the walk of a taker, as a test on a level's price.
abbrev pub closed_to : (ℕ → ℕ → Bool) → Order → ℕ → Bool
closed_to beyond t price = is_limit t.type && beyond price t.price

module _ (clock : ℕ → ℕ) (beyond : ℕ → ℕ → Bool) where
  -- The walk over `vs` ends, reports the trades of `s`, and leaves the map and the book of `s`.
  abbrev pub Sweeps :
      Ptr → Order → List Level → List Level → List MatchEvent → OrderBook → Swept → Type 0
  Sweeps taker t vs ws ms b s =
      (c : OrderBook) × (match_levels clock beyond taker (index vs) ms b
        ≡ ok (ms ++ reports clock t.id (length ms) s.trades, index s.left) c)
      × SideSwept taker t ws s b c

  reports_join :
      (id price : ℕ) (ms : List MatchEvent) (fs : List (Order × ℕ)) (ts : List Trade)
      → let es = events clock id price (length ms) fs in
        (ms ++ es) ++ reports clock id (length (ms ++ es)) ts
        ≡ ms ++ reports clock id (length ms) (tag price fs ++ ts)
  reports_join id price ms fs ts =
      let es = events clock id price (length ms) fs in
      let longer : length (ms ++ es) ≡ length ms + length (tag price fs) = omega (
        arith,
        length-append ms es,
        length-events clock id price (length ms) fs,
        length-tag price fs,
      ) in
      rw (
        longer,
        append_assoc,
        reports-append clock id (length ms) (tag price fs) ts,
        reports-tag clock id price (length ms) fs,
      )

  sweeps_filled :
      (taker : Ptr) (t : Order) (vs : List Level) (ms : List MatchEvent) (b : OrderBook)
      → b.order_pool.storage taker ≡ some t
      → (t.remaining_qty == 0) ≡ true
      → match_levels clock beyond taker (index vs) ms b ≡ ok (ms, index vs) b
  unfolding match_levels
  sweeps_filled taker t [] ms b at e = refl
  sweeps_filled taker t (v ∷ vs) ms b at e = rw (load-ok taker b.order_pool at, e)

  module _ (taker : Ptr) (t : Order) (v : Level) (vs ws : List Level) (ms : List MatchEvent)
      (b : OrderBook) (m : Between b taker t (v ∷ vs) ws) where
    sweeps_stop :
        ((t.remaining_qty == 0) || closed_to beyond t v.price) ≡ true
        → match_levels clock beyond taker (index (v ∷ vs)) ms b ≡ ok (ms, index (v ∷ vs)) b
    unfolding match_levels
    sweeps_stop h = elim (Bool-cases (t.remaining_qty == 0)) [
      | inl e ↦ sweeps_filled taker t (v ∷ vs) ms b m.taker_at e
      | inr e ↦
          let closed : closed_to beyond t v.price ≡ true = ground arith in
          rw (
            load-ok taker b.order_pool m.taker_at,
            e,
            load-ok v.addr b.level_pool m.at.0.level_at,
            closed,
          )
    ]

    module _ (open_level : ((t.remaining_qty == 0) || closed_to beyond t v.price) ≡ false) where
      active : (t.remaining_qty == 0) ≡ false
      active = ground arith

      opens : closed_to beyond t v.price ≡ false
      opens = ground arith

      Sweeps-left :
          is_nil (fill t.remaining_qty v.orders).left ≡ false
          → Sweeps taker t (v ∷ vs) ws ms b (sweep (closed_to beyond t) t.remaining_qty (v ∷ vs))
      unfolding match_levels
      Sweeps-left stays =
          let f = fill t.remaining_qty v.orders in
          let t' = record t { remaining_qty = f.rest } in
          let (c, run, l) =
            match_level_lem clock (length v.orders + 1) v.addr taker t v.price v.orders ms b
              (omega arith) (Between-Ready b taker t v vs ws m) in
          let m' = filled-Between b taker t v vs ws m c l in
          rw (sweep-left (closed_to beyond t) t.remaining_qty v vs open_level stays) (
            c,
            rw (
              load-ok taker b.order_pool m.taker_at,
              active,
              load-ok v.addr b.level_pool m.at.0.level_at,
              opens,
              run,
              load-ok v.addr c.level_pool l.ready.level_at,
              is_empty-nil c.order_pool.storage v.addr v.price null f.left l.ready.holds.1,
              stays,
              sweeps_filled taker t' vs (ms ++ events clock t.id v.price (length ms) f.fills) c
                  l.ready.taker_at (ground (arith, fill-left t.remaining_qty v.orders)),
              reports-tag clock t.id v.price (length ms) f.fills,
            ),
            record {
              between = m';
              bids = l.kept.bids;
              asks = l.kept.asks;
              order_capacity = l.kept.order_capacity;
              level_capacity = l.kept.level_capacity;
              level_free = λ f. subst HasFree (sym l.kept.level_free) f;
              order_map = l.order_map;
              counted = rw (sizes-tag v.price f.fills) l.counted;
            },
          )

      Sweeps-emptied :
          is_nil (fill t.remaining_qty v.orders).left ≡ true
          → let f = fill t.remaining_qty v.orders in
            let t' = record t { remaining_qty = f.rest } in
            ((ms' : List MatchEvent) (c : OrderBook)
              → Between c taker t' vs ws
              → Sweeps taker t' vs ws ms' c (sweep (closed_to beyond t) f.rest vs))
            → Sweeps taker t (v ∷ vs) ws ms b (sweep (closed_to beyond t) t.remaining_qty (v ∷ vs))
      unfolding match_levels
      Sweeps-emptied gone loop =
          let f = fill t.remaining_qty v.orders in
          let next = sweep (closed_to beyond t) f.rest vs in
          let t' = record t { remaining_qty = f.rest } in
          let es = events clock t.id v.price (length ms) f.fills in
          let (c, run, l) =
            match_level_lem clock (length v.orders + 1) v.addr taker t v.price v.orders ms b
              (omega arith) (Between-Ready b taker t v vs ws m) in
          let m' =
            dropped-Between c taker t' (record v { orders = f.left }) vs ws (eq_nil f.left gone)
              (filled-Between b taker t v vs ws m c l) in
          let (d, rest, s) = loop (ms ++ es) (without_level c v.addr) m' in
          rw (sweep-emptied (closed_to beyond t) t.remaining_qty v vs open_level gone) (
            d,
            rw
                (
                  load-ok taker b.order_pool m.taker_at,
                  active,
                  load-ok v.addr b.level_pool m.at.0.level_at,
                  opens,
                  run,
                  load-ok v.addr c.level_pool l.ready.level_at,
                  is_empty-nil c.order_pool.storage v.addr v.price null f.left l.ready.holds.1,
                  gone,
                  deallocate-ok v.addr c.level_pool m.at.0.ne_null l.ready.level_at,
                  rest,
                )
                (ap (λ es. ok (es, index next.left) d)
                  (reports_join t.id v.price ms f.fills next.trades)),
            record {
              between = s.between;
              bids = s.bids ∙ l.kept.bids;
              asks = s.asks ∙ l.kept.asks;
              order_capacity = s.order_capacity ∙ l.kept.order_capacity;
              level_capacity = s.level_capacity ∙ l.kept.level_capacity;
              level_free = λ f. s.level_free (v.addr, c.level_pool.free_list, refl);
              order_map =
                  s.order_map
                  ∙ ap (forget next.used) l.order_map
                  ∙ sym (forget-append f.used next.used b.order_map);
              counted = Counted-join v.price f.fills next.trades b c d l.counted s.counted;
            },
          )

  -- From any iterator of the outer loop on, with the taker in the pool and every slot of the pools
  -- in use once or free once, the loop ends and does what `sweep` says: it reports those trades
  -- behind the earlier ones, keeps the entries of the levels left, and gives the slots of emptied
  -- levels and of filled orders back.
  pub match_levels_lem :
      (taker : Ptr) (t : Order) (vs ws : List Level) (ms : List MatchEvent) (b : OrderBook)
      → Between b taker t vs ws
      → Sweeps taker t vs ws ms b (sweep (closed_to beyond t) t.remaining_qty vs)
  match_levels_lem taker t [] ws ms b m =
      unfold sweep in
      (
        b,
        unfold match_levels in ap (λ l. ok (l, []) b) (sym (append-nil ms)),
        stop-SideSwept taker t [] ws b m,
      )
  match_levels_lem taker t (v ∷ vs) ws ms b m =
      let f = fill t.remaining_qty v.orders in
      let t' = record t { remaining_qty = f.rest } in
      let loop = λ (ms' : List MatchEvent) (c : OrderBook) (m' : Between c taker t' vs ws).
        match_levels_lem taker t' vs ws ms' c m' in
      elim (Bool-cases ((t.remaining_qty == 0) || closed_to beyond t v.price)) [
        | inl stops ↦ rw (sweep-stop (closed_to beyond t) t.remaining_qty v vs stops) (
          b,
          sweeps_stop taker t v vs ws ms b m stops
              ∙ ap (λ l. ok (l, index (v ∷ vs)) b) (sym (append-nil ms)),
          stop-SideSwept taker t (v ∷ vs) ws b m,
        )
        | inr goes ↦ elim (Bool-cases (is_nil f.left)) [
          | inl gone ↦ Sweeps-emptied taker t v vs ws ms b m goes gone loop
          | inr stays ↦ Sweeps-left taker t v vs ws ms b m goes stays
        ]
      ]

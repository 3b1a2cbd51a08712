-- ===== src/Lob/OrderBook/Matching/LevelLoop.antt =====
-- The inner matching loop does to the orders of a level what `fill` does to their list.
use object_oriented_programm.Prelude.{
  ℕ, zero, suc, ◌-◌, ◌≡◌, refl, ◌≤◌, ◌<◌, List, [], ◌∷◌, ◌++◌, ◌==◌, true, false, some, arith,
  length, erase, ok, ap, subst, ◌∙◌, sym, inl, inr, Bool-cases, le-cases, append_assoc, append-nil,
  length-append,
}
use object_oriented_programm.Lob.Types.{Ptr, null, Order, MatchEvent}
use object_oriented_programm.Lob.Pool.Access.{load-ok}
use object_oriented_programm.Lob.PriceLevel.Chain.{Entry, addresses, has, first}
use object_oriented_programm.Lob.OrderBook.{OrderBook}
use object_oriented_programm.Lob.OrderBook.Matching.{match_level, count_trade}
use object_oriented_programm.Lob.OrderBook.Matching.Steps.{with_memory}
use object_oriented_programm.Lob.OrderBook.Matching.Ready.{
  Ready, Kept, Counted, tally_trades, tally_volume, less,
}
use object_oriented_programm.Lob.OrderBook.Matching.Trade.{
  trade_part, trade_full, part-Ready, part-Kept, orders_after, levels_after,
}
use object_oriented_programm.Lob.OrderBook.Matching.Fill.{
  Filled, fill, events, fill-zero, fill-full, fill-part,
}

abbrev pub quantities : List (Order × ℕ) → List ℕ
quantities [] = []
quantities ((o, q) ∷ fs) = q ∷ quantities fs

-- The slots that come back to the pool, the last on top, and the map without the used orders.
abbrev pub give_back : List Entry → List Ptr → List Ptr
give_back [] free = free
give_back ((a, o) ∷ us) free = give_back us (a ∷ free)

abbrev pub forget : List Entry → List (ℕ × Ptr) → List (ℕ × Ptr)
forget [] m = m
forget ((a, o) ∷ us) m = forget us (erase o.id m)

-- `b'` is `b` after the taker's quantity went through the level's orders `xs` with outcome `f`.
pub record LevelFilled (lp taker : Ptr) (t : Order) (price : ℕ) (xs : List Entry) (f : Filled)
    (b b' : OrderBook) : Type 0 where
  pub ready : Ready b' lp taker (record t { remaining_qty = f.rest }) price f.left
  pub kept : Kept lp (taker ∷ addresses xs) b b'
  pub order_free : b'.order_pool.free_list ≡ give_back f.used b.order_pool.free_list
  pub order_map : b'.order_map ≡ forget f.used b.order_map
  pub counted : Counted (quantities f.fills) b b'

Kept-refl : (lp : Ptr) (ps : List Ptr) (b : OrderBook) → Kept lp ps b b
Kept-refl lp ps b = record {
  bids = refl;
  asks = refl;
  level_free = refl;
  level_capacity = refl;
  level_same = λ p ne. refl;
  order_capacity = refl;
  order_same = λ p out. refl;
}

Kept-trans :
    (lp : Ptr) (ps qs : List Ptr) (b c d : OrderBook)
    → Kept lp ps b c
    → Kept lp qs c d
    → ((p : Ptr) → has p ps ≡ false → has p qs ≡ false)
    → Kept lp ps b d
Kept-trans lp ps qs b c d k j sub = record {
  bids = j.bids ∙ k.bids;
  asks = j.asks ∙ k.asks;
  level_free = j.level_free ∙ k.level_free;
  level_capacity = j.level_capacity ∙ k.level_capacity;
  level_same = λ p ne. j.level_same p ne ∙ k.level_same p ne;
  order_capacity = j.order_capacity ∙ k.order_capacity;
  order_same = λ p out. j.order_same p (sub p out) ∙ k.order_same p out;
}

LevelFilled-done :
    (lp taker : Ptr) (t : Order) (price : ℕ) (xs : List Entry) (b : OrderBook)
    → Ready b lp taker t price xs
    → LevelFilled lp taker t price xs
        (record { left = xs; used = []; fills = []; rest = t.remaining_qty })
        b
        b
LevelFilled-done lp taker t price xs b ready = record {
  ready = ready;
  kept = Kept-refl lp (taker ∷ addresses xs) b;
  order_free = refl;
  order_map = refl;
  counted = (refl, refl);
}

module _ (clock : ℕ → ℕ) where
  match_level_idle :
      (k : ℕ) (lp taker p : Ptr) (ms : List MatchEvent) {t : Order} (b : OrderBook)
      → 0 < k
      → b.order_pool.storage taker ≡ some t
      → (t.remaining_qty == 0) ≡ true
      → match_level clock k lp taker p ms b ≡ ok ms b
  unfolding match_level
  match_level_idle zero lp taker p ms b pos at idle = absurd (omega arith)
  match_level_idle (suc k) lp taker p ms b pos at idle = elim (Bool-cases (p == null)) [
    | inl e ↦ rw e
    | inr e ↦ rw (e, load-ok taker b.order_pool at, idle)
  ]

  -- The loop with `k` rounds ends, reports the trades of `f`, and leaves what `f` says.
  abbrev pub Ends :
      ℕ → Ptr → Ptr → Order → ℕ → List Entry → List MatchEvent → OrderBook → Filled → Type 0
  Ends k lp taker t price xs ms b f =
      (b' : OrderBook) × (match_level clock k lp taker (first xs null) ms b
        ≡ ok (ms ++ events clock t.id price (length ms) f.fills) b')
      × LevelFilled lp taker t price xs f b b'

  events-cons :
      (id price q : ℕ) (o : Order) (ms : List MatchEvent) (fs : List (Order × ℕ))
      → (ms ++ events clock id price (length ms) ((o, q) ∷ []))
          ++ events clock id price
              (length (ms ++ events clock id price (length ms) ((o, q) ∷ [])))
              fs
        ≡ ms ++ events clock id price (length ms) ((o, q) ∷ fs)
  events-cons id price q o ms fs =
      let e = events clock id price (length ms) ((o, q) ∷ []) in
      let longer : length (ms ++ e) ≡ suc (length ms) = omega (arith, length-append ms e) in
      rw (longer, append_assoc)

  module _ (k : ℕ) (lp taker : Ptr) (t : Order) (price : ℕ) (a : Ptr) (o : Order) (xs : List Entry)
      (ms : List MatchEvent) (b : OrderBook) (ready : Ready b lp taker t price ((a, o) ∷ xs))
      (active : (t.remaining_qty == 0) ≡ false) where
    Ends-full :
        o.remaining_qty ≤ t.remaining_qty
        → ((ms' : List MatchEvent) (c : OrderBook)
            → Ready c lp taker (less t o.remaining_qty) price xs
            → Ends k lp taker
                (less t o.remaining_qty)
                price
                xs
                ms'
                c
                (fill (t.remaining_qty - o.remaining_qty) xs))
        → Ends (suc k) lp taker t price ((a, o) ∷ xs) ms b (fill t.remaining_qty ((a, o) ∷ xs))
    unfolding match_level
    Ends-full le loop =
        let q = o.remaining_qty in
        let f = fill (t.remaining_qty - q) xs in
        let (c, run, ready', kept, free, erased, counted) =
          trade_full b lp taker t price a o xs ready clock ms le in
        let (d, rest, filled) =
          loop (ms ++ events clock t.id price (length ms) ((o, q) ∷ [])) c ready' in
        rw (fill-full t.remaining_qty a o xs active le) (
          d,
          rw
              (
                (ready.holds.1).0,
                load-ok taker b.order_pool ready.taker_at,
                active,
                load-ok a b.order_pool (ready.holds.1).1,
                run,
                rest,
              )
              (ap (λ l. ok l d) (events-cons t.id price q o ms f.fills)),
          record {
            ready = filled.ready;
            kept = Kept-trans lp _ _ b c d kept filled.kept (λ p out. ground arith);
            order_free = filled.order_free ∙ ap (give_back f.used) free;
            order_map = filled.order_map ∙ ap (forget f.used) erased;
            counted = (
              filled.counted.0 ∙ ap (λ n. tally_trades n (quantities f.fills)) counted.0,
              filled.counted.1 ∙ ap (λ n. tally_volume n (quantities f.fills)) counted.1,
            );
          },
        )

    Ends-part :
        0 < k
        → t.remaining_qty < o.remaining_qty
        → Ends (suc k) lp taker t price ((a, o) ∷ xs) ms b (fill t.remaining_qty ((a, o) ∷ xs))
    unfolding match_level
    Ends-part pos lt =
        let q = t.remaining_qty in
        let c = count_trade q (
          with_memory b (orders_after b lp taker t price a o xs ready q)
            (levels_after b lp taker t price a o xs ready q)) in
        let ready' = part-Ready b lp taker t price a o xs ready lt in
        let spent : q - q ≡ 0 = omega arith in
        rw (fill-part q a o xs active lt) (
          c,
          rw
              (
                (ready.holds.1).0,
                load-ok taker b.order_pool ready.taker_at,
                active,
                load-ok a b.order_pool (ready.holds.1).1,
                trade_part b lp taker t price a o xs ready clock ms lt,
              )
              (match_level_idle k lp taker (first xs null) _ c pos ready'.taker_at (ground arith)),
          record {
            ready =
                subst
                  (λ r.
                    Ready c lp taker (record t { remaining_qty = r }) price ((a, less o q) ∷ xs))
                  spent ready';
            kept = part-Kept b lp taker t price a o xs ready q;
            order_free = unfold count_trade in refl;
            order_map = unfold count_trade in refl;
            counted = unfold count_trade in (refl, refl);
          },
        )

  -- With more rounds than the level has orders, the inner loop does not run out of rounds: on a
  -- level whose linked list stands in the pool it ends, reports the trades of `fill` in the order
  -- of the list, and leaves the level with the orders that `fill` leaves.
  pub match_level_lem :
      (k : ℕ) (lp taker : Ptr) (t : Order) (price : ℕ) (xs : List Entry) (ms : List MatchEvent)
      (b : OrderBook)
      → length xs < k
      → Ready b lp taker t price xs
      → Ends k lp taker t price xs ms b (fill t.remaining_qty xs)
  unfolding match_level
  match_level_lem zero lp taker t price xs ms b fuel ready = absurd (omega arith)
  match_level_lem (suc k) lp taker t price [] ms b fuel ready =
      unfold fill in
      (b, ap (λ l. ok l b) (sym (append-nil ms)), LevelFilled-done lp taker t price [] b ready)
  match_level_lem (suc k) lp taker t price ((a, o) ∷ xs) ms b fuel ready =
      let loop =
        λ (ms' : List MatchEvent) (c : OrderBook)
            (r : Ready c lp taker (less t o.remaining_qty) price xs).
          match_level_lem k lp taker (less t o.remaining_qty) price xs ms' c (omega arith) r in
      elim (Bool-cases (t.remaining_qty == 0)) [
        | inl idle ↦ rw (fill-zero t.remaining_qty (a, o) xs idle) (
          b,
          match_level_idle (suc k) lp taker a ms b (omega arith) ready.taker_at idle
              ∙ ap (λ l. ok l b) (sym (append-nil ms)),
          LevelFilled-done lp taker t price ((a, o) ∷ xs) b ready,
        )
        | inr active ↦ elim (le-cases o.remaining_qty t.remaining_qty) [
          | inl le ↦ Ends-full k lp taker t price a o xs ms b ready active le loop
          | inr lt ↦ Ends-part k lp taker t price a o xs ms b ready active (omega arith) lt
        ]
      ]

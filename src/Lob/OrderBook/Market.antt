-- ===== src/Lob/OrderBook/Market.antt =====
-- What a book promises its traders, whichever way it is stored: the matching of an order by
-- 02_LOB_Engine/src/OrderBook.cpp neither loses nor makes quantity, respects the limit, and leaves
-- no buyer and seller who would trade.
use object_oriented_programm.Prelude.{
  ℕ, suc, ◌+◌, ◌-◌, ◌≡◌, refl, Bool, true, false, not, ◌||◌, ◌&&◌, some, List, [], ◌∷◌, ◌++◌, ◌==◌,
  arith, ok, Bool-cases, inl, inr, ap,
}
use object_oriented_programm.Lob.Types.{Ptr, Side, Order, MatchEvent}
use object_oriented_programm.Lob.PriceLevel.Chain.{Entry}
use object_oriented_programm.Lob.OrderBook.{OrderBook, before}
use object_oriented_programm.Lob.OrderBook.View.{Level}
use object_oriented_programm.Lob.OrderBook.Matching.Fill.{fill, traded}
use object_oriented_programm.Lob.OrderBook.Matching.Sweep.{Trade, sweep, tag, is_nil, reports}
use object_oriented_programm.Lob.OrderBook.Matching.SideLoop.{closed_to}
use object_oriented_programm.Lob.OrderBook.Orders.{match_order}
use object_oriented_programm.Lob.OrderBook.Orders.Holding.{Holding}
use object_oriented_programm.Lob.OrderBook.Orders.Match.{outcome, match_order_lem}

-- The quantity of the reported trades.
abbrev pub total : List MatchEvent → ℕ
total [] = 0
total (m ∷ ms) = m.match_quantity + total ms

-- No trade is at a price that the walk of the taker stops at.
abbrev pub all_open : (ℕ → Bool) → List MatchEvent → Bool
all_open closed [] = true
all_open closed (m ∷ ms) = not (closed m.match_price) && all_open closed ms

fill-total : (qty : ℕ) (xs : List Entry) → traded (fill qty xs).fills + (fill qty xs).rest ≡ qty
unfolding fill
fill-total qty [] = omega arith
fill-total qty ((a, o) ∷ xs) = ground (arith, fill-total (qty - o.remaining_qty) xs)

-- The reports of trades at one price, before those of other trades.
total-tag :
    (clock : ℕ → ℕ) (id price n : ℕ) (fs : List (Order × ℕ)) (ts : List Trade)
    → (k : ℕ) × (total (reports clock id n (tag price fs ++ ts))
        ≡ traded fs + total (reports clock id k ts))
total-tag clock id price n [] ts = (n, omega arith)
total-tag clock id price n ((o, q) ∷ fs) ts =
    let (k, e) = total-tag clock id price (suc n) fs ts in (k, omega (arith, e))

total-tags :
    (clock : ℕ → ℕ) (id price n : ℕ) (fs : List (Order × ℕ))
    → total (reports clock id n (tag price fs)) ≡ traded fs
total-tags clock id price n [] = refl
total-tags clock id price n ((o, q) ∷ fs) = ap (◌+◌ q) (total-tags clock id price (suc n) fs)

sweep-total :
    (clock : ℕ → ℕ) (id n : ℕ) (closed : ℕ → Bool) (qty : ℕ) (vs : List Level)
    → total (reports clock id n (sweep closed qty vs).trades) + (sweep closed qty vs).rest ≡ qty
unfolding sweep
sweep-total clock id n closed qty [] = omega arith
sweep-total clock id n closed qty (v ∷ vs) =
    let f = fill qty v.orders in
    let next = sweep closed f.rest vs in
    let (k, e) = total-tag clock id v.price n f.fills next.trades in
    elim (Bool-cases ((qty == 0) || closed v.price)) [
      | inl stops ↦ rw stops (omega arith)
      | inr goes ↦ elim (Bool-cases (is_nil f.left)) [
        | inl gone ↦
            rw (goes, gone)
              (omega (arith, fill-total qty v.orders, sweep-total clock id k closed f.rest vs, e))
        | inr stays ↦
            rw (goes, stays)
              (omega (arith, fill-total qty v.orders, total-tags clock id v.price n f.fills))
      ]
    ]

all_open-tag :
    (clock : ℕ → ℕ) (closed : ℕ → Bool) (id price n : ℕ) (fs : List (Order × ℕ)) (ts : List Trade)
    → closed price ≡ false
    → ((k : ℕ) → all_open closed (reports clock id k ts) ≡ true)
    → all_open closed (reports clock id n (tag price fs ++ ts)) ≡ true
all_open-tag clock closed id price n [] ts h t = t n
all_open-tag clock closed id price n ((o, q) ∷ fs) ts h t =
    rw (h, all_open-tag clock closed id price (suc n) fs ts h t)

all_open-tags :
    (clock : ℕ → ℕ) (closed : ℕ → Bool) (id price n : ℕ) (fs : List (Order × ℕ))
    → closed price ≡ false
    → all_open closed (reports clock id n (tag price fs)) ≡ true
all_open-tags clock closed id price n [] h = refl
all_open-tags clock closed id price n ((o, q) ∷ fs) h =
    rw (h, all_open-tags clock closed id price (suc n) fs h)

sweep-all_open :
    (clock : ℕ → ℕ) (id : ℕ) (closed : ℕ → Bool) (qty : ℕ) (vs : List Level) (n : ℕ)
    → all_open closed (reports clock id n (sweep closed qty vs).trades) ≡ true
unfolding sweep
sweep-all_open clock id closed qty [] n = refl
sweep-all_open clock id closed qty (v ∷ vs) n =
    let f = fill qty v.orders in
    let next = sweep closed f.rest vs in
    elim (Bool-cases ((qty == 0) || closed v.price)) [
      | inl stops ↦ rw stops refl
      | inr goes ↦
          let opens : closed v.price ≡ false = ground arith in
          elim (Bool-cases (is_nil f.left)) [
            | inl gone ↦
                rw (goes, gone)
                  (all_open-tag clock closed id v.price n f.fills next.trades opens
                    (sweep-all_open clock id closed f.rest vs))
            | inr stays ↦ rw (goes, stays) (all_open-tags clock closed id v.price n f.fills opens)
          ]
    ]

-- For an order that stands in the pool of a represented book and in no list, matching ends, the
-- reported quantities and what remains of the order add up to what remained of it before, and no
-- reported trade is at a price beyond the limit of a limit order.
pub match_order-conserves :
    (clock : ℕ → ℕ) (side : Side) (b : OrderBook) (taker : Ptr) (t : Order)
    (mine theirs : List Level)
    → Holding b side taker t mine theirs
    → (c : OrderBook) × (ms : List MatchEvent) × (u : Order) × (match_order clock side taker b
        ≡ ok ms c)
      × (c.order_pool.storage taker ≡ some u)
      × (total ms + u.remaining_qty ≡ t.remaining_qty)
      × (all_open (closed_to (before side) t) ms ≡ true)
match_order-conserves clock side b taker t mine theirs m =
    let (c, run, k) = match_order_lem clock side b taker t mine theirs m in
    let closed = closed_to (before side) t in
    (
      c,
      reports clock t.id 0 (outcome side t theirs).trades,
      record t { remaining_qty = (outcome side t theirs).rest },
      run,
      k.holding.between.taker_at,
      sweep-total clock t.id 0 closed t.remaining_qty theirs,
      sweep-all_open clock t.id closed t.remaining_qty theirs 0,
    )

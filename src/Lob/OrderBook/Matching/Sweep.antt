-- ===== src/Lob/OrderBook/Matching/Sweep.antt =====
-- What a taker's quantity does to the levels of a side: an independent description of the outer
-- matching loop, over lists.
use object_oriented_programm.Prelude.{
  ℕ, suc, ◌+◌, ◌-◌, ◌≡◌, refl, Bool, true, false, ◌||◌, List, [], ◌∷◌, ◌++◌, ◌==◌, if◌then◌else◌,
  arith, length, ap,
}
use object_oriented_programm.Lob.Types.{Ptr, Order, MatchEvent}
use object_oriented_programm.Lob.PriceLevel.Chain.{Entry, addresses}
use object_oriented_programm.Lob.OrderBook.View.{Level, count}
use object_oriented_programm.Lob.OrderBook.Matching.Fill.{fill, events}

-- A trade: the level's price, the maker, the quantity.
abbrev pub Trade : Type 0
Trade = ℕ × Order × ℕ

abbrev pub tag : ℕ → List (Order × ℕ) → List Trade
tag price [] = []
tag price ((o, q) ∷ fs) = (price, o, q) ∷ tag price fs

abbrev pub is_nil : List Entry → Bool
is_nil [] = true
is_nil (x ∷ xs) = false

-- The levels that stay, those that are emptied, the orders used up, the trades, and the quantity
-- that is not filled.
pub record Swept : Type 0 where
  pub left : List Level
  pub emptied : List Level
  pub used : List Entry
  pub trades : List Trade
  pub rest : ℕ

abbrev pub stop : ℕ → List Level → Swept
stop qty vs = record { left = vs; emptied = []; used = []; trades = []; rest = qty }

-- `closed price` says that the taker does not trade at that price.
unfoldable pub sweep : (ℕ → Bool) → ℕ → List Level → Swept
sweep closed qty [] = stop qty []
sweep closed qty (v ∷ vs) =
    let f = fill qty v.orders in
    let next = sweep closed f.rest vs in
    if qty == 0 || closed v.price
    then stop qty (v ∷ vs)
    else if is_nil f.left
    then record {
      left = next.left;
      emptied = v ∷ next.emptied;
      used = f.used ++ next.used;
      trades = tag v.price f.fills ++ next.trades;
      rest = next.rest;
    }
    else record {
      left = record v { orders = f.left } ∷ vs;
      emptied = [];
      used = f.used;
      trades = tag v.price f.fills;
      rest = f.rest;
    }

-- The trades as the program reports them; `n` trades stand before them.
abbrev pub reports : (ℕ → ℕ) → ℕ → ℕ → List Trade → List MatchEvent
reports clock taker_id n [] = []
reports clock taker_id n ((price, o, q) ∷ ts) =
    record {
      maker_order_id = o.id;
      taker_order_id = taker_id;
      match_price = price;
      match_quantity = q;
      timestamp = clock n;
    }
    ∷ reports clock taker_id (suc n) ts

pub reports-tag :
    (clock : ℕ → ℕ) (id price n : ℕ) (fs : List (Order × ℕ))
    → events clock id price n fs ≡ reports clock id n (tag price fs)
reports-tag clock id price n [] = refl
reports-tag clock id price n ((o, q) ∷ fs) = rw (reports-tag clock id price (suc n) fs)

-- A taker that leaves an order of the level is filled.
pub fill-left :
    (qty : ℕ) (xs : List Entry) → is_nil (fill qty xs).left ≡ false → (fill qty xs).rest ≡ 0
unfolding fill
fill-left qty [] h = cc
fill-left qty ((a, o) ∷ xs) h = ground (arith, fill-left (qty - o.remaining_qty) xs)

-- No address is lost or made up by a match.
pub fill-count :
    (a : Ptr) (qty : ℕ) (xs : List Entry)
    → count a (addresses (fill qty xs).left) + count a (addresses (fill qty xs).used)
      ≡ count a (addresses xs)
unfolding fill
fill-count a qty [] = refl
fill-count a qty ((p, o) ∷ xs) = ground (arith, fill-count a (qty - o.remaining_qty) xs)

pub fill-length :
    (qty : ℕ) (xs : List Entry) → length (fill qty xs).left + length (fill qty xs).used ≡ length xs
unfolding fill
fill-length qty [] = refl
fill-length qty ((p, o) ∷ xs) = ground (arith, fill-length (qty - o.remaining_qty) xs)

pub eq_nil : (xs : List Entry) → is_nil xs ≡ true → xs ≡ []
eq_nil [] h = refl
eq_nil (x ∷ xs) h = cc

pub length-tag : (price : ℕ) (fs : List (Order × ℕ)) → length (tag price fs) ≡ length fs
length-tag price [] = refl
length-tag price (f ∷ fs) = ap suc (length-tag price fs)

pub reports-append :
    (clock : ℕ → ℕ) (id n : ℕ) (ts us : List Trade)
    → reports clock id n (ts ++ us) ≡ reports clock id n ts ++ reports clock id (n + length ts) us
reports-append clock id n [] us = ap (λ k. reports clock id k us) (omega arith)
reports-append clock id n (t ∷ ts) us =
    let shift : suc n + length ts ≡ n + length (t ∷ ts) = omega arith in
    rw (reports-append clock id (suc n) ts us, shift)

pub length-events :
    (clock : ℕ → ℕ) (id price n : ℕ) (fs : List (Order × ℕ))
    → length (events clock id price n fs) ≡ length fs
length-events clock id price n [] = refl
length-events clock id price n (f ∷ fs) = ap suc (length-events clock id price (suc n) fs)

-- The three ways in which a level can answer.
pub sweep-stop :
    (closed : ℕ → Bool) (qty : ℕ) (v : Level) (vs : List Level)
    → ((qty == 0) || closed v.price) ≡ true
    → sweep closed qty (v ∷ vs) ≡ stop qty (v ∷ vs)
unfolding sweep
sweep-stop closed qty v vs h = rw h

pub sweep-emptied :
    (closed : ℕ → Bool) (qty : ℕ) (v : Level) (vs : List Level)
    → ((qty == 0) || closed v.price) ≡ false
    → is_nil (fill qty v.orders).left ≡ true
    → let f = fill qty v.orders in
      let next = sweep closed f.rest vs in
      sweep closed qty (v ∷ vs) ≡ record {
        left = next.left;
        emptied = v ∷ next.emptied;
        used = f.used ++ next.used;
        trades = tag v.price f.fills ++ next.trades;
        rest = next.rest;
      }
unfolding sweep
sweep-emptied closed qty v vs h e = rw (h, e)

pub sweep-left :
    (closed : ℕ → Bool) (qty : ℕ) (v : Level) (vs : List Level)
    → ((qty == 0) || closed v.price) ≡ false
    → is_nil (fill qty v.orders).left ≡ false
    → let f = fill qty v.orders in
      sweep closed qty (v ∷ vs) ≡ record {
        left = record v { orders = f.left } ∷ vs;
        emptied = [];
        used = f.used;
        trades = tag v.price f.fills;
        rest = f.rest;
      }
unfolding sweep
sweep-left closed qty v vs h e = rw (h, e)

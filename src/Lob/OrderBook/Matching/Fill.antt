-- ===== src/Lob/OrderBook/Matching/Fill.antt =====
-- What a taker's quantity does to the orders of one level: an independent description of the
-- inner matching loop, over lists.
use object_oriented_programm.Prelude.{
  ℕ, suc, ◌+◌, ◌-◌, ◌≡◌, ◌≤◌, ◌<◌, List, [], ◌∷◌, leb, le→leb, lt→leb, true, false, ◌==◌,
  if◌then◌else◌,
}
use object_oriented_programm.Lob.Types.{Ptr, Order, MatchEvent}
use object_oriented_programm.Lob.PriceLevel.Chain.{Entry}

-- The orders that stay, those that are used up, the trades as makers with quantities, and the
-- quantity that is not filled.
pub record Filled : Type 0 where
  pub left : List Entry
  pub used : List Entry
  pub fills : List (Order × ℕ)
  pub rest : ℕ

unfoldable pub fill : ℕ → List Entry → Filled
fill qty [] = record { left = []; used = []; fills = []; rest = qty }
fill qty ((a, o) ∷ xs) =
    let next = fill (qty - o.remaining_qty) xs in
    if qty == 0
    then record { left = (a, o) ∷ xs; used = []; fills = []; rest = qty }
    else if leb o.remaining_qty qty
    then record {
      left = next.left;
      used = (a, o) ∷ next.used;
      fills = (o, o.remaining_qty) ∷ next.fills;
      rest = next.rest;
    }
    else record {
      left = (a, record o { remaining_qty = o.remaining_qty - qty }) ∷ xs;
      used = [];
      fills = (o, qty) ∷ [];
      rest = 0;
    }

abbrev pub traded : List (Order × ℕ) → ℕ
traded [] = 0
traded ((o, q) ∷ fs) = q + traded fs

-- The trades as the program reports them; `n` trades stand before them.
abbrev pub events : (ℕ → ℕ) → ℕ → ℕ → ℕ → List (Order × ℕ) → List MatchEvent
events clock taker_id price n [] = []
events clock taker_id price n ((o, q) ∷ fs) =
    record {
      maker_order_id = o.id;
      taker_order_id = taker_id;
      match_price = price;
      match_quantity = q;
      timestamp = clock n;
    }
    ∷ events clock taker_id price (suc n) fs

-- One step of `fill` in each of its three cases.
pub fill-zero :
    (qty : ℕ) (x : Entry) (xs : List Entry)
    → (qty == 0) ≡ true
    → fill qty (x ∷ xs) ≡ record { left = x ∷ xs; used = []; fills = []; rest = qty }
unfolding fill
fill-zero qty x xs h = rw h

pub fill-full :
    (qty : ℕ) (a : Ptr) (o : Order) (xs : List Entry)
    → (qty == 0) ≡ false
    → o.remaining_qty ≤ qty
    → let next = fill (qty - o.remaining_qty) xs in
      fill qty ((a, o) ∷ xs) ≡ record {
        left = next.left;
        used = (a, o) ∷ next.used;
        fills = (o, o.remaining_qty) ∷ next.fills;
        rest = next.rest;
      }
unfolding fill
fill-full qty a o xs h le = rw (h, le→leb o.remaining_qty qty le)

pub fill-part :
    (qty : ℕ) (a : Ptr) (o : Order) (xs : List Entry)
    → (qty == 0) ≡ false
    → qty < o.remaining_qty
    → fill qty ((a, o) ∷ xs) ≡ record {
      left = (a, record o { remaining_qty = o.remaining_qty - qty }) ∷ xs;
      used = [];
      fills = (o, qty) ∷ [];
      rest = 0;
    }
unfolding fill
fill-part qty a o xs h lt = rw (h, lt→leb o.remaining_qty qty lt)

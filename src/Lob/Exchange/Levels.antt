-- ===== src/Lob/Exchange/Levels.antt =====
-- How many levels a side of 02_LOB_Engine's book has, not more than orders, nor than prices, and
-- how much their orders want.
use object_oriented_programm.Prelude.{
  ℕ, suc, ◌+◌, ◌≡◌, refl, ◌≤◌, ◌<◌, ◌^◌, false, List, [], ◌∷◌, ◌++◌, length, max, arith, ap,
  length-append,
}
use object_oriented_programm.Lob.Types.{Side, buy, sell}
use object_oriented_programm.Lob.PriceLevel.Chain.{Entry}
use object_oriented_programm.Lob.PriceLevel.Represents.{volume}
use object_oriented_programm.Lob.OrderBook.View.{Level, orders_of}
use object_oriented_programm.Lob.OrderBook.Represents.{LevelsStand, AllBehind, Sorted}
use object_oriented_programm.Lob.OrderBook.Matching.Sweep.{is_nil}
use object_oriented_programm.Lob.OrderBook.Orders.Append.{VolumesFit}
use object_oriented_programm.Lob.Exchange.{Quote}
use object_oriented_programm.Lob.Exchange.Flat.{quotes, flat}
use object_oriented_programm.Lob.Exchange.Meet.{total_wanted, above}

total_wanted-append :
    (xs ys : List Quote) → total_wanted (xs ++ ys) ≡ total_wanted xs + total_wanted ys
total_wanted-append [] ys = omega arith
total_wanted-append (q ∷ xs) ys = omega (arith, total_wanted-append xs ys)

volume-quotes : (p : ℕ) (xs : List Entry) → total_wanted (quotes p xs) ≡ volume xs
volume-quotes p [] = refl
volume-quotes p ((a, o) ∷ xs) = ap (λ n. o.remaining_qty + n) (volume-quotes p xs)

pub flat-VolumesFit : (vs : List Level) → total_wanted (flat vs) < 2 ^ 32 → VolumesFit vs
flat-VolumesFit [] h = tt
flat-VolumesFit (v ∷ vs) h =
    let split = total_wanted-append (quotes v.price v.orders) (flat vs) in
    let here = volume-quotes v.price v.orders in
    (omega (arith, split, here), flat-VolumesFit vs (omega (arith, split)))

length-quotes : (p : ℕ) (xs : List Entry) → length (quotes p xs) ≡ length xs
length-quotes p [] = refl
length-quotes p (x ∷ xs) = ap suc (length-quotes p xs)

pub length-flat : (vs : List Level) → length (flat vs) ≡ length (orders_of vs)
length-flat [] = refl
length-flat (v ∷ vs) = omega (
  arith,
  length-append (quotes v.price v.orders) (flat vs),
  length-append v.orders (orders_of vs),
  length-quotes v.price v.orders,
  length-flat vs,
)

pos_of_full : (xs : List Entry) → is_nil xs ≡ false → 1 ≤ length xs
pos_of_full [] h = cc
pos_of_full (x ∷ xs) h = omega arith

pub levels_le : (side : Side) (vs : List Level) → LevelsStand side vs → length vs ≤ length (flat vs)
levels_le side [] st = omega arith
levels_le side (v ∷ vs) (full, _, st) = omega (
  arith,
  length-append (quotes v.price v.orders) (flat vs),
  length-quotes v.price v.orders,
  pos_of_full v.orders full,
  levels_le side vs st,
)

above-append : (xs ys : List Quote) → above (xs ++ ys) ≡ max (above xs) (above ys)
above-append [] ys = omega arith
above-append (q ∷ xs) ys = omega (arith, above-append xs ys)

above-quotes : (p : ℕ) (xs : List Entry) → is_nil xs ≡ false → above (quotes p xs) ≡ suc p
above-quotes p [] h = cc
above-quotes p ((a, o) ∷ []) h = omega arith
above-quotes p ((a, o) ∷ x ∷ xs) h = omega (arith, above-quotes p (x ∷ xs) refl)

-- A level's price counts.
above-flat :
    (side : Side) (v : Level) (vs : List Level)
    → LevelsStand side (v ∷ vs)
    → above (flat (v ∷ vs)) ≡ max (suc v.price) (above (flat vs))
above-flat side v vs (full, _, st) =
    omega
      (arith, above-append (quotes v.price v.orders) (flat vs), above-quotes v.price v.orders full)

bids_below : (p : ℕ) (vs : List Level) → AllBehind buy p vs → Sorted buy vs → length vs ≤ p
bids_below p [] b s = omega arith
bids_below p (v ∷ vs) (b, _) (c, s) = ground (arith, bids_below v.price vs c s)

asks_up :
    (v : Level) (vs : List Level)
    → LevelsStand sell (v ∷ vs)
    → Sorted sell (v ∷ vs)
    → v.price + length (v ∷ vs) ≤ above (flat (v ∷ vs))
asks_up v [] st s = omega (arith, above-flat sell v [] st)
asks_up v (w ∷ vs) st (b, s) =
    let (_, _, st') = st in ground (arith, above-flat sell v (w ∷ vs) st, asks_up w vs st' s, b.0)

pub length-above :
    (side : Side) (vs : List Level)
    → LevelsStand side vs
    → Sorted side vs
    → length vs ≤ above (flat vs)
length-above side [] st s = omega arith
length-above buy (v ∷ vs) st (b, s) =
    omega (arith, above-flat buy v vs st, bids_below v.price vs b s)
length-above sell (v ∷ vs) st s = omega (arith, asks_up v vs st s)

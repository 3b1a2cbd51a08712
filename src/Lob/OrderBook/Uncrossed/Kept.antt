-- ===== src/Lob/OrderBook/Uncrossed/Kept.antt =====
-- No bid meets an ask: seen from the other side, and after cancelOrder of
-- 02_LOB_Engine/src/OrderBook.cpp.
use object_oriented_programm.Prelude.{ℕ, List, [], ◌∷◌, ◌++◌, is_some, Bool-cases, inl, inr}
use object_oriented_programm.Lob.Types.{Side}
use object_oriented_programm.Lob.PriceLevel.Chain.{Entry, has}
use object_oriented_programm.Lob.OrderBook.View.{Level}
use object_oriented_programm.Lob.OrderBook.Represents.{opposite, AllBehind, ids}
use object_oriented_programm.Lob.OrderBook.Cancel.Lists.{erase_order, cancel_from, kept_level}
use object_oriented_programm.Lob.OrderBook.Cancel.{less_order, holder}
use object_oriented_programm.Lob.OrderBook.Uncrossed.{Uncrossed, beyond-before}

first_level-Uncrossed :
    (side : Side) (w : Level) (mine theirs : List Level)
    → Uncrossed side mine (w ∷ theirs)
    → AllBehind (opposite (opposite side)) w.price mine × Uncrossed side mine theirs
first_level-Uncrossed side w [] theirs u = (tt, tt)
first_level-Uncrossed side w (v ∷ mine) theirs ((b, bs), u) =
    let (here, rest) = first_level-Uncrossed side w mine theirs u in
    ((beyond-before (opposite side) v.price w.price b, here), (bs, rest))

pub flip-Uncrossed :
    (side : Side) (mine theirs : List Level)
    → Uncrossed side mine theirs
    → Uncrossed (opposite side) theirs mine
flip-Uncrossed side mine [] u = tt
flip-Uncrossed side mine (w ∷ theirs) u =
    let (here, rest) = first_level-Uncrossed side w mine theirs u in
    (here, flip-Uncrossed side mine theirs rest)

kept_level-AllBehind :
    (side : Side) (price : ℕ) (v : Level) (xs : List Entry) (vs : List Level)
    → AllBehind side price (v ∷ vs)
    → AllBehind side price (kept_level v xs ++ vs)
kept_level-AllBehind side price v [] vs (b, bs) = bs
kept_level-AllBehind side price v (x ∷ xs) vs b = b

cancel_from-AllBehind :
    (side : Side) (price id : ℕ) (vs : List Level)
    → AllBehind side price vs
    → AllBehind side price (cancel_from id vs)
unfolding cancel_from
cancel_from-AllBehind side price id [] b = tt
cancel_from-AllBehind side price id (v ∷ vs) (b, bs) = elim (Bool-cases (has id (ids v.orders))) [
  | inl here ↦ rw here (kept_level-AllBehind side price v (erase_order id v.orders) vs (b, bs))
  | inr later ↦ rw later (b, cancel_from-AllBehind side price id vs bs)
]

less_order-AllBehind :
    (side : Side) (price id : ℕ) (vs : List Level)
    → AllBehind side price vs
    → AllBehind side price (less_order id vs)
unfolding less_order
less_order-AllBehind side price id vs b = elim (Bool-cases (is_some (holder id vs))) [
  | inl there ↦ rw there (cancel_from-AllBehind side price id vs b)
  | inr gone ↦ rw gone b
]

theirs-Uncrossed :
    (side : Side) (id : ℕ) (mine theirs : List Level)
    → Uncrossed side mine theirs
    → Uncrossed side mine (less_order id theirs)
theirs-Uncrossed side id [] theirs u = tt
theirs-Uncrossed side id (v ∷ mine) theirs (b, u) = (
  less_order-AllBehind (opposite side) v.price id theirs b,
  theirs-Uncrossed side id mine theirs u,
)

kept_level-Uncrossed :
    (side : Side) (v : Level) (xs : List Entry) (mine theirs : List Level)
    → Uncrossed side (v ∷ mine) theirs
    → Uncrossed side (kept_level v xs ++ mine) theirs
kept_level-Uncrossed side v [] mine theirs (b, u) = u
kept_level-Uncrossed side v (x ∷ xs) mine theirs u = u

cancel_from-Uncrossed :
    (side : Side) (id : ℕ) (mine theirs : List Level)
    → Uncrossed side mine theirs
    → Uncrossed side (cancel_from id mine) theirs
unfolding cancel_from
cancel_from-Uncrossed side id [] theirs u = tt
cancel_from-Uncrossed side id (v ∷ mine) theirs (b, u) = elim (Bool-cases (has id (ids v.orders))) [
  | inl here ↦ rw here (kept_level-Uncrossed side v (erase_order id v.orders) mine theirs (b, u))
  | inr later ↦ rw later (b, cancel_from-Uncrossed side id mine theirs u)
]

-- The order may stand on either side.
pub less_order-Uncrossed :
    (side : Side) (id : ℕ) (mine theirs : List Level)
    → Uncrossed side mine theirs
    → Uncrossed side (less_order id mine) (less_order id theirs)
unfolding less_order
less_order-Uncrossed side id mine theirs u =
    let kept = theirs-Uncrossed side id mine theirs u in
    elim (Bool-cases (is_some (holder id mine))) [
      | inl there ↦ rw there (cancel_from-Uncrossed side id mine (less_order id theirs) kept)
      | inr gone ↦ rw gone kept
    ]

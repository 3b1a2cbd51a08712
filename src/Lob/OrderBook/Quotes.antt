-- ===== src/Lob/OrderBook/Quotes.antt =====
-- getBestBid, getBestAsk, getSpread and printBook of 02_LOB_Engine/src/OrderBook.cpp against the
-- lists that the book stands for.
use object_oriented_programm.Prelude.{
  ℕ, zero, suc, ◌-◌, ◌≡◌, refl, Option, some, none, List, [], ◌∷◌, reverse, arith, ok, ap, ◌∙◌,
}
use object_oriented_programm.Lob.Types.{buy}
use object_oriented_programm.Lob.Pool.Access.{load-ok}
use object_oriented_programm.Lob.PriceLevel.Represents.{volume}
use object_oriented_programm.Lob.OrderBook.{OrderBook}
use object_oriented_programm.Lob.OrderBook.View.{Level, LevelsAt, index}
use object_oriented_programm.Lob.OrderBook.Represents.{Represents}
use object_oriented_programm.Lob.OrderBook.Uncrossed.{Uncrossed}
use object_oriented_programm.Lob.OrderBook.Queries.{
  best, get_best_bid, get_best_ask, spread_of, get_spread, depth, print_book,
}

-- The best price of a side, with the quantity wanted there.
abbrev pub quote : List Level → Option (ℕ × ℕ)
quote [] = none
quote (v ∷ vs) = some (v.price, volume v.orders)

-- The first `n` levels of a side.
abbrev pub quotes : ℕ → List Level → List (ℕ × ℕ)
quotes zero vs = []
quotes (suc n) [] = []
quotes (suc n) (v ∷ vs) = (v.price, volume v.orders) ∷ quotes n vs

-- The distance from the best bid to the best ask.
abbrev pub gap : (bids asks : List Level) → Option ℕ
gap [] asks = none
gap (v ∷ bids) [] = none
gap (v ∷ bids) (w ∷ asks) = some (w.price - v.price)

best_run :
    (b : OrderBook) (vs : List Level)
    → LevelsAt b.order_pool.storage b.level_pool.storage vs
    → best (index vs) b ≡ ok (quote vs) b
unfolding best
best_run b [] at = refl
best_run b (v ∷ vs) (l, at) = rw (load-ok v.addr b.level_pool l.level_at)

depth_run :
    (b : OrderBook) (n : ℕ) (vs : List Level)
    → LevelsAt b.order_pool.storage b.level_pool.storage vs
    → depth n (index vs) b ≡ ok (quotes n vs) b
unfolding depth
depth_run b zero vs at = refl
depth_run b (suc n) [] at = refl
depth_run b (suc n) (v ∷ vs) (l, at) =
    rw (load-ok v.addr b.level_pool l.level_at, depth_run b n vs at)

spread-gap :
    (bids asks : List Level)
    → Uncrossed buy bids asks
    → spread_of (index bids) (index asks) ≡ gap bids asks
unfolding spread_of
spread-gap [] asks u = refl
spread-gap (v ∷ bids) [] u = refl
spread-gap (v ∷ bids) (w ∷ asks) u = ground (arith, u.0.0)

spread_lem :
    (b : OrderBook) (bids asks : List Level)
    → Represents b buy bids asks
    → Uncrossed buy bids asks
    → get_spread b ≡ gap bids asks
unfolding get_spread
spread_lem b bids asks r u =
    ap (λ m. spread_of m b.asks) r.mine_map
    ∙ ap (spread_of (index bids)) r.theirs_map
    ∙ spread-gap bids asks u

-- On a book that represents lists of bids and asks of which no bid meets an ask, getBestBid and
-- getBestAsk answer the price of the first level of their side and the sum of what its orders want,
-- or none for an empty side, getSpread answers the distance of the two prices, or none if a side is
-- empty, and no query changes the book.
pub quotes_lem :
    (b : OrderBook) (bids asks : List Level)
    → Represents b buy bids asks
    → Uncrossed buy bids asks
    → (get_best_bid b ≡ ok (quote bids) b)
      × (get_best_ask b ≡ ok (quote asks) b)
      × (get_spread b ≡ gap bids asks)
unfolding get_best_bid get_best_ask get_spread
quotes_lem b bids asks r u = (
  ap (λ m. best m b) r.mine_map ∙ best_run b bids r.mine_at,
  ap (λ m. best m b) r.theirs_map ∙ best_run b asks r.theirs_at,
  spread_lem b bids asks r u,
)

-- On a book that represents lists of bids and asks of which no bid meets an ask, printBook with `n`
-- levels shows the first `n` levels of the asks from the worst to the best, the spread, and the
-- first `n` levels of the bids from the best on, and does not change the book.
pub print_book_lem :
    (b : OrderBook) (bids asks : List Level) (n : ℕ)
    → Represents b buy bids asks
    → Uncrossed buy bids asks
    → print_book n b
      ≡ ok
          (record { asks = reverse (quotes n asks); spread = gap bids asks; bids = quotes n bids })
          b
unfolding print_book
print_book_lem b bids asks n r u =
    let asks_run = ap (λ m. depth n m b) r.theirs_map ∙ depth_run b n asks r.theirs_at in
    let bids_run = ap (λ m. depth n m b) r.mine_map ∙ depth_run b n bids r.mine_at in
    rw (asks_run, bids_run, spread_lem b bids asks r u)

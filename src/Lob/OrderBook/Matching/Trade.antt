-- ===== src/Lob/OrderBook/Matching/Trade.antt =====
-- One round of the inner loop, at the head of a level.
use object_oriented_programm.Prelude.{
  ℕ, ◌-◌, ◌≡◌, refl, ◌≤◌, ◌<◌, min, List, [], ◌∷◌, ◌++◌, ◌==◌, true, false, Option, some, arith,
  length, erase, ok, ap, ◌∙◌,
}
use object_oriented_programm.Lob.Types.{Ptr, null, Order, MatchEvent}
use object_oriented_programm.Lob.Pool.{write}
use object_oriented_programm.Lob.Pool.Access.{with_storage, load-ok, write_self, write-other}
use object_oriented_programm.Lob.PriceLevel.{PriceLevel}
use object_oriented_programm.Lob.PriceLevel.Chain.{
  Entry, addresses, has, linked, first, SameOutside, Seg-write,
}
use object_oriented_programm.Lob.PriceLevel.Represents.{level_of, Holds}
use object_oriented_programm.Lob.OrderBook.{OrderBook}
use object_oriented_programm.Lob.OrderBook.Matching.{exchange, count_trade, trade}
use object_oriented_programm.Lob.OrderBook.Matching.Ready.{Ready, Kept, Counted, less}
use object_oriented_programm.Lob.OrderBook.Matching.Steps.{
  with_memory, exchange_lem, retire_maker_lem,
}

min_left : (q m : ℕ) → q < m → min q m ≡ q
min_left q m h = omega arith

min_right : (q m : ℕ) → m ≤ q → min q m ≡ m
min_right q m h = omega arith

sub_pos : (m q : ℕ) → q < m → (m - q == 0) ≡ false
sub_pos m q h = ground arith

sub_self : (m : ℕ) → (m - m == 0) ≡ true
sub_self m = ground arith

module _ (b : OrderBook) (lp taker : Ptr) (t : Order) (price : ℕ) (a : Ptr) (o : Order)
    (xs : List Entry) (ready : Ready b lp taker t price ((a, o) ∷ xs)) where
  -- The memory of orders after a trade over `q`.
  abbrev pub orders_after : ℕ → Ptr → Option Order
  orders_after q =
      write (write b.order_pool.storage taker (some (less t q))) a
        (some (linked (less o q) lp null (first xs null)))

  abbrev pub levels_after : ℕ → Ptr → Option PriceLevel
  levels_after q = write b.level_pool.storage lp (some (level_of price ((a, less o q) ∷ xs)))

  apart_head : (taker == a) ≡ false
  apart_head = ground (arith, ready.apart)

  exchange_head :
      (q : ℕ)
      → q ≤ t.remaining_qty
      → q ≤ o.remaining_qty
      → exchange lp taker a q b ≡ ok tt (with_memory b (orders_after q) (levels_after q))
  exchange_head q qt qo =
      exchange_lem lp taker a q b ready.taker_at (ready.holds.1).1 ready.level_at apart_head qt qo
        (omega arith) ready.taker_small (omega (arith, ready.volume_small)) ready.volume_small
      ∙ ap
          (λ v. ok tt (
            with_memory b (orders_after q) (
              write b.level_pool.storage lp
                (some (record (level_of price ((a, o) ∷ xs)) { total_volume = v })))))
          (omega arith)

  Holds-after : (q : ℕ) → Holds (orders_after q) lp ((a, less o q) ∷ xs)
  Holds-after q =
      let (d, (ne, at, rest)) = ready.holds in
      let h = b.order_pool.storage in
      let apart : has taker (addresses xs) ≡ false = ground (arith, ready.apart) in
      (
        d,
        (
          ne,
          write_self (write h taker (some (less t q))) a _,
          Seg-write (write h taker (some (less t q))) lp a xs null a _ d.0
              (Seg-write h lp a xs null taker _ apart rest),
        ),
      )

  taker-after : (q : ℕ) → orders_after q taker ≡ some (less t q)
  taker-after q =
      write-other (write b.order_pool.storage taker (some (less t q))) a taker _
        (ground (arith, apart_head))
      ∙ write_self b.order_pool.storage taker _

  orders_after-same : (q : ℕ) → SameOutside (taker ∷ a ∷ []) b.order_pool.storage (orders_after q)
  orders_after-same q p out =
      write-other (write b.order_pool.storage taker (some (less t q))) a p _ (ground arith)
      ∙ write-other b.order_pool.storage taker p _ (ground arith)

  abbrev event : (ℕ → ℕ) → ℕ → ℕ → MatchEvent
  event clock n q = record {
    maker_order_id = o.id;
    taker_order_id = t.id;
    match_price = price;
    match_quantity = q;
    timestamp = clock n;
  }

  -- The taker is worth less than the maker: it is filled, and the maker stays at the head.
  pub trade_part :
      (clock : ℕ → ℕ) (ms : List MatchEvent)
      → t.remaining_qty < o.remaining_qty
      → trade clock lp taker a ms b
        ≡ ok (ms ++ event clock (length ms) t.remaining_qty ∷ []) (
            count_trade t.remaining_qty
              (with_memory b (orders_after t.remaining_qty) (levels_after t.remaining_qty)))
  unfolding trade
  trade_part clock ms lt =
      let q = t.remaining_qty in
      let h = orders_after q in
      let g = levels_after q in
      rw (
        load-ok taker b.order_pool ready.taker_at,
        load-ok a b.order_pool (ready.holds.1).1,
        min_left q o.remaining_qty lt,
        exchange_head q (omega arith) (omega arith),
        load-ok a (with_storage b.order_pool h) ((Holds-after q).1).1,
        load-ok taker (with_storage b.order_pool h) (taker-after q),
        load-ok lp (with_storage b.level_pool g) (write_self b.level_pool.storage lp _),
        sub_pos o.remaining_qty q lt,
      )

  -- The maker is used up: it leaves the level, the map and the pool.
  pub trade_full :
      (clock : ℕ → ℕ) (ms : List MatchEvent)
      → o.remaining_qty ≤ t.remaining_qty
      → let q = o.remaining_qty in
        (b' : OrderBook) × (trade clock lp taker a ms b
          ≡ ok (ms ++ event clock (length ms) q ∷ []) b')
        × Ready b' lp taker (less t q) price xs
        × Kept lp (taker ∷ a ∷ addresses xs) b b'
        × (b'.order_pool.free_list ≡ a ∷ b.order_pool.free_list)
        × (b'.order_map ≡ erase o.id b.order_map)
        × Counted (q ∷ []) b b'
  unfolding trade count_trade
  trade_full clock ms le =
      let q = o.remaining_qty in
      let h = orders_after q in
      let g = levels_after q in
      let b₁ = count_trade q (with_memory b h g) in
      let (h', run, holds, same) =
        retire_maker_lem price o.id lp a (less o q) xs b₁ (write_self b.level_pool.storage lp _)
          (Holds-after q) in
      let apart : has taker (addresses xs) ≡ false = ground (arith, ready.apart) in
      (
        record b₁ {
          order_map = erase o.id b.order_map;
          order_pool = record {
            storage = h';
            free_list = a ∷ b.order_pool.free_list;
            capacity = b.order_pool.capacity;
          };
          level_pool = with_storage b.level_pool (write g lp (some (level_of price xs)));
        },
        rw (
          load-ok taker b.order_pool ready.taker_at,
          load-ok a b.order_pool (ready.holds.1).1,
          min_right t.remaining_qty q le,
          exchange_head q le (omega arith),
          load-ok a (with_storage b.order_pool h) ((Holds-after q).1).1,
          load-ok taker (with_storage b.order_pool h) (taker-after q),
          load-ok lp (with_storage b.level_pool g) (write_self b.level_pool.storage lp _),
          sub_self q,
          run,
        ),
        record {
          level_at = write_self g lp _;
          taker_at = same taker (ground (arith, apart_head)) ∙ taker-after q;
          holds = holds;
          apart = apart;
          taker_small = omega (arith, ready.taker_small);
          volume_small = omega (arith, ready.volume_small);
        },
        record {
          bids = refl;
          asks = refl;
          level_free = refl;
          level_capacity = refl;
          level_same = λ p ne.
              write-other g lp p _ (ground arith)
              ∙ write-other b.level_pool.storage lp p _ (ground arith);
          order_capacity = refl;
          order_same = λ p out. same p (ground arith) ∙ orders_after-same q p (ground arith);
        },
        refl,
        refl,
        (refl, refl),
      )

  pub part-Ready :
      t.remaining_qty < o.remaining_qty
      → let q = t.remaining_qty in
        Ready
          (count_trade q (with_memory b (orders_after q) (levels_after q)))
          lp
          taker
          (less t q)
          price
          ((a, less o q) ∷ xs)
  unfolding count_trade
  part-Ready lt =
      let q = t.remaining_qty in
      record {
        level_at = write_self b.level_pool.storage lp _;
        taker_at = taker-after q;
        holds = Holds-after q;
        apart = ready.apart;
        taker_small = omega (arith, ready.taker_small);
        volume_small = omega (arith, ready.volume_small);
      }

  pub part-Kept :
      (q : ℕ)
      → Kept lp
          (taker ∷ a ∷ addresses xs)
          b
          (count_trade q (with_memory b (orders_after q) (levels_after q)))
  unfolding count_trade
  part-Kept q = record {
    bids = refl;
    asks = refl;
    level_free = refl;
    level_capacity = refl;
    level_same = λ p ne. write-other b.level_pool.storage lp p _ (ground arith);
    order_capacity = refl;
    order_same = λ p out. orders_after-same q p (ground arith);
  }

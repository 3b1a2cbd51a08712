-- ===== src/Lob/OrderBook/Orders/Open.antt =====
-- getOrCreatePriceLevel, append and the entry in the map, for an order that comes to rest.
use object_oriented_programm.Prelude.{
  ℕ, ◌+◌, ◌≡◌, refl, ◌≤◌, Option, some, none, List, [], ◌∷◌, ◌++◌, arith, length, length-append,
  lookup, ok, ap, ◌∙◌, sym, subst,
}
use object_oriented_programm.Lob.Types.{Ptr, null, Side, buy, sell, Order}
use object_oriented_programm.Lob.Pool.{write}
use object_oriented_programm.Lob.Pool.Access.{allocate-ok, write_self, write-other}
use object_oriented_programm.Lob.PriceLevel.{PriceLevel, new_level}
use object_oriented_programm.Lob.PriceLevel.Chain.{addresses, addresses-append}
use object_oriented_programm.Lob.OrderBook.{OrderBook, levels, before, insert_level, with_levels}
use object_oriented_programm.Lob.OrderBook.View.{
  Level, LevelAt, LevelsAt, LevelsAt-frame, index, level_addresses, count, count-append, slot-le,
  orders_of,
}
use object_oriented_programm.Lob.OrderBook.Represents.{opposite}
use object_oriented_programm.Lob.OrderBook.Matching.Between.{Between, Between-levels}
use object_oriented_programm.Lob.OrderBook.Orders.{use_or_create, get_or_create_price_level}
use object_oriented_programm.Lob.OrderBook.Orders.Holding.{Holding}
use object_oriented_programm.Lob.OrderBook.Orders.Join.{fresh_level, Split, join-Found, join-fresh}

pub LevelsAt-append :
    (h : Ptr → Option Order) (g : Ptr → Option PriceLevel) (ys zs : List Level)
    → LevelsAt h g ys
    → LevelsAt h g zs
    → LevelsAt h g (ys ++ zs)
LevelsAt-append h g [] zs l r = r
LevelsAt-append h g (v ∷ ys) zs (l, ls) r = (l, LevelsAt-append h g ys zs ls r)

pub LevelsAt-split :
    (h : Ptr → Option Order) (g : Ptr → Option PriceLevel) (ys zs : List Level)
    → LevelsAt h g (ys ++ zs)
    → LevelsAt h g ys × LevelsAt h g zs
LevelsAt-split h g [] zs r = (tt, r)
LevelsAt-split h g (v ∷ ys) zs (l, ls) = let (a, b) = LevelsAt-split h g ys zs ls in ((l, a), b)

pub count-levels :
    (p : Ptr) (ys zs : List Level)
    → count p (level_addresses (ys ++ zs))
      ≡ count p (level_addresses ys) + count p (level_addresses zs)
count-levels p [] zs = omega arith
count-levels p (v ∷ ys) zs = omega (arith, count-levels p ys zs)

pub count-side :
    (a : Ptr) (ys zs : List Level)
    → count a (addresses (orders_of (ys ++ zs)))
      ≡ count a (addresses (orders_of ys)) + count a (addresses (orders_of zs))
count-side a [] zs = omega arith
count-side a (v ∷ ys) zs = omega (
  arith,
  count-side a ys zs,
  ap (count a) (addresses-append v.orders (orders_of (ys ++ zs))),
  ap (count a) (addresses-append v.orders (orders_of ys)),
  count-append a (addresses v.orders) (addresses (orders_of (ys ++ zs))),
  count-append a (addresses v.orders) (addresses (orders_of ys)),
)

pub length-side :
    (ys zs : List Level)
    → length (orders_of (ys ++ zs)) ≡ length (orders_of ys) + length (orders_of zs)
length-side [] zs = omega arith
length-side (v ∷ ys) zs = omega (
  arith,
  length-side ys zs,
  length-append v.orders (orders_of (ys ++ zs)),
  length-append v.orders (orders_of ys),
)

levels-with :
    (side : Side) (m : List (ℕ × Ptr)) (b : OrderBook) → levels side (with_levels side m b) ≡ m
levels-with buy m b = refl
levels-with sell m b = refl

levels-with_opposite :
    (side : Side) (m : List (ℕ × Ptr)) (b : OrderBook)
    → levels (opposite side) (with_levels side m b) ≡ levels (opposite side) b
levels-with_opposite buy m b = refl
levels-with_opposite sell m b = refl

-- The map of `side` leads to `ahead`, `level` and `behind`, and the level's orders and the taker
-- stand in the pools. The level may be new and empty.
pub record Placed (b c : OrderBook) (side : Side) (taker : Ptr) (t : Order)
    (theirs ahead : List Level) (level : Level) (behind : List Level) : Type 0 where
  pub between : Between c taker t theirs (ahead ++ level ∷ behind)
  pub mine_map : levels side c ≡ index (ahead ++ level ∷ behind)
  pub theirs_map : levels (opposite side) c ≡ levels (opposite side) b
  pub order_map : c.order_map ≡ b.order_map
  pub order_capacity : c.order_pool.capacity ≡ b.order_pool.capacity

Placed-found :
    (b : OrderBook) (side : Side) (taker : Ptr) (t : Order) (mine theirs ahead : List Level)
    (level : Level) (behind : List Level)
    → mine ≡ ahead ++ level ∷ behind
    → Holding b side taker t mine theirs
    → Placed b b side taker t theirs ahead level behind
Placed-found b side taker t mine theirs ahead level behind e m = record {
  between = subst (Between b taker t theirs) e m.between;
  mine_map = m.mine_map ∙ ap index e;
  theirs_map = refl;
  order_map = refl;
  order_capacity = refl;
}

-- The book with a fresh level at `p` in the map `m` of `side`.
abbrev created : OrderBook → Side → ℕ → Ptr → List Ptr → List (ℕ × Ptr) → OrderBook
created b side price p rest m = with_levels side m (record b {
  level_pool = record {
    storage = write b.level_pool.storage p (some (new_level price));
    free_list = rest;
    capacity = b.level_pool.capacity;
  };
})

module _ (b : OrderBook) (taker : Ptr) (t : Order) (price : ℕ) (p : Ptr) (rest : List Ptr)
    (theirs ahead behind : List Level) (free : b.level_pool.free_list ≡ p ∷ rest)
    (m : Between b taker t theirs (ahead ++ behind)) where
  spared :
      (q : Ptr)
      → 1 ≤ count q (level_addresses theirs) + count q (level_addresses (ahead ++ behind))
      → write b.level_pool.storage p (some (new_level price)) q ≡ b.level_pool.storage q
  spared q i =
      let freed : count q b.level_pool.free_list ≡ count q (p ∷ rest) = ap (count q) free in
      write-other b.level_pool.storage p q _
        (ground (arith, freed, m.level_slots q, slot-le b.level_pool.capacity q))

  fresh-LevelAt :
      LevelAt b.order_pool.storage
        (write b.level_pool.storage p (some (new_level price)))
        (fresh_level p price)
  unfolding new_level
  fresh-LevelAt =
      let freed : count null b.level_pool.free_list ≡ count null (p ∷ rest) =
        ap (count null) free in
      record {
        ne_null = ground (arith, freed, m.level_slots null);
        level_at = write_self b.level_pool.storage p _;
        holds = (tt, tt);
        volume_small = omega arith;
      }

  created-Between :
      (side : Side) (l : List (ℕ × Ptr))
      → Between
          (created b side price p rest l)
          taker
          t
          theirs
          (ahead ++ fresh_level p price ∷ behind)
  created-Between side l =
      let h = b.order_pool.storage in
      let g = b.level_pool.storage in
      let g' = write g p (some (new_level price)) in
      let (at_ahead, at_behind) = LevelsAt-split h g ahead behind m.others in
      let freed = λ (q : Ptr). ap (count q) free in
      Between-levels _ side l taker t theirs (ahead ++ fresh_level p price ∷ behind) (record {
        at = LevelsAt-frame h h g g' theirs (λ a i. refl) (λ q i. spared q (omega arith)) m.at;
        others =
            LevelsAt-append h g' ahead (fresh_level p price ∷ behind)
              (LevelsAt-frame h h g g' ahead (λ a i. refl)
                (λ q i. spared q (omega (arith, count-levels q ahead behind))) at_ahead)
              (
                fresh-LevelAt,
                LevelsAt-frame h h g g' behind (λ a i. refl)
                    (λ q i. spared q (omega (arith, count-levels q ahead behind))) at_behind,
              );
        taker_at = m.taker_at;
        taker_small = m.taker_small;
        order_slots = λ a. omega (
          arith,
          m.order_slots a,
          count-side a ahead behind,
          count-side a ahead (fresh_level p price ∷ behind),
        );
        order_total = omega (
          arith,
          m.order_total,
          length-side ahead behind,
          length-side ahead (fresh_level p price ∷ behind),
        );
        level_slots = λ q. omega (
          arith,
          freed q,
          m.level_slots q,
          count-levels q ahead behind,
          count-levels q ahead (fresh_level p price ∷ behind),
        );
      })

-- What getOrCreatePriceLevel gives: the level that the order is to join, at its price. `p` is the
-- slot that a new level would get.
pub record Opened (b c : OrderBook) (side : Side) (taker : Ptr) (t : Order)
    (mine theirs : List Level) (p : Ptr) : Type 0 where
  pub split : Split side t.price (taker, t) p mine
  pub placed : Placed b c side taker t theirs split.ahead split.level split.behind
  pub same_orders : orders_of (split.ahead ++ split.level ∷ split.behind) ≡ orders_of mine

orders_of-fresh :
    (p : Ptr) (price : ℕ) (ys zs : List Level)
    → orders_of (ys ++ fresh_level p price ∷ zs) ≡ orders_of (ys ++ zs)
orders_of-fresh p price [] zs = refl
orders_of-fresh p price (y ∷ ys) zs = ap (◌++◌ y.orders) (orders_of-fresh p price ys zs)

with_levels-order_map :
    (side : Side) (m : List (ℕ × Ptr)) (b : OrderBook)
    → (with_levels side m b).order_map ≡ b.order_map
with_levels-order_map buy m b = refl
with_levels-order_map sell m b = refl

with_levels-capacity :
    (side : Side) (m : List (ℕ × Ptr)) (b : OrderBook)
    → (with_levels side m b).order_pool.capacity ≡ b.order_pool.capacity
with_levels-capacity buy m b = refl
with_levels-capacity sell m b = refl

create_run :
    (b : OrderBook) (side : Side) (price : ℕ) (p : Ptr) (rest : List Ptr)
    → b.level_pool.free_list ≡ p ∷ rest
    → let l = insert_level (before side) price p (levels side b) in
      (use_or_create side price none b ≡ ok p (created b side price p rest l))
      × (levels (opposite side) (created b side price p rest l) ≡ levels (opposite side) b)
unfolding use_or_create
create_run b buy price p rest free =
    (rw (allocate-ok (new_level price) p rest b.level_pool free), refl)
create_run b sell price p rest free =
    (rw (allocate-ok (new_level price) p rest b.level_pool free), refl)

module _ (b : OrderBook) (side : Side) (taker : Ptr) (t : Order) (mine theirs : List Level)
    (m : Holding b side taker t mine theirs) where
  abbrev pub Opens : Ptr → Type 0
  Opens p =
      (c : OrderBook) × (o : Opened b c side taker t mine theirs p) × (get_or_create_price_level
          side t.price b
        ≡ ok o.split.level.addr c)

  pub open_found : (p q : Ptr) → lookup t.price (index mine) ≡ some q → Opens p
  unfolding get_or_create_price_level
  open_found p q found =
      let (s, e, a) = join-Found side t.price (taker, t) p q mine m.well_formed.mine_sorted found in
      (
        b,
        record {
          split = s;
          placed = Placed-found b side taker t mine theirs s.ahead s.level s.behind e m;
          same_orders = ap orders_of (sym e);
        },
        ap (λ l. use_or_create side t.price l b) (ap (lookup t.price) m.mine_map ∙ found)
            ∙ ap (λ a. ok a b) (sym a),
      )

  pub open_fresh :
      (p : Ptr) (rest : List Ptr)
      → lookup t.price (index mine) ≡ none
      → b.level_pool.free_list ≡ p ∷ rest
      → Opens p
  unfolding get_or_create_price_level
  open_fresh p rest absent free =
      let (s, e, l, i) = join-fresh side t.price (taker, t) p mine absent in
      let map' = insert_level (before side) t.price p (levels side b) in
      let c = created b side t.price p rest map' in
      let (run, theirs_same) = create_run b side t.price p rest free in
      let k =
        created-Between b taker t t.price p rest theirs s.ahead s.behind free
          (subst (Between b taker t theirs) e m.between) side map' in
      let mapped : map' ≡ index (s.ahead ++ s.level ∷ s.behind) =
        ap (insert_level (before side) t.price p) m.mine_map
        ∙ i
        ∙ ap (λ v. index (s.ahead ++ v ∷ s.behind)) (sym l) in
      let b' = record b {
        level_pool = record {
          storage = write b.level_pool.storage p (some (new_level t.price));
          free_list = rest;
          capacity = b.level_pool.capacity;
        };
      } in
      (
        c,
        record {
          split = s;
          placed = record {
            between = subst (λ v. Between c taker t theirs (s.ahead ++ v ∷ s.behind)) (sym l) k;
            mine_map = levels-with side map' b' ∙ mapped;
            theirs_map = theirs_same;
            order_map = with_levels-order_map side map' b';
            order_capacity = with_levels-capacity side map' b';
          };
          same_orders =
              ap (λ v. orders_of (s.ahead ++ v ∷ s.behind)) l
              ∙ orders_of-fresh p t.price s.ahead s.behind
              ∙ ap orders_of (sym e);
        },
        ap (λ o. use_or_create side t.price o b) (ap (lookup t.price) m.mine_map ∙ absent)
            ∙ run
            ∙ ap (λ v. ok v.addr c) (sym l),
      )

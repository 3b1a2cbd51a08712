-- ===== src/Lob/OrderBook/Orders/Join.antt =====
-- Where an order comes to rest among the levels of its side: an independent description of
-- getOrCreatePriceLevel and append, over lists.
use object_oriented_programm.Prelude.{
  ℕ, ◌≡◌, refl, true, false, some, none, List, [], ◌∷◌, ◌++◌, ◌==◌, if◌then◌else◌, arith, lookup,
  ==_iff, Bool-cases, inl, inr, ap,
}
use object_oriented_programm.Lob.Types.{Ptr, Side, buy, sell}
use object_oriented_programm.Lob.PriceLevel.Chain.{Entry}
use object_oriented_programm.Lob.OrderBook.{before, insert_level}
use object_oriented_programm.Lob.OrderBook.View.{Level, index}
use object_oriented_programm.Lob.OrderBook.Represents.{AllBehind, Sorted}

abbrev pub with_entry : Level → Entry → Level
with_entry v e = record v { orders = v.orders ++ e ∷ [] }

abbrev pub fresh_level : Ptr → ℕ → Level
fresh_level p price = record { addr = p; price = price; orders = [] }

-- The order goes behind those of its price, or to a level of its own, at `p`, in its place.
unfoldable pub join : Side → ℕ → Entry → Ptr → List Level → List Level
join side price e p [] = with_entry (fresh_level p price) e ∷ []
join side price e p (v ∷ vs) =
    if v.price == price
    then with_entry v e ∷ vs
    else if before side price v.price
    then with_entry (fresh_level p price) e ∷ v ∷ vs
    else v ∷ join side price e p vs

-- The levels before and behind the one that the order joins, which may be a fresh one.
pub record Split (side : Side) (price : ℕ) (e : Entry) (p : Ptr) (vs : List Level) : Type 0 where
  pub ahead : List Level
  pub level : Level
  pub behind : List Level
  pub at_price : level.price ≡ price
  pub joined : join side price e p vs ≡ ahead ++ with_entry level e ∷ behind

abbrev pub Found : (side : Side) (price : ℕ) (e : Entry) (p : Ptr) (vs : List Level) → Ptr → Type 0
Found side price e p vs q =
    (s : Split side price e p vs) × (vs ≡ s.ahead ++ s.level ∷ s.behind) × (s.level.addr ≡ q)

before-ne :
    (side : Side) (p q r : ℕ) → before side p q ≡ true → (q == r) ≡ true → before side r p ≡ false
before-ne buy p q r h e = ground arith
before-ne sell p q r h e = ground arith

before_irrefl : (side : Side) (p q : ℕ) → before side p q ≡ true → (p == q) ≡ false
before_irrefl buy p q h = ground arith
before_irrefl sell p q h = ground arith

lookup-behind :
    (side : Side) (price q : ℕ) (p : Ptr) (vs : List Level)
    → AllBehind side q vs
    → lookup price (index vs) ≡ some p
    → before side q price ≡ true
lookup-behind side price q p [] b h = cc
lookup-behind side price q p (v ∷ vs) (b, bs) h = elim (Bool-cases (v.price == price)) [
  | inl e ↦ let same : v.price ≡ price = (==_iff v.price price).0 e in rw same at b
  | inr e ↦ lookup-behind side price q p vs bs (rw e at h)
]

-- The price has a level: the order joins it.
pub join-Found :
    (side : Side) (price : ℕ) (e : Entry) (p q : Ptr) (vs : List Level)
    → Sorted side vs
    → lookup price (index vs) ≡ some q
    → Found side price e p vs q
unfolding join
join-Found side price e p q [] s h = cc
join-Found side price e p q (v ∷ vs) (b, s) h = elim (Bool-cases (v.price == price)) [
  | inl at ↦ (
    record {
      ahead = [];
      level = v;
      behind = vs;
      at_price = (==_iff v.price price).0 at;
      joined = rw at;
    },
    refl,
    ground arith,
  )
  | inr ne ↦
      let h' : lookup price (index vs) ≡ some q = rw ne at h in
      let (t, e', a) = join-Found side price e p q vs s h' in
      let later : before side v.price price ≡ true = lookup-behind side price v.price q vs b h' in
      let wait : before side price v.price ≡ false =
        before-ne side v.price price price later (ground arith) in
      (
        record {
          ahead = v ∷ t.ahead;
          level = t.level;
          behind = t.behind;
          at_price = t.at_price;
          joined = rw (ne, wait, t.joined);
        },
        ap (◌∷◌ v) e',
        a,
      )
]

-- The price has no level: the map gets one at `p`, which the order joins.
pub join-fresh :
    (side : Side) (price : ℕ) (e : Entry) (p : Ptr) (vs : List Level)
    → lookup price (index vs) ≡ none
    → (s : Split side price e p vs) × (vs ≡ s.ahead ++ s.behind)
      × (s.level ≡ fresh_level p price)
      × (insert_level (before side) price p (index vs)
          ≡ index (s.ahead ++ fresh_level p price ∷ s.behind))
unfolding join insert_level
join-fresh side price e p [] h = (
  record { ahead = []; level = fresh_level p price; behind = []; at_price = refl; joined = refl },
  refl,
  refl,
  refl,
)
join-fresh side price e p (v ∷ vs) h =
    let ne : (v.price == price) ≡ false = ground arith in
    elim (Bool-cases (before side price v.price)) [
      | inl first ↦ (
        record {
          ahead = [];
          level = fresh_level p price;
          behind = v ∷ vs;
          at_price = refl;
          joined = rw (ne, first);
        },
        refl,
        refl,
        rw first,
      )
      | inr later ↦
          let (t, e', l, i) = join-fresh side price e p vs (rw ne at h) in
          (
            record {
              ahead = v ∷ t.ahead;
              level = t.level;
              behind = t.behind;
              at_price = t.at_price;
              joined = rw (ne, later, t.joined);
            },
            ap (◌∷◌ v) e',
            l,
            rw (later, i),
          )
    ]

-- ===== src/Lob/OrderBook/View.antt =====
-- The book as the lists that its maps, levels and links stand for. A slot of a pool is counted
-- once, among the objects in use or in the free list.
use object_oriented_programm.Prelude.{
  ℕ, ◌+◌, ◌≡◌, refl, ◌≤◌, ◌<◌, ◌^◌, List, [], ◌∷◌, ◌++◌, ◌==◌, ◌&&◌, leb, true, false,
  if◌then◌else◌, Option, some, arith, ap, ◌∙◌,
}
use object_oriented_programm.Lob.Types.{Ptr, null, Order}
use object_oriented_programm.Lob.PriceLevel.{PriceLevel}
use object_oriented_programm.Lob.PriceLevel.Chain.{
  Entry, addresses, has, Seg-frame, addresses-append,
}
use object_oriented_programm.Lob.PriceLevel.Represents.{volume, level_of, Holds}

-- A level of a side: its address, its price, and its orders, the oldest first.
pub record Level : Type 0 where
  pub addr : Ptr
  pub price : ℕ
  pub orders : List Entry

abbrev pub index : List Level → List (ℕ × Ptr)
index [] = []
index (v ∷ vs) = (v.price, v.addr) ∷ index vs

abbrev pub level_addresses : List Level → List Ptr
level_addresses [] = []
level_addresses (v ∷ vs) = v.addr ∷ level_addresses vs

abbrev pub orders_of : List Level → List Entry
orders_of [] = []
orders_of (v ∷ vs) = v.orders ++ orders_of vs

-- A pool has a slot to give.
abbrev pub HasFree : List Ptr → Type 0
HasFree free = (p : Ptr) × (rest : List Ptr) × (free ≡ p ∷ rest)

abbrev pub count : Ptr → List Ptr → ℕ
count a [] = 0
count a (p ∷ ps) = (if p == a then 1 else 0) + count a ps

-- One for an address of the pool's storage.
abbrev pub slot : ℕ → Ptr → ℕ
slot capacity a = if leb 1 a && leb a capacity then 1 else 0

pub count-append : (a : Ptr) (ps qs : List Ptr) → count a (ps ++ qs) ≡ count a ps + count a qs
count-append a [] qs = omega arith
count-append a (p ∷ ps) qs = omega (arith, count-append a ps qs)

pub slot-le : (c a : ℕ) → slot c a ≤ 1
slot-le c a = ground arith

pub not-has : (a : Ptr) (ps : List Ptr) → count a ps ≡ 0 → has a ps ≡ false
not-has a [] h = refl
not-has a (p ∷ ps) h = ground (arith, not-has a ps)

pub count-has : (a : Ptr) (ps : List Ptr) → has a ps ≡ true → 1 ≤ count a ps
count-has a [] h = cc
count-has a (p ∷ ps) h = ground (arith, count-has a ps)

-- What the two memories hold at a level, and at the levels of a list.
pub record LevelAt (h : Ptr → Option Order) (g : Ptr → Option PriceLevel) (v : Level) : Type 0 where
  pub ne_null : (v.addr == null) ≡ false
  pub level_at : g v.addr ≡ some (level_of v.price v.orders)
  pub holds : Holds h v.addr v.orders
  pub volume_small : volume v.orders < 2 ^ 32

abbrev pub LevelsAt : (Ptr → Option Order) → (Ptr → Option PriceLevel) → List Level → Type 0
LevelsAt h g [] = Unit {0}
LevelsAt h g (v ∷ vs) = LevelAt h g v × LevelsAt h g vs

module _ (h h' : Ptr → Option Order) (g g' : Ptr → Option PriceLevel) where
  pub LevelAt-frame :
      (v : Level)
      → ((a : Ptr) → has a (addresses v.orders) ≡ true → h' a ≡ h a)
      → g' v.addr ≡ g v.addr
      → LevelAt h g v
      → LevelAt h' g' v
  LevelAt-frame v same at l = record {
    ne_null = l.ne_null;
    level_at = at ∙ l.level_at;
    holds = (l.holds.0, Seg-frame h h' v.addr null v.orders null same l.holds.1);
    volume_small = l.volume_small;
  }

  -- Levels survive writes elsewhere.
  pub LevelsAt-frame :
      (vs : List Level)
      → ((a : Ptr) → 1 ≤ count a (addresses (orders_of vs)) → h' a ≡ h a)
      → ((p : Ptr) → 1 ≤ count p (level_addresses vs) → g' p ≡ g p)
      → LevelsAt h g vs
      → LevelsAt h' g' vs
  LevelsAt-frame [] same at l = tt
  LevelsAt-frame (v ∷ vs) same at (l, ls) =
      let split = λ (a : Ptr).
        ap (count a) (addresses-append v.orders (orders_of vs))
        ∙ count-append a (addresses v.orders) (addresses (orders_of vs)) in
      (
        LevelAt-frame v (λ a i. same a (omega (arith, split a, count-has a (addresses v.orders) i)))
            (at v.addr (ground arith)) l,
        LevelsAt-frame vs (λ a i. same a (omega (arith, split a))) (λ p i. at p (omega arith)) ls,
      )

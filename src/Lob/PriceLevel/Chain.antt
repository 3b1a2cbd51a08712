-- ===== src/Lob/PriceLevel/Chain.antt =====
-- What the links of a level's orders mean: a doubly linked segment over the pool's storage.
use object_oriented_programm.Prelude.{
  ◌≡◌, refl, Bool, true, false, ◌||◌, Option, some, List, [], ◌∷◌, ◌++◌, ◌==◌, arith, ap, ◌∙◌,
}
use object_oriented_programm.Lob.Types.{Ptr, null, Order}
use object_oriented_programm.Lob.Pool.{write}

-- The address of an order and the order, whose own links do not count.
abbrev pub Entry : Type 0
Entry = Ptr × Order

abbrev pub addresses : List Entry → List Ptr
addresses [] = []
addresses ((a, o) ∷ xs) = a ∷ addresses xs

abbrev pub has : Ptr → List Ptr → Bool
has a [] = false
has a (p ∷ ps) = (p == a) || has a ps

abbrev pub Distinct : List Ptr → Type 0
Distinct [] = Unit {0}
Distinct (p ∷ ps) = (has p ps ≡ false) × Distinct ps

abbrev pub linked : Order → (level prev next : Ptr) → Order
linked o level prev next = record o { price_level_ptr = level; prev = prev; next = next }

-- The first address, or the one behind the segment; the last address, or the one before it.
abbrev pub first : List Entry → Ptr → Ptr
first [] e = e
first ((a, o) ∷ xs) e = a

abbrev pub last : Ptr → List Entry → Ptr
last p [] = p
last p ((a, o) ∷ xs) = last a xs

-- The orders `xs` of a level stand in `h`, linked both ways, between `p` and `e`.
abbrev pub Seg : (Ptr → Option Order) → Ptr → Ptr → List Entry → Ptr → Type 0
Seg h level p [] e = Unit {0}
Seg h level p ((a, o) ∷ xs) e =
    ((a == null) ≡ false) × (h a ≡ some (linked o level p (first xs e))) × Seg h level a xs e

-- `g` differs from `h` at most at the addresses `ps`.
abbrev pub SameOutside : List Ptr → (Ptr → Option Order) → (Ptr → Option Order) → Type 0
SameOutside ps h g = (a : Ptr) → has a ps ≡ false → g a ≡ h a

pub has-append : (a : Ptr) (xs ys : List Ptr) → has a (xs ++ ys) ≡ (has a xs || has a ys)
has-append a [] ys = refl
has-append a (x ∷ xs) ys = ground (arith, has-append a xs ys)

pub addresses-append : (xs ys : List Entry) → addresses (xs ++ ys) ≡ addresses xs ++ addresses ys
addresses-append [] ys = refl
addresses-append (x ∷ xs) ys = ap (◌∷◌ x.0) (addresses-append xs ys)

pub first-append : (xs ys : List Entry) (e : Ptr) → first (xs ++ ys) e ≡ first xs (first ys e)
first-append [] ys e = refl
first-append (x ∷ xs) ys e = refl

pub last-append : (p : Ptr) (xs ys : List Entry) → last p (xs ++ ys) ≡ last (last p xs) ys
last-append p [] ys = refl
last-append p (x ∷ xs) ys = last-append x.0 xs ys

pub Distinct-snoc :
    (ps : List Ptr) (a : Ptr) → Distinct ps → has a ps ≡ false → Distinct (ps ++ a ∷ [])
Distinct-snoc [] a d out = (refl, tt)
Distinct-snoc (p ∷ ps) a (fresh, d) out =
    (rw (has-append p ps (a ∷ [])) (ground arith), Distinct-snoc ps a d (ground arith))

-- What precedes and what follows share no address.
pub Distinct-split :
    (ps qs : List Ptr)
    → Distinct (ps ++ qs)
    → Distinct ps × Distinct qs × ((a : Ptr) → has a ps ≡ true → has a qs ≡ false)
Distinct-split [] qs d = (tt, d, λ a i. cc)
Distinct-split (p ∷ ps) qs (fresh, d) =
    let (l, r, apart) = Distinct-split ps qs d in
    let parted = has-append p ps qs in ((ground arith, l), r, λ a i. ground (arith, apart a))

pub Distinct-remove :
    (ps : List Ptr) (a : Ptr) (qs : List Ptr) → Distinct (ps ++ a ∷ qs) → Distinct (ps ++ qs)
Distinct-remove [] a qs d = d.1
Distinct-remove (p ∷ ps) a qs (fresh, d) =
    (ground (arith, has-append p ps (a ∷ qs), has-append p ps qs), Distinct-remove ps a qs d)

module _ (h g : Ptr → Option Order) (level : Ptr) where
  -- A segment survives any change that spares its own addresses.
  pub Seg-frame :
      (p : Ptr) (xs : List Entry) (e : Ptr)
      → ((a : Ptr) → has a (addresses xs) ≡ true → g a ≡ h a)
      → Seg h level p xs e
      → Seg g level p xs e
  Seg-frame p [] e same s = tt
  Seg-frame p ((a, o) ∷ xs) e same (ne, at, rest) =
      (ne, same a (ground arith) ∙ at, Seg-frame a xs e (λ b i. same b (ground arith)) rest)

module _ (h : Ptr → Option Order) (level : Ptr) where
  pub Seg-write :
      (p : Ptr) (xs : List Entry) (e q : Ptr) (c : Option Order)
      → has q (addresses xs) ≡ false
      → Seg h level p xs e
      → Seg (write h q c) level p xs e
  unfolding write
  Seg-write p xs e q c out = Seg-frame h (write h q c) level p xs e λ a i. ground arith

  pub Seg-append :
      (p : Ptr) (xs ys : List Entry) (e : Ptr)
      → Seg h level p xs (first ys e)
      → Seg h level (last p xs) ys e
      → Seg h level p (xs ++ ys) e
  Seg-append p [] ys e s t = t
  Seg-append p ((a, o) ∷ xs) ys e (ne, at, s) t =
      (ne, rw (first-append xs ys e) at, Seg-append a xs ys e s t)

  pub Seg-split :
      (p : Ptr) (xs ys : List Entry) (e : Ptr)
      → Seg h level p (xs ++ ys) e
      → Seg h level p xs (first ys e) × Seg h level (last p xs) ys e
  Seg-split p [] ys e t = (tt, t)
  Seg-split p ((a, o) ∷ xs) ys e (ne, at, s) =
      let (l, r) = Seg-split a xs ys e s in ((ne, rw (first-append xs ys e) at at, l), r)

  pub last-ne-null :
      (p a : Ptr) (o : Order) (xs : List Entry) (e : Ptr)
      → Seg h level p ((a, o) ∷ xs) e
      → (last a xs == null) ≡ false
  last-ne-null p a o [] e (ne, _, _) = ne
  last-ne-null p a o ((b, u) ∷ xs) e (ne, at, s) = last-ne-null a b u xs e s

-- ===== src/Prelude/Lists.antt =====
-- Lists measured by native numbers, and association lists keyed by them.
use Prim.Native.Nat.{ℕ, zero, suc, ◌+◌, ◌<◌}
use mathlib.Core.Path.{◌≡◌, refl}
use mathlib.Core.List.{List, [], ◌∷◌, ◌++◌, Mem, mem-cons_self, mem-cons_of_mem}
use mathlib.Core.Option.{Option, none, some}
use native.Mathlib.Omega.{arith}
use object_oriented_programm.Prelude.Tests.{◌==◌, if◌then◌else◌}

module _ {ℓ} {A : Type ℓ} where
  abbrev pub length : List A → ℕ
  length [] = 0
  length (x ∷ xs) = suc (length xs)

  pub length-append : (xs ys : List A) → length (xs ++ ys) ≡ length xs + length ys
  length-append [] ys = omega arith
  length-append (x ∷ xs) ys = omega (arith, length-append xs ys)

  -- A map from numbers as an association list: `find`, `operator[]` as a write, and `erase`.
  abbrev pub lookup : ℕ → List (ℕ × A) → Option A
  lookup k [] = none
  lookup k ((j, v) ∷ m) = if j == k then some v else lookup k m

  unfoldable pub insert : ℕ → A → List (ℕ × A) → List (ℕ × A)
  insert k v [] = (k, v) ∷ []
  insert k v ((j, w) ∷ m) = if j == k then (k, v) ∷ m else (j, w) ∷ insert k v m

  unfoldable pub erase : ℕ → List (ℕ × A) → List (ℕ × A)
  erase k [] = []
  erase k ((j, w) ∷ m) = let rest = erase k m in if j == k then rest else (j, w) ∷ rest

  pub lookup-insert :
      (k j : ℕ) (v : A) (m : List (ℕ × A))
      → lookup j (insert k v m) ≡ (if k == j then some v else lookup j m)
  unfolding insert
  lookup-insert k j v [] = refl
  lookup-insert k j v ((i, w) ∷ m) = ground (arith, lookup-insert k j v m)

  pub lookup-erase :
      (k j : ℕ) (m : List (ℕ × A)) → lookup j (erase k m) ≡ (if k == j then none else lookup j m)
  unfolding erase
  lookup-erase k j [] = ground arith
  lookup-erase k j ((i, w) ∷ m) = ground (arith, lookup-erase k j m)

module _ {ℓ} {A : Type ℓ} where
  abbrev pub drop : ℕ → List A → List A
  drop zero xs = xs
  drop (suc n) [] = []
  drop (suc n) (x ∷ xs) = drop n xs

module _ {ℓ} {A : Type ℓ} where
  -- `v[i]`, which is undefined behind the end: none.
  unfoldable pub element : List A → ℕ → Option A
  element [] i = none
  element (x ∷ xs) zero = some x
  element (x ∷ xs) (suc i) = element xs i

  pub element-Mem :
      (xs : List A) (i : ℕ) → i < length xs → (y : A) × (element xs i ≡ some y) × Mem y xs
  unfolding element
  element-Mem [] i h = absurd (omega arith)
  element-Mem (x ∷ xs) zero h = (x, refl, mem-cons_self)
  element-Mem (x ∷ xs) (suc i) h =
      let (y, e, m) = element-Mem xs i (omega arith) in (y, e, mem-cons_of_mem x m)

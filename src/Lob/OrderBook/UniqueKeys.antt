-- ===== src/Lob/OrderBook/UniqueKeys.antt =====
-- orderMap_ of 02_LOB_Engine/include/OrderBook.hpp has an entry at most for each identifier.
use object_oriented_programm.Prelude.{
  ℕ, ◌≡◌, refl, none, List, [], ◌∷◌, ◌==◌, lookup, insert, erase, lookup-insert, lookup-erase,
  arith, Bool-cases, inl, inr,
}
use object_oriented_programm.Lob.Types.{Ptr}

-- Each key once.
abbrev pub UniqueKeys : List (ℕ × Ptr) → Type 0
UniqueKeys [] = Unit {0}
UniqueKeys ((k, p) ∷ m) = (lookup k m ≡ none) × UniqueKeys m

pub insert-UniqueKeys :
    (k : ℕ) (p : Ptr) (m : List (ℕ × Ptr)) → UniqueKeys m → UniqueKeys (insert k p m)
unfolding insert
insert-UniqueKeys k p [] u = (refl, tt)
insert-UniqueKeys k p ((j, q) ∷ m) (h, u) = elim (Bool-cases (j == k)) [
  | inl same ↦ rw same (ground arith, u)
  | inr ne ↦ rw ne (ground (arith, lookup-insert k j p m), insert-UniqueKeys k p m u)
]

pub erase-UniqueKeys : (k : ℕ) (m : List (ℕ × Ptr)) → UniqueKeys m → UniqueKeys (erase k m)
unfolding erase
erase-UniqueKeys k [] u = tt
erase-UniqueKeys k ((j, q) ∷ m) (h, u) = elim (Bool-cases (j == k)) [
  | inl same ↦ rw same (erase-UniqueKeys k m u)
  | inr ne ↦ rw ne (ground (arith, lookup-erase k j m), erase-UniqueKeys k m u)
]

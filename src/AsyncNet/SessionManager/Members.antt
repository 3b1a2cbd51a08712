-- ===== src/AsyncNet/SessionManager/Members.antt =====
-- The members of the set of sessions after an insertion and an erasure.
use object_oriented_programm.Prelude.{
  ℕ, ◌≡◌, false, not, ◌||◌, ◌&&◌, List, [], ◌∷◌, ◌==◌, arith, Bool-cases, inl, inr,
}
use object_oriented_programm.AsyncNet.SessionManager.{contains, insert_member, erase_member}

pub contains-insert_member :
    (i j : ℕ) (members : List ℕ)
    → contains i (insert_member j members) ≡ ((j == i) || contains i members)
unfolding insert_member
contains-insert_member i j members = ground arith

pub contains-erase_member :
    (i j : ℕ) (members : List ℕ)
    → contains i (erase_member j members) ≡ (not (j == i) && contains i members)
unfolding erase_member
contains-erase_member i j [] = ground arith
contains-erase_member i j (m ∷ members) = ground (arith, contains-erase_member i j members)

-- No session is twice in the set.
abbrev pub Unique : List ℕ → Type 0
Unique [] = Unit {0}
Unique (member ∷ members) = (contains member members ≡ false) × Unique members

pub insert_member-Unique :
    (i : ℕ) (members : List ℕ) → Unique members → Unique (insert_member i members)
unfolding insert_member
insert_member-Unique i members u = elim (Bool-cases (contains i members)) [
  | inl e ↦ rw e u
  | inr e ↦ rw e (e, u)
]

pub erase_member-Unique :
    (i : ℕ) (members : List ℕ) → Unique members → Unique (erase_member i members)
unfolding erase_member
erase_member-Unique i [] u = tt
erase_member-Unique i (m ∷ members) (fresh, u) = elim (Bool-cases (m == i)) [
  | inl e ↦ rw e (erase_member-Unique i members u)
  | inr e ↦
      rw e (ground (arith, contains-erase_member m i members), erase_member-Unique i members u)
]

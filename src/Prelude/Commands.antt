-- ===== src/Prelude/Commands.antt =====
-- Commands over a state: a C++ function that may throw, and whose pointer accesses may be
-- undefined behaviour. What an exception leaves behind is part of the result.

pub data Run (S A : Type 0) : Type 0 where
  ok : A → S → Run S A
  threw : S → Run S A
  fault : Run S A
  out_of_fuel : Run S A

abbrev pub Cmd : Type 0 → Type 0 → Type 0
Cmd S A = S → Run S A

abbrev pub pure : {S A : Type 0} → A → Cmd S A
pure = ok

module _ {S A B : Type 0} where
  abbrev pub and_then : Run S A → (A → Cmd S B) → Run S B
  and_then (ok a s) k = k a s
  and_then (threw s) k = threw s
  and_then fault k = fault
  and_then out_of_fuel k = out_of_fuel

  infixl 5 ◌>>=◌ ◌>>◌
  abbrev pub ◌>>=◌ : Cmd S A → (A → Cmd S B) → Cmd S B
  m >>= k = λ s. and_then (m s) k

  abbrev pub ◌>>◌ : Cmd S A → Cmd S B → Cmd S B
  m >> n = m >>= λ _. n

abbrev pub map_state : {S T A : Type 0} → (T → S) → Run T A → Run S A
map_state f (ok a t) = ok a (f t)
map_state f (threw t) = threw (f t)
map_state f fault = fault
map_state f out_of_fuel = out_of_fuel

-- A command on a part of the state.
abbrev pub within : {S T A : Type 0} → (S → T) → (T → S → S) → Cmd T A → Cmd S A
within get put m s = map_state (λ t. put t s) (m (get s))

-- The state in which a command ends, with a result or with an exception.
abbrev pub Ends : {S A : Type 0} → (S → Type 0) → Run S A → Type 0
Ends P (ok a s) = P s
Ends P (threw s) = P s
Ends P fault = ⊥
Ends P out_of_fuel = ⊥

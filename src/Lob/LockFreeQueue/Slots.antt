-- ===== src/Lob/LockFreeQueue/Slots.antt =====
-- The slots of the ring that stand for consecutive numbers.
use object_oriented_programm.Prelude.{
  ℕ, suc, ◌+◌, ◌*◌, ◌/◌, ◌%◌, ◌≡◌, ◌≤◌, ◌<◌, false, List, [], ◌∷◌, ◌++◌, ◌==◌, arith, length, subst,
}
use native.Mathlib.Nat.{mul-le-mul_left}
use native.Mathlib.Omega.{div_any}
use native.Mathlib.Decide.{dec_lt}
use object_oriented_programm.Lob.LockFreeQueue.{write_slot}

-- Numbers less than a capacity apart have different slots.
quotients : (c i j : ℕ) → i / c < j / c → c * (i / c) + c ≤ c * (j / c)
quotients c i j h = omega (arith, mul-le-mul_left c h)

pub slots_apart : (c i j : ℕ) → i < j → j < i + c → (i % c == j % c) ≡ false
slots_apart c i j lo hi =
    let di = div_any i c in
    let dj = div_any j c in
    let backward = λ (le : j / c ≤ i / c). mul-le-mul_left {m = j / c} {n = i / c} c le in
    elim (dec_lt (i / c) (j / c)) [
      | yes lt ↦ ground (arith, quotients c i j lt)
      | no ge ↦ ground (arith, backward (omega arith))
    ]

-- The consecutive slots from the number `n` on hold the items.
abbrev pub Holds : {A : Type 0} → ℕ → (ℕ → A) → ℕ → List A → Type 0
Holds c buffer n [] = Unit {0}
Holds c buffer n (x ∷ xs) = (buffer (n % c) ≡ x) × Holds c buffer (suc n) xs

module _ {A : Type 0} (c : ℕ) (buffer : ℕ → A) (item : A) where
  -- A write behind the items, with less than a capacity of them, spares them.
  pub Holds-write :
      (n m : ℕ) (xs : List A)
      → n + length xs ≤ m
      → m < n + c
      → Holds c buffer n xs
      → Holds c (write_slot buffer (m % c) item) n xs
  unfolding write_slot
  Holds-write n m [] lo hi h = tt
  Holds-write n m (x ∷ xs) lo hi (e, h) = (
    ground (arith, slots_apart c n m (omega arith) hi, e),
    Holds-write (suc n) m xs (omega arith) (omega arith) h,
  )

  pub write_self : (i : ℕ) → write_slot buffer i item i ≡ item
  unfolding write_slot
  write_self i = ground arith

pub Holds-snoc :
    {A : Type 0} (c : ℕ) (buffer : ℕ → A) (n : ℕ) (xs : List A) (x : A)
    → Holds c buffer n xs
    → buffer ((n + length xs) % c) ≡ x
    → Holds c buffer n (xs ++ x ∷ [])
Holds-snoc c buffer n [] x h e = (ground (arith, e), tt)
Holds-snoc c buffer n (y ∷ xs) x (f, h) e =
    (f, Holds-snoc c buffer (suc n) xs x h (subst (λ k. buffer (k % c) ≡ x) (omega arith) e))

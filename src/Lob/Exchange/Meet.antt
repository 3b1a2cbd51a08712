-- ===== src/Lob/Exchange/Meet.antt =====
-- How long the queues of an exchange are, how much they want, and how high their prices are.
use object_oriented_programm.Prelude.{
  ℕ, suc, ◌+◌, ◌-◌, ◌≡◌, refl, ◌≤◌, Bool, List, [], ◌∷◌, length, max, arith,
}
use object_oriented_programm.Lob.Exchange.{Quote, meet, queue_up, step_back}

abbrev pub total_wanted : List Quote → ℕ
total_wanted [] = 0
total_wanted (q ∷ qs) = q.wanted + total_wanted qs

-- The least number above every price.
abbrev pub above : List Quote → ℕ
above [] = 0
above (q ∷ qs) = max (suc q.price) (above qs)

module _ (closed : ℕ → Bool) where
  pub meet-le :
      (n : ℕ) (qs : List Quote)
      → ((meet closed n qs).rest ≤ n)
        × (length (meet closed n qs).left ≤ length qs)
        × (total_wanted (meet closed n qs).left ≤ total_wanted qs)
        × (above (meet closed n qs).left ≤ above qs)
  unfolding meet
  meet-le n [] = (omega arith, omega arith, omega arith, omega arith)
  meet-le n (q ∷ qs) =
      let (r, l, t, p) = meet-le (n - q.wanted) qs in
      (ground (arith, r), ground (arith, l), ground (arith, t), ground (arith, p))

pub queue_up_lem :
    (ahead : ℕ → ℕ → Bool) (q : Quote) (qs : List Quote)
    → (length (queue_up ahead q qs) ≡ suc (length qs))
      × (total_wanted (queue_up ahead q qs) ≡ q.wanted + total_wanted qs)
      × (above (queue_up ahead q qs) ≡ max (suc q.price) (above qs))
unfolding queue_up
queue_up_lem ahead q [] = (refl, refl, refl)
queue_up_lem ahead q (r ∷ rs) =
    let (l, t, p) = queue_up_lem ahead q rs in
    (ground (arith, l), ground (arith, t), ground (arith, p))

pub step_back-le :
    (id : ℕ) (qs : List Quote)
    → (length (step_back id qs) ≤ length qs)
      × (total_wanted (step_back id qs) ≤ total_wanted qs)
      × (above (step_back id qs) ≤ above qs)
unfolding step_back
step_back-le id [] = (omega arith, omega arith, omega arith)
step_back-le id (q ∷ qs) =
    let (l, t, p) = step_back-le id qs in (ground (arith, l), ground (arith, t), ground (arith, p))

-- ===== src/Lob/Exchange/Known.antt =====
-- Who waits in an exchange after a command: nobody new but the order that is placed.
use object_oriented_programm.Prelude.{
  ℕ, ◌-◌, ◌≡◌, Bool, true, ◌&&◌, ◌||◌, List, [], ◌∷◌, ltb, ◌==◌, arith, Bool-cases, inl, inr,
}
use object_oriented_programm.Lob.Types.{Side, buy, sell, OrderType, is_limit}
use object_oriented_programm.Lob.Exchange.{
  Quote, Exchange, meet, better, queue_up, step_back, waits, known, own, other, with_queues,
  refuses, place,
}

waits-meet :
    (closed : ℕ → Bool) (id n : ℕ) (qs : List Quote)
    → waits id (meet closed n qs).left ≡ true
    → waits id qs ≡ true
unfolding meet
waits-meet closed id n [] h = h
waits-meet closed id n (q ∷ qs) h = ground (arith, waits-meet closed id (n - q.wanted) qs)

waits-queue_up :
    (ahead : ℕ → ℕ → Bool) (id : ℕ) (q : Quote) (qs : List Quote)
    → waits id (queue_up ahead q qs) ≡ true
    → ((q.id == id) || waits id qs) ≡ true
unfolding queue_up
waits-queue_up ahead id q [] h = h
waits-queue_up ahead id q (r ∷ rs) h = ground (arith, waits-queue_up ahead id q rs)

pub waits-step_back :
    (id gone : ℕ) (qs : List Quote) → waits id (step_back gone qs) ≡ true → waits id qs ≡ true
unfolding step_back
waits-step_back id gone [] h = h
waits-step_back id gone (q ∷ qs) h = ground (arith, waits-step_back id gone qs)

known-queues :
    (side : Side) (id : ℕ) (mine theirs : List Quote)
    → known id (with_queues side mine theirs) ≡ true
    → (waits id mine || waits id theirs) ≡ true
known-queues buy id mine theirs h = h
known-queues sell id mine theirs h = ground arith

known-own :
    (side : Side) (id : ℕ) (x : Exchange)
    → (waits id (own side x) || waits id (other side x)) ≡ true
    → known id x ≡ true
known-own buy id x h = h
known-own sell id x h = ground arith

module _ (id : ℕ) (side : Side) (price qty : ℕ) (type : OrderType) (x : Exchange) where
  pub known-place :
      (new : ℕ)
      → known id (place new side price qty type x).1 ≡ true
      → ((new == id) || known id x) ≡ true
  unfolding place
  known-place new h =
      let mine = own side x in
      let m = meet (refuses side type price) qty (other side x) in
      let quote : Quote = record { id = new; price = price; wanted = m.rest } in
      let theirs_were = waits-meet (refuses side type price) id qty (other side x) in
      let was = known-own side id x in
      elim (Bool-cases (ltb 0 m.rest && is_limit type)) [
        | inl rests ↦
            let here =
              known-queues side id (queue_up (better side) quote mine) m.left (rw rests at h) in
            let mine_were = waits-queue_up (better side) id quote mine in ground arith
        | inr filled ↦ let here = known-queues side id mine m.left (rw filled at h) in ground arith
      ]

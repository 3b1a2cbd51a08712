-- ===== src/Lob/Exchange/Budget.antt =====
-- How many orders and prices, and how much quantity, a list of commands can bring to an exchange.
use object_oriented_programm.Prelude.{
  ℕ, suc, leb, ◌+◌, ◌*◌, ◌≡◌, refl, ◌≤◌, ◌<◌, ◌^◌, ◌&&◌, ◌||◌, List, [], ◌∷◌, ltb, ◌==◌, length,
  min, max, arith, Bool-cases, inl, inr,
}
use object_oriented_programm.Lob.Preserves.{Leaves}
use object_oriented_programm.Lob.Types.{Side, buy, sell, OrderType, is_limit}
use object_oriented_programm.Lob.Exchange.{
  Quote, Exchange, Command, submit, withdraw, meet, better, queue_up, known, own, other,
  with_queues, refuses, place, enter, leave, waiting,
}
use object_oriented_programm.Lob.Exchange.Meet.{
  total_wanted, above, meet-le, queue_up_lem, step_back-le,
}

abbrev pub submissions : List Command → ℕ
submissions [] = 0
submissions (submit id side price qty type ∷ cs) = suc (submissions cs)
submissions (withdraw id ∷ cs) = submissions cs

abbrev pub quantities : List Command → ℕ
quantities [] = 0
quantities (submit id side price qty type ∷ cs) = qty + quantities cs
quantities (withdraw id ∷ cs) = quantities cs

abbrev pub highest : List Command → ℕ
highest [] = 0
highest (submit id side price qty type ∷ cs) = max (suc price) (highest cs)
highest (withdraw id ∷ cs) = highest cs

abbrev pub total : Exchange → ℕ
total x = total_wanted x.bids + total_wanted x.asks

abbrev pub ceiling : Exchange → ℕ
ceiling x = max (above x.bids) (above x.asks)

-- There are levels for all orders, or for all prices of both sides, and one more; and what all want
-- fits 32 bits.
pub record Fits (levels : ℕ) (cs : List Command) (x : Exchange) : Type 0 where
  pub levels_fit :
      min (waiting x + submissions cs) (suc (2 * max (ceiling x) (highest cs))) ≤ levels
  pub quantities_fit : total x + quantities cs < 2 ^ 32

-- A measure of the two queues, from either side.
pub waiting-sides :
    (side : Side) (x : Exchange) → length (own side x) + length (other side x) ≡ waiting x
waiting-sides buy x = refl
waiting-sides sell x = omega arith

total-sides :
    (side : Side) (x : Exchange) → total_wanted (own side x) + total_wanted (other side x) ≡ total x
total-sides buy x = refl
total-sides sell x = omega arith

pub ceiling-sides :
    (side : Side) (x : Exchange) → max (above (own side x)) (above (other side x)) ≡ ceiling x
ceiling-sides buy x = refl
ceiling-sides sell x = omega arith

waiting-queues :
    (side : Side) (mine theirs : List Quote)
    → waiting (with_queues side mine theirs) ≡ length mine + length theirs
waiting-queues buy mine theirs = refl
waiting-queues sell mine theirs = omega arith

pub total-queues :
    (side : Side) (mine theirs : List Quote)
    → total (with_queues side mine theirs) ≡ total_wanted mine + total_wanted theirs
total-queues buy mine theirs = refl
total-queues sell mine theirs = omega arith

ceiling-queues :
    (side : Side) (mine theirs : List Quote)
    → ceiling (with_queues side mine theirs) ≡ max (above mine) (above theirs)
ceiling-queues buy mine theirs = refl
ceiling-queues sell mine theirs = omega arith

module _ (id : ℕ) (side : Side) (price qty : ℕ) (type : OrderType) (x : Exchange) where
  abbrev after : Exchange
  after = (place id side price qty type x).1

  place-le :
      (waiting after ≤ suc (waiting x))
      × (total after ≤ qty + total x)
      × (ceiling after ≤ max (suc price) (ceiling x))
  unfolding place
  place-le =
      let mine = own side x in
      let m = meet (refuses side type price) qty (other side x) in
      let quote : Quote = record { id = id; price = price; wanted = m.rest } in
      let (r, l, t, p) = meet-le (refuses side type price) qty (other side x) in
      let (l', t', p') = queue_up_lem (better side) quote mine in
      let queue = queue_up (better side) quote mine in
      let sides = waiting-sides side x in
      let totals = total-sides side x in
      let ceilings = ceiling-sides side x in
      elim (Bool-cases (ltb 0 m.rest && is_limit type)) [
        | inl rests ↦
            rw (rests, after)
              (
                omega (arith, l, l', sides, waiting-queues side queue m.left),
                omega (arith, r, t, t', totals, total-queues side queue m.left),
                omega (arith, p, p', ceilings, ceiling-queues side queue m.left),
              )
        | inr filled ↦
            rw (filled, after)
              (
                omega (arith, l, sides, waiting-queues side mine m.left),
                omega (arith, t, totals, total-queues side mine m.left),
                omega (arith, p, ceilings, ceiling-queues side mine m.left),
              )
      ]

module _ (levels : ℕ) (cs : List Command) where
  pub place-Fits :
      (id : ℕ) (side : Side) (price qty : ℕ) (type : OrderType) (x : Exchange)
      → Fits levels (submit id side price qty type ∷ cs) x
      → Fits levels cs (place id side price qty type x).1
  place-Fits id side price qty type x f =
      let (w, t, p) = place-le id side price qty type x in
      record {
        levels_fit = omega (arith, w, p, f.levels_fit);
        quantities_fit = omega (arith, t, f.quantities_fit);
      }

  pub enter-Fits :
      (most : ℕ) (clock : ℕ → ℕ) (id : ℕ) (side : Side) (price qty : ℕ) (type : OrderType)
      (x : Exchange)
      → Fits levels (submit id side price qty type ∷ cs) x
      → Leaves (Fits levels cs) (enter most clock id side price qty type x)
  unfolding enter
  enter-Fits most clock id side price qty type x f =
      let same : Fits levels cs x = record {
        levels_fit = omega (arith, f.levels_fit);
        quantities_fit = omega (arith, f.quantities_fit);
      } in
      elim (Bool-cases ((qty == 0) || known id x)) [
        | inl refused ↦ rw refused same
        | inr valid ↦ elim (Bool-cases (leb most (waiting x))) [
          | inl full ↦ rw (valid, full) same
          | inr room ↦ rw (valid, room) (place-Fits id side price qty type x f)
        ]
      ]

  pub leave-Fits :
      (id : ℕ) (x : Exchange)
      → Fits levels (withdraw id ∷ cs) x
      → Leaves (Fits levels cs) (leave id x)
  unfolding leave
  leave-Fits id x f =
      let (b, b', b'') = step_back-le id x.bids in
      let (a, a', a'') = step_back-le id x.asks in
      record {
        levels_fit = omega (arith, b, a, b'', a'', f.levels_fit);
        quantities_fit = omega (arith, b', a', f.quantities_fit);
      }

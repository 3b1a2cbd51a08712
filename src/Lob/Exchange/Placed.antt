-- ===== src/Lob/Exchange/Placed.antt =====
-- An order that a book of 02_LOB_Engine/src/OrderBook.cpp accepts, in the exchange that it shows.
use object_oriented_programm.Prelude.{
  ℕ, ◌+◌, ◌≡◌, refl, ◌<◌, ◌^◌, true, false, ◌&&◌, ◌||◌, none, List, ◌∷◌, ltb, ◌==◌, if◌then◌else◌,
  length, lookup, arith, Bool-cases, inl, inr, ap, sym, ◌∙◌, subst, leb, threw,
}
use object_oriented_programm.Lob.Types.{Ptr, Side, Order, OrderType, is_limit, new_order}
use object_oriented_programm.Lob.OrderBook.{OrderBook, before}
use object_oriented_programm.Lob.OrderBook.View.{Level, orders_of, HasFree}
use object_oriented_programm.Lob.OrderBook.Represents.{Represents, opposite}
use object_oriented_programm.Lob.OrderBook.Matching.Sweep.{Swept}
use object_oriented_programm.Lob.OrderBook.Matching.SideLoop.{closed_to}
use object_oriented_programm.Lob.OrderBook.Orders.{add_order}
use object_oriented_programm.Lob.OrderBook.Orders.Append.{VolumesFit}
use object_oriented_programm.Lob.OrderBook.Orders.Match.{outcome}
use object_oriented_programm.Lob.OrderBook.AddOrder.{own_side, rests, add_order_lem}
use object_oriented_programm.Lob.OrderBook.Withdrawn.{add_order-full}
use object_oriented_programm.Lob.OrderBook.Room.{order_room, level_room}
use object_oriented_programm.Lob.OrderBook.Uncrossed.{own_side-Uncrossed}
use object_oriented_programm.Lob.Exchange.{
  Quote, meet, Exchange, better, queue_up, known, accept, own, other, with_queues, refuses, submit,
  place, waiting, Deal, Command,
}
use object_oriented_programm.Lob.Exchange.Flat.{
  flat, deals_of, reports-deals, flat-sweep, flat-join,
}
use object_oriented_programm.Lob.Exchange.Levels.{
  flat-VolumesFit, length-flat, levels_le, length-above,
}
use object_oriented_programm.Lob.Exchange.Meet.{above}
use object_oriented_programm.Lob.Exchange.Budget.{
  Fits, place-Fits, total, waiting-sides, ceiling-sides, total-queues,
}
use object_oriented_programm.Lob.Exchange.Shows.{Seen, Agrees, from_levels, lookup-known, not_some}

-- An order of a side against two lists of levels.
module _ (side : Side) (mine theirs : List Level) (id price qty : ℕ) (type : OrderType) where
  abbrev taker : Order
  taker = new_order id price qty side type 0

  abbrev swept : Swept
  swept = outcome side taker theirs

  abbrev quote : ℕ → Quote
  quote n = record { id = id; price = price; wanted = n }

  module _ (b : OrderBook) (r : Represents b side mine theirs) where
    meet-outcome :
        meet (refuses side type price) qty (flat theirs)
        ≡ record { left = flat swept.left; deals = deals_of swept.trades; rest = swept.rest }
    meet-outcome =
        flat-sweep (closed_to (before side) taker) (opposite side) qty theirs r.theirs_stand

    flat-own_side :
        (a p : Ptr)
        → flat (own_side side taker swept a p mine) ≡ (
            if ltb 0 swept.rest && is_limit type
            then queue_up (better side) (quote swept.rest) (flat mine)
            else flat mine)
    flat-own_side a p = elim (Bool-cases (rests taker swept)) [
      | inl stays ↦ rw stays (
          flat-join side a (record taker { remaining_qty = swept.rest }) price p mine r.mine_sorted
            r.mine_stand)
      | inr goes ↦ rw goes refl
    ]

    -- The book has the levels afterwards.
    module _ (x : Exchange) (m : flat mine ≡ own side x) (t : flat theirs ≡ other side x) where
      place-levels :
          (a p : Ptr)
          → place id side price qty type x ≡ (
            deals_of swept.trades,
            with_queues side (flat (own_side side taker swept a p mine)) (flat swept.left),
          )
      unfolding place
      place-levels a p =
          let met = ap (meet (refuses side type price) qty) (sym t) ∙ meet-outcome in
          elim (Bool-cases (rests taker swept)) [
            | inl stays ↦ rw (met, flat-own_side a p, stays, m) refl
            | inr goes ↦ rw (met, goes, m) refl
          ]

-- An order that the book accepts, in an exchange that it shows.
module _ (clock : ℕ → ℕ) (b : OrderBook) (id : ℕ) (side : Side) (price qty : ℕ) (type : OrderType)
    (x : Exchange) where
  abbrev Places : List Deal × Exchange → Type 0
  Places y = Agrees (add_order clock id side price qty type b) (accept clock id y)

  module _ (s : Seen b side x) (valid : ((qty == 0) || known id x) ≡ false) where
    new_id : lookup id b.order_map ≡ none
    new_id = not_some (lookup id b.order_map) (lookup-known b side x s id ∙ ground arith)

    orders_waiting : length (orders_of s.mine) + length (orders_of s.theirs) ≡ waiting x
    orders_waiting = omega (
      arith,
      waiting-sides side x,
      ap length s.mine_flat,
      ap length s.theirs_flat,
      length-flat s.mine,
      length-flat s.theirs,
    )

    -- The pool of orders is used up.
    pub turned_away :
        leb b.order_pool.capacity (waiting x) ≡ true
        → add_order clock id side price qty type b ≡ threw b
    turned_away full =
        elim (add_order-full b side s.mine s.theirs s.represents clock id price qty type
          (ground (arith, orders_waiting, s.represents.order_total))) [
            | inl (_, inl h) ↦ absurd (ground arith)
            | inl (_, inr (a, h)) ↦ let e = sym new_id ∙ h in cc
            | inr (run, _, _) ↦ run
          ]

    module _ (cs : List Command)
        (fits : Fits b.level_pool.capacity (submit id side price qty type ∷ cs) x)
        (small : b.order_pool.capacity < 2 ^ 64)
        (room : leb b.order_pool.capacity (waiting x) ≡ false) where
      abbrev levels_after : Ptr → Ptr → List Level
      levels_after a p =
          own_side side (taker side s.mine s.theirs id price qty type)
            (swept side s.mine s.theirs id price qty type) a p s.mine

      abbrev theirs_after : List Level
      theirs_after = (swept side s.mine s.theirs id price qty type).left

      abbrev deals_after : List Deal
      deals_after = deals_of (swept side s.mine s.theirs id price qty type).trades

      placed :
          (a p : Ptr)
          → place id side price qty type x
            ≡ (deals_after, with_queues side (flat (levels_after a p)) (flat theirs_after))
      placed a p =
          place-levels side s.mine s.theirs id price qty type b s.represents x s.mine_flat
            s.theirs_flat a p

      volumes : (a p : Ptr) → VolumesFit (levels_after a p)
      volumes a p =
          let mine = levels_after a p in
          let later = place-Fits b.level_pool.capacity cs id side price qty type x fits in
          let same = ap (λ (y : List Deal × Exchange). total y.1) (placed a p) in
          flat-VolumesFit mine (
            omega (
              arith,
              later.quantities_fit,
              same,
              total-queues side (flat mine) (flat theirs_after),
            ))

      levels_free : HasFree b.level_pool.free_list
      levels_free = level_room b side s.mine s.theirs s.represents (
          omega (
            arith,
            fits.levels_fit,
            waiting-sides side x,
            ap length s.mine_flat,
            ap length s.theirs_flat,
            levels_le side s.mine s.represents.mine_stand,
            levels_le (opposite side) s.theirs s.represents.theirs_stand,
            ceiling-sides side x,
            ap above s.mine_flat,
            ap above s.theirs_flat,
            length-above side s.mine s.represents.mine_stand s.represents.mine_sorted,
            length-above (opposite side) s.theirs s.represents.theirs_stand
                s.represents.theirs_sorted,
          ))

      orders_free : HasFree b.order_pool.free_list
      orders_free = order_room b side s.mine s.theirs s.represents (ground (arith, orders_waiting))

      pub enters_accepted : Places (place id side price qty type x)
      enters_accepted =
          let (a, rest, free) = orders_free in
          let (p, d, run, r) =
            add_order_lem clock b side s.mine s.theirs s.represents id price qty type a rest
              (ground arith) (omega (arith, fits.quantities_fit)) new_id free (inr levels_free)
              small (volumes a) in
          let reported =
            reports-deals clock id 0 (swept side s.mine s.theirs id price qty type).trades in
          subst Places (sym (placed a p)) (
            rw run (
              reported,
              from_levels d side (levels_after a p) theirs_after r (
                  own_side-Uncrossed side (taker side s.mine s.theirs id price qty type) a p s.mine
                    s.theirs s.represents.theirs_sorted s.uncrossed),
            ))

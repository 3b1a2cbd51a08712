-- ===== src/Lob/Exchange/Replay.antt =====
-- Commands on a new book of 02_LOB_Engine/src/OrderBook.cpp, one after the other, against the
-- exchange that it is to be.
use object_oriented_programm.Prelude.{
  ℕ, suc, ◌≡◌, refl, ◌≤◌, ◌<◌, ◌^◌, true, false, ◌||◌, some, none, List, [], ◌∷◌, ◌==◌, lookup,
  is_some, arith, Bool-cases, Option-cases, inl, inr, ap, sym, ◌∙◌, subst, Run, ok, threw, fault,
  out_of_fuel, and_then, leb, min, ◌*◌, Cmd, pure, ◌>>=◌,
}
use object_oriented_programm.Lob.Types.{Ptr, Side, buy, OrderType}
use object_oriented_programm.Lob.OrderBook.{OrderBook, new_book}
use object_oriented_programm.Lob.OrderBook.Orders.{add_order, cancel_order}
use object_oriented_programm.Lob.OrderBook.Start.{new_book-Represents}
use object_oriented_programm.Lob.OrderBook.Cancel.{
  cancel_order_lem, cancel_order-unknown, less_order,
}
use object_oriented_programm.Lob.OrderBook.Sizes.{Sized}
use object_oriented_programm.Lob.OrderBook.Sizes.Commands.{
  add_order-Preserves, cancel_order-Preserves,
}
use object_oriented_programm.Lob.Preserves.{Leaves}
use object_oriented_programm.Lob.OrderBook.Uncrossed.Kept.{less_order-Uncrossed}
use object_oriented_programm.Lob.Exchange.{
  Exchange, Command, submit, withdraw, Answer, traded, canceled, closed_exchange, known, waiting,
  enter, leave, replay, step_back,
}
use object_oriented_programm.Lob.Exchange.Gone.{flat-less_order, step_back-unknown}
use object_oriented_programm.Lob.Exchange.Budget.{
  Fits, enter-Fits, leave-Fits, submissions, quantities, highest,
}
use object_oriented_programm.Lob.Exchange.Shows.{Shows, Agrees, from_side, lookup-known}
use object_oriented_programm.Lob.Exchange.Placed.{turned_away, enters_accepted}

-- A client's calls of addOrder and cancelOrder; `clock i` is the clock of the call `i`.
unfoldable pub run_commands : (ℕ → ℕ → ℕ) → ℕ → List Command → Cmd OrderBook (List Answer)
run_commands clock i [] = pure []
run_commands clock i (submit id side price qty type ∷ cs) = do
  trades ← add_order (clock i) id side price qty type
  answers ← run_commands clock (suc i) cs
  pure (traded trades ∷ answers)
run_commands clock i (withdraw id ∷ cs) = do
  found ← cancel_order id
  answers ← run_commands clock (suc i) cs
  pure (canceled found ∷ answers)

-- What follows on two commands that agree.
pub and_then-Agrees :
    {A B : Type 0} (r : Run OrderBook A) (t : Run Exchange A) (k : A → Cmd OrderBook B)
    (l : A → Cmd Exchange B)
    → Agrees r t
    → ((a : A) (b : OrderBook) (x : Exchange)
        → r ≡ ok a b
        → t ≡ ok a x
        → Shows b x
        → Agrees (k a b) (l a x))
    → Agrees (and_then r k) (and_then t l)
and_then-Agrees (ok a b) (ok c x) k l (same, s) go =
    subst (λ e. Agrees (k a b) (l e x)) same (go a b x refl (ap (λ e. ok e x) (sym same)) s)
and_then-Agrees (threw b) (threw x) k l s go = s
and_then-Agrees (ok a b) (threw x) k l h go = elim h [ ]
and_then-Agrees (ok a b) fault k l h go = elim h [ ]
and_then-Agrees (ok a b) out_of_fuel k l h go = elim h [ ]
and_then-Agrees (threw b) (ok a x) k l h go = elim h [ ]
and_then-Agrees (threw b) fault k l h go = elim h [ ]
and_then-Agrees (threw b) out_of_fuel k l h go = elim h [ ]
and_then-Agrees fault t k l h go = elim h [ ]
and_then-Agrees out_of_fuel t k l h go = elim h [ ]

prefixed :
    (a : Answer) (r : Run OrderBook (List Answer)) (t : Run Exchange (List Answer))
    → Agrees r t
    → Agrees (and_then r (λ rest. pure (a ∷ rest))) (and_then t (λ rest. pure (a ∷ rest)))
prefixed a r t h =
    and_then-Agrees r t (λ rest. pure (a ∷ rest)) (λ rest. pure (a ∷ rest)) h
      (λ rest b x _ _ s. (refl, s))

-- One call.
module _ (b : OrderBook) (x : Exchange) (s : Shows b x) where
  enters_refused :
      (most : ℕ) (clock : ℕ → ℕ) (id : ℕ) (side : Side) (price qty : ℕ) (type : OrderType)
      → ((qty == 0) || known id x) ≡ true
      → Agrees
          (add_order clock id side price qty type b)
          (enter most clock id side price qty type x)
  unfolding add_order enter
  enters_refused most clock id side price qty type h =
      rw (h, lookup-known b buy x s id) (rw h (refl, s))

  pub enters :
      (clock : ℕ → ℕ) (id : ℕ) (side : Side) (price qty : ℕ) (type : OrderType) (cs : List Command)
      → Fits b.level_pool.capacity (submit id side price qty type ∷ cs) x
      → b.order_pool.capacity < 2 ^ 64
      → Agrees
          (add_order clock id side price qty type b)
          (enter b.order_pool.capacity clock id side price qty type x)
  unfolding enter
  enters clock id side price qty type cs fits small =
      let seen = from_side b side x s in
      elim (Bool-cases ((qty == 0) || known id x)) [
        | inl refused ↦ enters_refused b.order_pool.capacity clock id side price qty type refused
        | inr valid ↦ elim (Bool-cases (leb b.order_pool.capacity (waiting x))) [
          | inl full ↦
              rw (turned_away clock b id side price qty type x seen valid full, valid, full) s
          | inr room ↦
              rw (valid, room)
                (enters_accepted clock b id side price qty type x seen valid cs fits small room)
        ]
      ]

  abbrev stepped : ℕ → Exchange
  stepped id = record { bids = step_back id x.bids; asks = step_back id x.asks }

  leaves_known :
      (id : ℕ) (a : Ptr)
      → lookup id b.order_map ≡ some a
      → Agrees (cancel_order id b) (ok true (stepped id))
  leaves_known id a found =
      let (d, run, r) = cancel_order_lem b buy s.mine s.theirs id a s.represents found in
      rw run (
        refl,
        record {
          mine = less_order id s.mine;
          theirs = less_order id s.theirs;
          represents = r;
          uncrossed = less_order-Uncrossed buy id s.mine s.theirs s.uncrossed;
          mine_flat = flat-less_order id s.mine ∙ ap (step_back id) s.mine_flat;
          theirs_flat = flat-less_order id s.theirs ∙ ap (step_back id) s.theirs_flat;
        },
      )

  leaves_unknown :
      (id : ℕ) → lookup id b.order_map ≡ none → Agrees (cancel_order id b) (ok false (stepped id))
  leaves_unknown id none_there =
      let h : known id x ≡ false = sym (lookup-known b buy x s id) ∙ ap is_some none_there in
      rw (cancel_order-unknown b id none_there) (
        refl,
        record {
          mine = s.mine;
          theirs = s.theirs;
          represents = s.represents;
          uncrossed = s.uncrossed;
          mine_flat = s.mine_flat ∙ sym (step_back-unknown id x.bids (ground arith));
          theirs_flat = s.theirs_flat ∙ sym (step_back-unknown id x.asks (ground arith));
        },
      )

  pub leaves : (id : ℕ) → Agrees (cancel_order id b) (leave id x)
  unfolding leave
  leaves id =
      let same = sym (lookup-known b buy x s id) in
      elim (Option-cases (lookup id b.order_map)) [
        | inl gone ↦ rw (same, gone) (leaves_unknown id gone)
        | inr (a, found) ↦ rw (same, found) (leaves_known id a found)
      ]

pub new_book-Shows : (orders levels : ℕ) → Shows (new_book orders levels) closed_exchange
new_book-Shows orders levels = record {
  mine = [];
  theirs = [];
  represents = new_book-Represents orders levels buy;
  uncrossed = tt;
  mine_flat = refl;
  theirs_flat = refl;
}

module _ (clock : ℕ → ℕ → ℕ) (orders levels : ℕ) (small : orders < 2 ^ 64) where
  pub sized_enters :
      (i : ℕ) (id : ℕ) (side : Side) (price qty : ℕ) (type : OrderType) (cs : List Command)
      (b : OrderBook) (x : Exchange)
      → Shows b x
      → Sized orders levels b
      → Fits levels (submit id side price qty type ∷ cs) x
      → Agrees
          (add_order (clock i) id side price qty type b)
          (enter orders (clock i) id side price qty type x)
  sized_enters i id side price qty type cs b x s (n, k, _) f =
      subst
        (λ m.
          Agrees (add_order (clock i) id side price qty type b)
            (enter m (clock i) id side price qty type x))
        n
        (enters b x s (clock i) id side price qty type cs
          (subst (λ l. Fits l (submit id side price qty type ∷ cs) x) (sym k) f) (rw n small))

  -- Any list of commands that fits, on any book that shows an exchange.
  pub replays :
      (i : ℕ) (cs : List Command) (b : OrderBook) (x : Exchange)
      → Shows b x
      → Sized orders levels b
      → Fits levels cs x
      → Agrees (run_commands clock i cs b) (replay orders clock i cs x)
  unfolding replay run_commands
  replays i [] b x s z f = (refl, s)
  replays i (submit id side price qty type ∷ cs) b x s z f =
      let kept =
        (add_order-Preserves orders levels (clock i) id side price qty type).preserves b z in
      let fits = enter-Fits levels cs orders (clock i) id side price qty type x f in
      and_then-Agrees (add_order (clock i) id side price qty type b)
        (enter orders (clock i) id side price qty type x)
        (λ trades. run_commands clock (suc i) cs >>= λ answers. pure (traded trades ∷ answers))
        (λ trades. replay orders clock (suc i) cs >>= λ answers. pure (traded trades ∷ answers))
        (sized_enters i id side price qty type cs b x s z f)
        (λ trades c y run meant shows.
          prefixed (traded trades) (run_commands clock (suc i) cs c)
            (replay orders clock (suc i) cs y)
            (replays (suc i) cs c y shows (subst (Leaves (Sized orders levels)) run kept)
              (subst (Leaves (Fits levels cs)) meant fits)))
  replays i (withdraw id ∷ cs) b x s z f =
      let kept = (cancel_order-Preserves orders levels id).preserves b z in
      let fits = leave-Fits levels cs id x f in
      and_then-Agrees (cancel_order id b) (leave id x)
        (λ found. run_commands clock (suc i) cs >>= λ answers. pure (canceled found ∷ answers))
        (λ found. replay orders clock (suc i) cs >>= λ answers. pure (canceled found ∷ answers))
        (leaves b x s id)
        (λ found c y run meant shows.
          prefixed (canceled found) (run_commands clock (suc i) cs c)
            (replay orders clock (suc i) cs y)
            (replays (suc i) cs c y shows (subst (Leaves (Sized orders levels)) run kept)
              (subst (Leaves (Fits levels cs)) meant fits)))

  -- On a new book with less than 2 ^ 64 slots for orders, and with as many levels as orders are
  -- submitted, or one more than twice a number above all their prices, any list of calls of
  -- addOrder and cancelOrder whose quantities sum up to less than 2 ^ 32 returns or throws just
  -- where the exchange of `replay` does, whose only exception is that of an order for which no slot
  -- is left; the answers are the same, trade by trade, and the book then represents levels that
  -- read as the two queues of the exchange, and of which no bid meets an ask.
  pub run_commands-replay :
      (i : ℕ) (cs : List Command)
      → min (submissions cs) (suc (2 * highest cs)) ≤ levels
      → quantities cs < 2 ^ 32
      → Agrees
          (run_commands clock i cs (new_book orders levels))
          (replay orders clock i cs closed_exchange)
  run_commands-replay i cs l q =
      replays i cs (new_book orders levels) closed_exchange (new_book-Shows orders levels)
        (unfold new_book in (refl, refl, tt))
        record { levels_fit = omega (arith, l); quantities_fit = omega (arith, q) }

-- ===== src/Lob/Exchange/Life.antt =====
-- A book of 02_LOB_Engine/src/OrderBook.cpp from its constructor, over the calls of a client, to its
-- destructor, which runs after an exception too.
use object_oriented_programm.Prelude.{
  ℕ, suc, ◌*◌, ◌≡◌, refl, ◌≤◌, ◌<◌, ◌^◌, List, [], ◌∷◌, min, ok, threw, fault, out_of_fuel, Run,
  Ends,
}
use object_oriented_programm.Lob.Types.{buy}
use object_oriented_programm.Lob.Preserves.{Leaves, Preserves, pure-Preserves, bind-Preserves}
use object_oriented_programm.Lob.OrderBook.{OrderBook, new_book}
use object_oriented_programm.Lob.OrderBook.Represents.{Represents}
use object_oriented_programm.Lob.OrderBook.Queries.{destroy}
use object_oriented_programm.Lob.OrderBook.Destroy.{destroy-Represents}
use object_oriented_programm.Lob.OrderBook.Sizes.{Sized}
use object_oriented_programm.Lob.OrderBook.Sizes.Commands.{
  add_order-Preserves, cancel_order-Preserves,
}
use object_oriented_programm.Lob.Exchange.{
  Exchange, Command, submit, withdraw, traded, canceled, closed_exchange, replay,
}
use object_oriented_programm.Lob.Exchange.Budget.{submissions, quantities, highest}
use object_oriented_programm.Lob.Exchange.Shows.{Shows, Agrees}
use object_oriented_programm.Lob.Exchange.Replay.{run_commands, run_commands-replay}

module _ (orders levels : ℕ) (clock : ℕ → ℕ → ℕ) where
  run_commands-Preserves :
      (i : ℕ) (cs : List Command) → Preserves (Sized orders levels) (run_commands clock i cs)
  unfolding run_commands
  run_commands-Preserves i [] = pure-Preserves []
  run_commands-Preserves i (submit id side price qty type ∷ cs) =
      bind-Preserves (add_order-Preserves orders levels (clock i) id side price qty type) (λ trades.
        bind-Preserves (run_commands-Preserves (suc i) cs)
          (λ answers. pure-Preserves (traded trades ∷ answers)))
  run_commands-Preserves i (withdraw id ∷ cs) =
      bind-Preserves (cancel_order-Preserves orders levels id) (λ found.
        bind-Preserves (run_commands-Preserves (suc i) cs)
          (λ answers. pure-Preserves (canceled found ∷ answers)))

  -- The destructor returns, and leaves a book that holds nothing and has every slot free.
  abbrev pub Destroys : OrderBook → Type 0
  Destroys b = (d : OrderBook) × (destroy b ≡ ok tt d) × (d.order_map ≡ []) × Represents d buy [] []

  shown-Destroys : (b : OrderBook) (x : Exchange) → Shows b x → Sized orders levels b → Destroys b
  shown-Destroys b x s (_, _, u) = destroy-Represents b s.mine s.theirs s.represents u

  Agrees-Destroys :
      {A : Type 0} (r : Run OrderBook A) (t : Run Exchange A)
      → Agrees r t
      → Leaves (Sized orders levels) r
      → Ends Destroys r
  Agrees-Destroys (ok a b) (ok c x) (_, s) z = shown-Destroys b x s z
  Agrees-Destroys (threw b) (threw x) s z = shown-Destroys b x s z
  Agrees-Destroys (ok a b) (threw x) h z = elim h [ ]
  Agrees-Destroys (ok a b) fault h z = elim h [ ]
  Agrees-Destroys (ok a b) out_of_fuel h z = elim h [ ]
  Agrees-Destroys (threw b) (ok a x) h z = elim h [ ]
  Agrees-Destroys (threw b) fault h z = elim h [ ]
  Agrees-Destroys (threw b) out_of_fuel h z = elim h [ ]
  Agrees-Destroys fault t h z = h
  Agrees-Destroys out_of_fuel t h z = h

  -- On a new book with less than 2 ^ 64 slots for orders, and with as many levels as orders are
  -- submitted, or one more than twice a number above all their prices, any list of calls of
  -- addOrder and cancelOrder whose quantities sum up to less than 2 ^ 32 returns or throws, and the
  -- destructor of the book that it leaves returns: the map of orders is then empty, and the book
  -- represents two empty sides, with every slot of both pools free once.
  pub run_commands-destroy :
      (i : ℕ) (cs : List Command)
      → orders < 2 ^ 64
      → min (submissions cs) (suc (2 * highest cs)) ≤ levels
      → quantities cs < 2 ^ 32
      → Ends Destroys (run_commands clock i cs (new_book orders levels))
  run_commands-destroy i cs small l q =
      let b = new_book orders levels in
      Agrees-Destroys (run_commands clock i cs b) (replay orders clock i cs closed_exchange)
        (run_commands-replay clock orders levels small i cs l q)
        ((run_commands-Preserves i cs).preserves b (unfold new_book in (refl, refl, tt)))

-- ===== src/Lob/OrderBook/Sizes/Commands.antt =====
-- The sizes of the pools over addOrder and cancelOrder of 02_LOB_Engine/src/OrderBook.cpp.
use object_oriented_programm.Prelude.{
  ℕ, true, false, ◌&&◌, ◌||◌, Option, some, none, [], ltb, ◌==◌, lookup, erase, is_some, not,
}
use object_oriented_programm.Lob.Types.{Ptr, null, Side, OrderType, is_limit, new_order}
use object_oriented_programm.Lob.PriceLevel
use object_oriented_programm.Lob.PriceLevel.{PriceLevel, new_level}
use object_oriented_programm.Lob.Preserves.{
  Preserves, pure-Preserves, if-Preserves, bind-Preserves, store-Preserves, allocate-Preserves,
  deallocate-Preserves, append-Preserves, remove-Preserves,
}
use object_oriented_programm.Lob.OrderBook.{levels, insert_level, before}
use object_oriented_programm.Lob.OrderBook.Orders.{
  use_or_create, get_or_create_price_level, remove_price_level_if_empty, rest_or_drop, add_order,
  leave_level, cancel_found, cancel_order,
}
use object_oriented_programm.Lob.OrderBook.Sizes.{
  match_order-Preserves, Sized, on_orders-Preserves, on_levels-Preserves, get_book-Preserves,
  reads_order, reads_level, forgets, enters, sides_change,
}

module _ (n k : ℕ) where
  use_or_create-Preserves :
      (side : Side) (price : ℕ) (o : Option Ptr)
      → Preserves (Sized n k) (use_or_create side price o)
  unfolding use_or_create
  use_or_create-Preserves side price (some level) = pure-Preserves level
  use_or_create-Preserves side price none =
      bind-Preserves (on_levels-Preserves n k (allocate-Preserves k (new_level price))) (λ level.
        bind-Preserves (sides_change n k side (insert_level (before side) price level))
          (λ _. pure-Preserves level))

  get_level-Preserves :
      (side : Side) (price : ℕ) → Preserves (Sized n k) (get_or_create_price_level side price)
  unfolding get_or_create_price_level
  get_level-Preserves side price =
      bind-Preserves (get_book-Preserves n k)
        (λ b. use_or_create-Preserves side price (lookup price (levels side b)))

  drop_level-Preserves :
      (side : Side) (price : ℕ) (level : Ptr)
      → Preserves (Sized n k) (remove_price_level_if_empty side price level)
  unfolding remove_price_level_if_empty
  drop_level-Preserves side price level = if-Preserves (level == null) (pure-Preserves tt) (
      bind-Preserves (reads_level n k level) (λ l.
        if-Preserves (not (PriceLevel.is_empty l)) (pure-Preserves tt) (
          bind-Preserves (sides_change n k side (erase price))
            (λ _. on_levels-Preserves n k (deallocate-Preserves k level)))))

  rest_or_drop-Preserves :
      (id : ℕ) (side : Side) (type : OrderType) (p : Ptr)
      → Preserves (Sized n k) (rest_or_drop id side type p)
  unfolding rest_or_drop
  rest_or_drop-Preserves id side type p = bind-Preserves (reads_order n k p) (λ o.
      if-Preserves (ltb 0 o.remaining_qty && is_limit type)
        (bind-Preserves (get_level-Preserves side o.price) (λ level.
          bind-Preserves (reads_level n k level) (λ l.
            bind-Preserves (on_orders-Preserves n k (append-Preserves n level l p)) (λ l'.
              bind-Preserves (on_levels-Preserves n k (store-Preserves k level l'))
                (λ _. enters n k id p)))))
        (on_orders-Preserves n k (deallocate-Preserves n p)))

  pub add_order-Preserves :
      (clock : ℕ → ℕ) (id : ℕ) (side : Side) (price qty : ℕ) (type : OrderType)
      → Preserves (Sized n k) (add_order clock id side price qty type)
  unfolding add_order
  add_order-Preserves clock id side price qty type = bind-Preserves (get_book-Preserves n k) (λ b.
      if-Preserves (qty == 0 || is_some (lookup id b.order_map)) (pure-Preserves []) (
        bind-Preserves
          (on_orders-Preserves n k (allocate-Preserves n (new_order id price qty side type 0)))
          (λ p. bind-Preserves (match_order-Preserves n k clock side p) (λ ms.
            bind-Preserves (rest_or_drop-Preserves id side type p) (λ _. pure-Preserves ms)))))

  leave_level-Preserves : (order level : Ptr) → Preserves (Sized n k) (leave_level order level)
  unfolding leave_level
  leave_level-Preserves order level = if-Preserves (level == null) (pure-Preserves tt) (
      bind-Preserves (reads_level n k level) (λ l.
        bind-Preserves (on_orders-Preserves n k (remove-Preserves n l order)) (λ l'.
          bind-Preserves (on_levels-Preserves n k (store-Preserves k level l')) (λ _.
            bind-Preserves (reads_order n k order)
              (λ o. drop_level-Preserves o.side o.price level)))))

  cancel_found-Preserves : (id : ℕ) (o : Option Ptr) → Preserves (Sized n k) (cancel_found id o)
  unfolding cancel_found
  cancel_found-Preserves id none = pure-Preserves false
  cancel_found-Preserves id (some order) = bind-Preserves (reads_order n k order) (λ o.
      bind-Preserves (leave_level-Preserves order o.price_level_ptr) (λ _.
        bind-Preserves (forgets n k id) (λ _.
          bind-Preserves (on_orders-Preserves n k (deallocate-Preserves n order))
            (λ _. pure-Preserves true))))

  pub cancel_order-Preserves : (id : ℕ) → Preserves (Sized n k) (cancel_order id)
  unfolding cancel_order
  cancel_order-Preserves id =
      bind-Preserves (get_book-Preserves n k)
        (λ b. cancel_found-Preserves id (lookup id b.order_map))

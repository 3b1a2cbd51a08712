-- ===== src/Lob/PriceLevel.antt =====
-- 02_LOB_Engine/include/PriceLevel.hpp: the intrusive doubly linked list of the orders at a price.
-- `this` is the address of the level, passed beside its value; a method returns the new value.
pub mod Chain
pub mod Links
pub mod Represents
pub mod Remove
use object_oriented_programm.Prelude.{
  ℕ, ◌+◌, ◌-◌, ◌%◌, ◌^◌, Bool, leb, ltb, ◌==◌, if◌then◌else◌, Cmd, pure, ◌>>=◌, ◌>>◌,
}
use object_oriented_programm.Lob.Types.{Ptr, null, Order}
use object_oriented_programm.Lob.Pool.{Pool, load, store}

pub record PriceLevel : Type 0 where
  pub price : ℕ
  pub total_volume : ℕ
  pub order_count : ℕ
  pub head : Ptr
  pub tail : Ptr
  pub prev_level : Ptr
  pub next_level : Ptr

unfoldable pub new_level : ℕ → PriceLevel
new_level price = record {
  price = price;
  total_volume = 0;
  order_count = 0;
  head = null;
  tail = null;
  prev_level = null;
  next_level = null;
}

-- uint32_t and uint64_t addition, and uint32_t subtraction.
unfoldable pub add32 : ℕ → ℕ → ℕ
add32 a b = (a + b) % 2 ^ 32

unfoldable pub sub32 : ℕ → ℕ → ℕ
sub32 a b = (a + 2 ^ 32 - b) % 2 ^ 32

unfoldable pub add64 : ℕ → ℕ → ℕ
add64 a b = (a + b) % 2 ^ 64

-- `p->next = q` and `p->prev = q`.
unfoldable pub set_next : Ptr → Ptr → Cmd (Pool Order) (Unit {0})
unfolding load store
set_next p q = do o ← load p; store p (record o { next = q })

unfoldable pub set_prev : Ptr → Ptr → Cmd (Pool Order) (Unit {0})
unfolding load store
set_prev p q = do o ← load p; store p (record o { prev = q })

unfoldable pub append : Ptr → PriceLevel → Ptr → Cmd (Pool Order) PriceLevel
unfolding load store set_next add32 add64
append this l order = do
  o ← load order
  store order (record o { price_level_ptr = this; next = null; prev = l.tail })
  head ← if l.tail == null then pure order else do set_next l.tail order; pure l.head
  o ← load order
  pure (record l {
    head = head;
    tail = order;
    total_volume = add32 l.total_volume o.remaining_qty;
    order_count = add64 l.order_count 1;
  })

-- `totalVolume -= (totalVolume >= qty) ? qty : totalVolume`.
unfoldable pub less_volume : ℕ → ℕ → ℕ
less_volume volume qty = volume - (if leb qty volume then qty else volume)

-- The neighbours of a leaving order skip it. The results are the level's new head and tail.
unfoldable pub unlink_before : PriceLevel → Order → Cmd (Pool Order) Ptr
unfolding set_next
unlink_before l o = if o.prev == null then pure o.next else do set_next o.prev o.next; pure l.head

unfoldable pub unlink_after : PriceLevel → Order → Cmd (Pool Order) Ptr
unfolding set_prev
unlink_after l o = if o.next == null then pure o.prev else do set_prev o.next o.prev; pure l.tail

unfoldable pub remove : PriceLevel → Ptr → Cmd (Pool Order) PriceLevel
unfolding load store unlink_before unlink_after less_volume
remove l order = if order == null then pure l else do
  o ← load order
  head ← unlink_before l o
  o ← load order
  tail ← unlink_after l o
  o ← load order
  store order (record o { next = null; prev = null; price_level_ptr = null })
  pure (record l {
    head = head;
    tail = tail;
    total_volume = less_volume l.total_volume o.remaining_qty;
    order_count = if ltb 0 l.order_count then l.order_count - 1 else l.order_count;
  })

unfoldable pub is_empty : PriceLevel → Bool
is_empty l = l.head == null

-- ===== src/Lob/OrderBook/Matching/Steps.antt =====
-- The commands of one round of the inner loop, on a state that is known at the objects they use.
use object_oriented_programm.Prelude.{
  ℕ, ◌-◌, ◌≡◌, ◌≤◌, ◌<◌, ◌^◌, List, [], ◌∷◌, ◌==◌, false, Option, some, none, arith, erase, ok, ◌∙◌,
}
use object_oriented_programm.Lob.Types.{Ptr, null, Order}
use object_oriented_programm.Lob.Pool.{Pool, write}
use object_oriented_programm.Lob.Pool.Access.{
  with_storage, load-ok, store-ok, deallocate-ok, write-other,
}
use object_oriented_programm.Lob.PriceLevel.{PriceLevel, sub32}
use object_oriented_programm.Lob.PriceLevel.Chain.{Entry, addresses, SameOutside, Seg-write}
use object_oriented_programm.Lob.PriceLevel.Represents.{level_of, Holds}
use object_oriented_programm.Lob.PriceLevel.Remove.{remove_lem}
use object_oriented_programm.Lob.OrderBook.{OrderBook}
use object_oriented_programm.Lob.OrderBook.Matching.{reduce, reduce_volume, exchange, retire_maker}

-- The book with the two memories given anew.
abbrev pub with_memory : OrderBook → (Ptr → Option Order) → (Ptr → Option PriceLevel) → OrderBook
with_memory b h g = record b {
  order_pool = with_storage b.order_pool h;
  level_pool = with_storage b.level_pool g;
}

pub sub32_le : (a q : ℕ) → a < 2 ^ 32 → q ≤ a → sub32 a q ≡ a - q
unfolding sub32
sub32_le a q small le = omega arith

reduce-ok :
    {o : Order} (p : Ptr) (q : ℕ) (s : Pool Order)
    → s.storage p ≡ some o
    → o.remaining_qty < 2 ^ 32
    → q ≤ o.remaining_qty
    → reduce p q s
      ≡ ok tt (
          with_storage s
            (write s.storage p (some (record o { remaining_qty = o.remaining_qty - q }))))
unfolding reduce
reduce-ok {o} p q s at small le = rw (
  load-ok p s at,
  store-ok p (record o { remaining_qty = sub32 o.remaining_qty q }) s at,
  sub32_le o.remaining_qty q small le,
)

reduce_volume-ok :
    {l : PriceLevel} (p : Ptr) (q : ℕ) (s : Pool PriceLevel)
    → s.storage p ≡ some l
    → l.total_volume < 2 ^ 32
    → q ≤ l.total_volume
    → reduce_volume p q s
      ≡ ok tt (
          with_storage s
            (write s.storage p (some (record l { total_volume = l.total_volume - q }))))
unfolding reduce_volume
reduce_volume-ok {l} p q s at small le = rw (
  load-ok p s at,
  store-ok p (record l { total_volume = sub32 l.total_volume q }) s at,
  sub32_le l.total_volume q small le,
)

pub exchange_lem :
    {t m : Order} {l : PriceLevel} (level taker maker : Ptr) (q : ℕ) (b : OrderBook)
    → b.order_pool.storage taker ≡ some t
    → b.order_pool.storage maker ≡ some m
    → b.level_pool.storage level ≡ some l
    → (taker == maker) ≡ false
    → q ≤ t.remaining_qty
    → q ≤ m.remaining_qty
    → q ≤ l.total_volume
    → t.remaining_qty < 2 ^ 32
    → m.remaining_qty < 2 ^ 32
    → l.total_volume < 2 ^ 32
    → exchange level taker maker q b
      ≡ ok tt (
          with_memory b
            (write
              (write b.order_pool.storage taker
                (some (record t { remaining_qty = t.remaining_qty - q })))
              maker
              (some (record m { remaining_qty = m.remaining_qty - q })))
            (write b.level_pool.storage level
              (some (record l { total_volume = l.total_volume - q }))))
unfolding exchange
exchange_lem {t} {m} {l} level taker maker q b at bt ct ne qt qm ql st sm sl =
    let t' = record t { remaining_qty = t.remaining_qty - q } in
    rw (
      reduce-ok taker q b.order_pool at st qt,
      reduce-ok maker q (with_storage b.order_pool (write b.order_pool.storage taker (some t')))
          (write-other b.order_pool.storage taker maker (some t') ne ∙ bt) sm qm,
      reduce_volume-ok level q b.level_pool ct sl ql,
    )

-- The head of a level leaves it with nothing remaining: the level keeps the orders behind it.
pub retire_maker_lem :
    (price id level a : Ptr) (o : Order) (xs : List Entry) (b : OrderBook)
    → b.level_pool.storage level ≡ some (level_of price ((a, o) ∷ xs))
    → Holds b.order_pool.storage level ((a, o) ∷ xs)
    → (h : Ptr → Option Order) × (retire_maker level a id b
        ≡ ok tt (record b {
          order_map = erase id b.order_map;
          order_pool = record {
            storage = h;
            free_list = a ∷ b.order_pool.free_list;
            capacity = b.order_pool.capacity;
          };
          level_pool =
              with_storage b.level_pool
                (write b.level_pool.storage level (some (level_of price xs)));
        }))
      × Holds h level xs
      × SameOutside (a ∷ addresses xs) b.order_pool.storage h
unfolding retire_maker
retire_maker_lem price id level a o xs b at (d, seg) =
    let (h, run, (d', seg'), gone, same) = remove_lem price level a o [] xs b.order_pool (d, seg) in
    (
      write h a none,
      rw (
        load-ok level b.level_pool at,
        run,
        store-ok level (level_of price xs) b.level_pool at,
        deallocate-ok a (with_storage b.order_pool h) seg.0 gone,
      ),
      (d', Seg-write h level null xs null a none d.0 seg'),
      λ c out. write-other h a c none (ground arith) ∙ same c out,
    )

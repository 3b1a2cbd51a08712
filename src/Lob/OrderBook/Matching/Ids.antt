-- ===== src/Lob/OrderBook/Matching/Ids.antt =====
-- What a match keeps of the lists: the identifiers, the order of the levels, and that every order
-- left in the book still wants something.
use object_oriented_programm.Prelude.{
  ℕ, ◌+◌, ◌-◌, ◌≡◌, refl, ◌≤◌, Bool, true, ◌||◌, List, [], ◌∷◌, ◌++◌, if◌then◌else◌, arith, lookup,
  erase, lookup-erase, none, ap, ◌∙◌,
}
use object_oriented_programm.Lob.Types.{Ptr, Side}
use object_oriented_programm.Lob.PriceLevel.Chain.{Entry, has}
use object_oriented_programm.Lob.OrderBook.View.{Level, count, count-append, count-has, orders_of}
use object_oriented_programm.Lob.OrderBook.Represents.{
  order_index, ids, OrdersStand, LevelsStand, AllBehind, Sorted, lookup-none, lookup-index-append,
}
use object_oriented_programm.Lob.OrderBook.Matching.Fill.{fill}
use object_oriented_programm.Lob.OrderBook.Matching.Sweep.{sweep, is_nil}
use object_oriented_programm.Lob.OrderBook.Matching.LevelLoop.{forget}

pub ids-append : (xs ys : List Entry) → ids (xs ++ ys) ≡ ids xs ++ ids ys
ids-append [] ys = refl
ids-append ((a, o) ∷ xs) ys = rw (ids-append xs ys)

pub count-ids :
    (id : ℕ) (xs ys : List Entry)
    → count id (ids (xs ++ ys)) ≡ count id (ids xs) + count id (ids ys)
count-ids id xs ys = ap (count id) (ids-append xs ys) ∙ count-append id (ids xs) (ids ys)

pub lookup-forget :
    (id : ℕ) (us : List Entry) (m : List (ℕ × Ptr))
    → lookup id (forget us m) ≡ (if has id (ids us) then none else lookup id m)
lookup-forget id [] m = refl
lookup-forget id ((a, o) ∷ us) m =
    ground (arith, lookup-forget id us (erase o.id m), lookup-erase o.id id m)

fill-ids :
    (id qty : ℕ) (xs : List Entry)
    → count id (ids (fill qty xs).left) + count id (ids (fill qty xs).used) ≡ count id (ids xs)
unfolding fill
fill-ids id qty [] = refl
fill-ids id qty ((a, o) ∷ xs) = ground (arith, fill-ids id (qty - o.remaining_qty) xs)

fill-lookup :
    (id qty : ℕ) (xs : List Entry)
    → count id (ids xs) ≤ 1
    → lookup id (order_index (fill qty xs).left)
      ≡ (if has id (ids (fill qty xs).used) then none else lookup id (order_index xs))
unfolding fill
fill-lookup id qty [] one = refl
fill-lookup id qty ((a, o) ∷ xs) one = ground (
  arith,
  fill-lookup id (qty - o.remaining_qty) xs,
  fill-ids id (qty - o.remaining_qty) xs,
  lookup-none id (fill (qty - o.remaining_qty) xs).left,
)

nil-ids : (id : ℕ) (xs : List Entry) → is_nil xs ≡ true → count id (ids xs) ≡ 0
nil-ids id [] h = refl
nil-ids id (x ∷ xs) h = cc

-- No identifier is lost or made up by a match.
pub sweep-ids :
    (closed : ℕ → Bool) (id qty : ℕ) (vs : List Level)
    → count id (ids (orders_of (sweep closed qty vs).left))
        + count id (ids (sweep closed qty vs).used)
      ≡ count id (ids (orders_of vs))
unfolding sweep
sweep-ids closed id qty [] = refl
sweep-ids closed id qty (v ∷ vs) =
    let f = fill qty v.orders in
    let next = sweep closed f.rest vs in
    ground (
      arith,
      sweep-ids closed id f.rest vs,
      fill-ids id qty v.orders,
      count-ids id v.orders (orders_of vs),
      count-ids id f.left (orders_of vs),
      count-ids id f.used next.used,
      nil-ids id f.left,
    )

has-append :
    (id : ℕ) (us vs : List Entry) → has id (ids (us ++ vs)) ≡ (has id (ids us) || has id (ids vs))
has-append id [] vs = refl
has-append id ((a, o) ∷ us) vs = ground (arith, has-append id us vs)

nil-lookup : (id : ℕ) (xs : List Entry) → is_nil xs ≡ true → lookup id (order_index xs) ≡ none
nil-lookup id [] h = refl
nil-lookup id (x ∷ xs) h = cc

-- The map of what is left is the map of what was there, less the orders used up.
pub sweep-lookup :
    (closed : ℕ → Bool) (id qty : ℕ) (vs : List Level)
    → count id (ids (orders_of vs)) ≤ 1
    → lookup id (order_index (orders_of (sweep closed qty vs).left)) ≡ (
        if has id (ids (sweep closed qty vs).used)
        then none
        else lookup id (order_index (orders_of vs)))
unfolding sweep
sweep-lookup closed id qty [] one = refl
sweep-lookup closed id qty (v ∷ vs) one =
    let f = fill qty v.orders in
    let next = sweep closed f.rest vs in
    ground (
      arith,
      sweep-lookup closed id f.rest vs,
      sweep-ids closed id f.rest vs,
      fill-lookup id qty v.orders,
      fill-ids id qty v.orders,
      count-ids id v.orders (orders_of vs),
      lookup-index-append id v.orders (orders_of vs),
      lookup-index-append id f.left (orders_of vs),
      has-append id f.used next.used,
      nil-lookup id f.left,
      lookup-none id (orders_of vs),
      lookup-none id v.orders,
      lookup-none id (orders_of next.left),
      count-has id (ids f.used),
      count-has id (ids next.used),
    )

fill-OrdersStand :
    (side : Side) (price qty : ℕ) (xs : List Entry)
    → OrdersStand side price xs
    → OrdersStand side price (fill qty xs).left
unfolding fill
fill-OrdersStand side price qty [] s = tt
fill-OrdersStand side price qty ((a, o) ∷ xs) s =
    ground (arith, fill-OrdersStand side price (qty - o.remaining_qty) xs s.3)

pub sweep-LevelsStand :
    (closed : ℕ → Bool) (side : Side) (qty : ℕ) (vs : List Level)
    → LevelsStand side vs
    → LevelsStand side (sweep closed qty vs).left
unfolding sweep
sweep-LevelsStand closed side qty [] s = tt
sweep-LevelsStand closed side qty (v ∷ vs) s =
    let f = fill qty v.orders in
    ground (
      arith,
      sweep-LevelsStand closed side f.rest vs s.2,
      fill-OrdersStand side v.price qty v.orders s.1,
    )

pub sweep-AllBehind :
    (closed : ℕ → Bool) (side : Side) (price qty : ℕ) (vs : List Level)
    → AllBehind side price vs
    → AllBehind side price (sweep closed qty vs).left
unfolding sweep
sweep-AllBehind closed side price qty [] s = tt
sweep-AllBehind closed side price qty (v ∷ vs) s =
    ground (arith, sweep-AllBehind closed side price (fill qty v.orders).rest vs s.1)

pub sweep-Sorted :
    (closed : ℕ → Bool) (side : Side) (qty : ℕ) (vs : List Level)
    → Sorted side vs
    → Sorted side (sweep closed qty vs).left
unfolding sweep
sweep-Sorted closed side qty [] s = tt
sweep-Sorted closed side qty (v ∷ vs) s =
    ground (arith, sweep-Sorted closed side (fill qty v.orders).rest vs s.1)

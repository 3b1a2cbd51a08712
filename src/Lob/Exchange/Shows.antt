-- ===== src/Lob/Exchange/Shows.antt =====
-- A book of 02_LOB_Engine/src/OrderBook.cpp that stands for an exchange.
use object_oriented_programm.Prelude.{
  ℕ, ◌≡◌, refl, false, ◌||◌, Option, some, none, List, lookup, is_some, arith, ap, ◌∙◌, Run, ok,
  threw,
}
use object_oriented_programm.Lob.Types.{Ptr, Side, buy, sell}
use object_oriented_programm.Lob.OrderBook.{OrderBook}
use object_oriented_programm.Lob.OrderBook.View.{Level, orders_of}
use object_oriented_programm.Lob.OrderBook.Represents.{Represents, flip, order_index}
use object_oriented_programm.Lob.OrderBook.Uncrossed.{Uncrossed}
use object_oriented_programm.Lob.OrderBook.Uncrossed.Kept.{flip-Uncrossed}
use object_oriented_programm.Lob.Exchange.{Exchange, waits, known, own, other, with_queues}
use object_oriented_programm.Lob.Exchange.Flat.{flat}
use object_oriented_programm.Lob.Exchange.Gone.{lookup-flat, some_first}

-- The book has levels that read as the queues of the exchange, and no bid meets an ask.
pub record Seen (b : OrderBook) (side : Side) (x : Exchange) : Type 0 where
  pub mine : List Level
  pub theirs : List Level
  pub represents : Represents b side mine theirs
  pub uncrossed : Uncrossed side mine theirs
  pub mine_flat : flat mine ≡ own side x
  pub theirs_flat : flat theirs ≡ other side x

abbrev pub Shows : OrderBook → Exchange → Type 0
Shows b x = Seen b buy x

-- The book and the exchange come to the same end.
abbrev pub Agrees : {A : Type 0} → Run OrderBook A → Run Exchange A → Type 0
Agrees (ok a b) (ok c x) = (a ≡ c) × Shows b x
Agrees (threw b) (threw x) = Shows b x
Agrees r s = ⊥

pub from_side : (b : OrderBook) (side : Side) (x : Exchange) → Shows b x → Seen b side x
from_side b buy x s = s
from_side b sell x s = record {
  mine = s.theirs;
  theirs = s.mine;
  represents = flip b buy s.mine s.theirs s.represents;
  uncrossed = flip-Uncrossed buy s.mine s.theirs s.uncrossed;
  mine_flat = s.theirs_flat;
  theirs_flat = s.mine_flat;
}

pub from_levels :
    (d : OrderBook) (side : Side) (mine theirs : List Level)
    → Represents d side mine theirs
    → Uncrossed side mine theirs
    → Shows d (with_queues side (flat mine) (flat theirs))
from_levels d buy mine theirs r u = record {
  mine = mine;
  theirs = theirs;
  represents = r;
  uncrossed = u;
  mine_flat = refl;
  theirs_flat = refl;
}
from_levels d sell mine theirs r u = record {
  mine = theirs;
  theirs = mine;
  represents = flip d sell mine theirs r;
  uncrossed = flip-Uncrossed sell mine theirs u;
  mine_flat = refl;
  theirs_flat = refl;
}

known-sides :
    (side : Side) (id : ℕ) (x : Exchange)
    → (waits id (own side x) || waits id (other side x)) ≡ known id x
known-sides buy id x = refl
known-sides sell id x = ground arith

-- The map has the identifiers that wait.
pub lookup-known :
    (b : OrderBook) (side : Side) (x : Exchange) (s : Seen b side x) (id : ℕ)
    → is_some (lookup id b.order_map) ≡ known id x
lookup-known b side x s id =
    let here = lookup id (order_index (orders_of s.mine)) in
    let there = lookup id (order_index (orders_of s.theirs)) in
    ap is_some (s.represents.order_map id)
    ∙ some_first here there
    ∙ ap (λ u. u || is_some there) (lookup-flat id s.mine ∙ ap (waits id) s.mine_flat)
    ∙ ap (λ u. waits id (own side x) || u) (lookup-flat id s.theirs ∙ ap (waits id) s.theirs_flat)
    ∙ known-sides side id x

pub not_some : (o : Option Ptr) → is_some o ≡ false → o ≡ none
not_some none h = refl
not_some (some a) h = cc

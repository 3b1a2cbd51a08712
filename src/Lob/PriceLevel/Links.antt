-- ===== src/Lob/PriceLevel/Links.antt =====
-- `p->next = q` at the end of a segment and `p->prev = q` at its front.
use object_oriented_programm.Prelude.{◌≡◌, Option, some, List, [], ◌∷◌, arith, ok, ◌∙◌}
use object_oriented_programm.Lob.Types.{Ptr, Order}
use object_oriented_programm.Lob.Pool.{Pool, write}
use object_oriented_programm.Lob.Pool.Access.{with_storage, load-ok, store-ok, write_self}
use object_oriented_programm.Lob.PriceLevel.{set_next, set_prev}
use object_oriented_programm.Lob.PriceLevel.Chain.{
  Entry, addresses, Distinct, linked, first, last, Seg, SameOutside, Seg-write,
}

module _ (level : Ptr) where
  pub set_next-last :
      (p a : Ptr) (o : Order) (xs : List Entry) (e q : Ptr) (s : Pool Order)
      → Distinct (a ∷ addresses xs)
      → Seg s.storage level p ((a, o) ∷ xs) e
      → (h : Ptr → Option Order) × (set_next (last a xs) q s ≡ ok tt (with_storage s h))
        × Seg h level p ((a, o) ∷ xs) q
        × SameOutside (a ∷ addresses xs) s.storage h
  unfolding set_next
  set_next-last p a o [] e q s d (ne, at, _) = (
    write s.storage a (some (linked o level p q)),
    rw (load-ok a s at, store-ok a (linked o level p q) s at),
    (ne, write_self s.storage a _, tt),
    λ b out. unfold write in ground arith,
  )
  set_next-last p a o ((b, u) ∷ xs) e q s (fresh, d) (ne, at, rest) =
      let (h, run, seg, same) = set_next-last a b u xs e q s d rest in
      (h, run, (ne, same a fresh ∙ at, seg), λ c out. same c (ground arith))

  pub set_prev-first :
      (p a : Ptr) (o : Order) (xs : List Entry) (e q : Ptr) (s : Pool Order)
      → Distinct (a ∷ addresses xs)
      → Seg s.storage level p ((a, o) ∷ xs) e
      → (h : Ptr → Option Order) × (set_prev a q s ≡ ok tt (with_storage s h))
        × Seg h level q ((a, o) ∷ xs) e
        × SameOutside (a ∷ addresses xs) s.storage h
  unfolding set_prev
  set_prev-first p a o xs e q s (fresh, d) (ne, at, rest) = (
    write s.storage a (some (linked o level q (first xs e))),
    rw (load-ok a s at, store-ok a (linked o level q (first xs e)) s at),
    (ne, write_self s.storage a _, Seg-write s.storage level a xs e a _ fresh rest),
    λ b out. unfold write in ground arith,
  )

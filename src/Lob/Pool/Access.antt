-- ===== src/Lob/Pool/Access.antt =====
-- Reads and writes of live objects in a pool.
use object_oriented_programm.Prelude.{
  ◌≡◌, Option, none, some, List, ◌∷◌, false, ◌==◌, if◌then◌else◌, arith, ok,
}
use object_oriented_programm.Lob.Types.{Ptr, null}
use object_oriented_programm.Lob.Pool.{Pool, write, load, store, allocate, deallocate, retire}

module _ {T : Type 0} where
  -- The pool with its memory given anew.
  abbrev pub with_storage : Pool T → (Ptr → Option T) → Pool T
  with_storage s h = record s { storage = h }

  pub load-ok : {x : T} (p : Ptr) (s : Pool T) → s.storage p ≡ some x → load p s ≡ ok x s
  unfolding load
  load-ok p s e = rw (e, load)

  pub store-ok :
      {x : T} (p : Ptr) (y : T) (s : Pool T)
      → s.storage p ≡ some x
      → store p y s ≡ ok tt (with_storage s (write s.storage p (some y)))
  unfolding store
  store-ok p y s e = rw (load-ok p s e)

  pub deallocate-ok :
      {x : T} (p : Ptr) (s : Pool T)
      → (p == null) ≡ false
      → s.storage p ≡ some x
      → deallocate p s
        ≡ ok tt (record s { storage = write s.storage p none; free_list = p ∷ s.free_list })
  unfolding deallocate
  deallocate-ok p s ne e = rw (ne, load-ok p s e, if◌then◌else◌, retire)

  pub allocate-ok :
      (x : T) (p : Ptr) (rest : List Ptr) (s : Pool T)
      → s.free_list ≡ p ∷ rest
      → allocate x s ≡ ok p (record s { storage = write s.storage p (some x); free_list = rest })
  unfolding allocate
  allocate-ok x p rest s e = rw e

  pub write_self : (h : Ptr → Option T) (p : Ptr) (c : Option T) → write h p c p ≡ c
  unfolding write
  write_self h p c = ground arith

  pub write-other :
      (h : Ptr → Option T) (p q : Ptr) (c : Option T) → (p == q) ≡ false → write h p c q ≡ h q
  unfolding write
  write-other h p q c ne = ground arith

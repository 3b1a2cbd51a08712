-- ===== src/Lob/Pool.antt =====
-- 02_LOB_Engine/include/ObjectPool.hpp. `storage p` is the object that lives at `p`, if one does:
-- `resize` makes a default object in every slot, the placement `new` of `allocate` makes one anew,
-- and the destructor call of `deallocate` ends its life. An access where no object lives is
-- undefined behaviour, `fault`. The head of `free_list` is the back of the vector.
pub mod Access
use object_oriented_programm.Prelude.{
  ℕ, zero, suc, Option, none, some, List, [], ◌∷◌, length, leb, ◌==◌, if◌then◌else◌, ◌&&◌, ok,
  threw, fault, Cmd, pure, ◌>>◌,
}
use object_oriented_programm.Lob.Types.{Ptr, null}

pub record Pool (T : Type 0) : Type 0 where
  pub storage : Ptr → Option T
  pub free_list : List Ptr
  pub capacity : ℕ

-- The addresses n, ..., 1: what the constructor's loop has pushed after `n` rounds.
unfoldable pub slots : ℕ → List Ptr
slots zero = []
slots (suc n) = suc n ∷ slots n

unfoldable pub write {ℓ} : {T : Type ℓ} → (Ptr → Option T) → Ptr → Option T → Ptr → Option T
write h p c a = if a == p then c else h a

module _ {T : Type 0} where
  unfoldable pub new_pool : ℕ → T → Pool T
  unfolding slots
  new_pool capacity blank = record {
    storage = λ p. if leb 1 p && leb p capacity then some blank else none;
    free_list = slots capacity;
    capacity = capacity;
  }

  -- `*p`.
  unfoldable pub load : Ptr → Cmd (Pool T) T
  load p s = elim (s.storage p) [ none ↦ fault | some x ↦ ok x s ]

  -- `*p = x`.
  unfoldable pub store : Ptr → T → Cmd (Pool T) (Unit {0})
  unfolding write load
  store p x = do load p; (λ s. ok tt (record s { storage = write s.storage p (some x) }))

  unfoldable pub allocate : T → Cmd (Pool T) Ptr
  unfolding write
  allocate x s = elim s.free_list [
    | [] ↦ threw s
    | p ∷ rest ↦ ok p (record s { storage = write s.storage p (some x); free_list = rest })
  ]

  -- The address of a live object, given back.
  unfoldable pub retire : Ptr → Cmd (Pool T) (Unit {0})
  unfolding write
  retire p s = ok tt (record s { storage = write s.storage p none; free_list = p ∷ s.free_list })

  unfoldable pub deallocate : Ptr → Cmd (Pool T) (Unit {0})
  unfolding load retire
  deallocate p = if p == null then pure tt else do load p; retire p

  unfoldable pub available : Pool T → ℕ
  available s = length s.free_list

  unfoldable pub get_capacity : Pool T → ℕ
  get_capacity s = s.capacity

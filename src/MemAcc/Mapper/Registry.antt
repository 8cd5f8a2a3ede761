-- ===== src/MemAcc/Mapper/Registry.antt =====
-- The mapper under every sequence of its operations.
use coresight.Prelude.{
  ℕ, ◌≡◌, ◌≢◌, refl, sym, arith, true, Option, none, some, List, [], ◌∷◌, ◌++◌, inl, inr, min, u32,
  length,
}
use coresight.Prelude.Bits.{bit_and_self}
use mathlib.Core.Path.{subst}
use coresight.MemAcc.{Accessor, addr_in_range}
use coresight.MemAcc.Mapper.{
  GlobalMapper, new_global_mapper, add_accessor, remove_all_accessors, find_accessor, read,
  read_found,
}
use coresight.MemAcc.Mapper.Overlap.{IsIn, IsRegistry, add_accessor-IsRegistry}
use coresight.MemAcc.Mapper.Lookup.{find_accessor-IsRegistry, find_accessor-exact}

pub data MapperOp : Type 0 where
  add : Option Accessor → MapperOp
  find : ℕ → ℕ → MapperOp
  read_at : ℕ → ℕ → ℕ → ℕ → List ℕ → MapperOp
  remove_all : MapperOp

abbrev pub after : MapperOp → GlobalMapper → GlobalMapper
after (add a) m = (add_accessor a m).0
after (find address space) m = (find_accessor address space m).0
after (read_at address trc_id space req_bytes buffer) m =
    (read address trc_id space req_bytes buffer m).0
after remove_all m = remove_all_accessors m

abbrev pub after_all : List MapperOp → GlobalMapper
after_all [] = new_global_mapper
after_all (op ∷ ops) = after op (after_all ops)

read_found-mapper :
    (o : Option Accessor) (address trc_id space count : ℕ) (buffer : List ℕ) (m : GlobalMapper)
    → (read_found o address trc_id space count buffer m).0 ≡ m
unfolding read_found
read_found-mapper none address trc_id space count buffer m = refl
read_found-mapper (some a) address trc_id space count buffer m = refl

after-IsRegistry : (op : MapperOp) (m : GlobalMapper) → IsRegistry m → IsRegistry (after op m)
unfolding remove_all_accessors read
after-IsRegistry (add a) m h = add_accessor-IsRegistry a m h
after-IsRegistry (find address space) m h = find_accessor-IsRegistry address space m h
after-IsRegistry (read_at address trc_id space req_bytes buffer) m h =
    rw
      (read_found-mapper (find_accessor address space m).1 address trc_id space
        (min req_bytes (u32 (length buffer))) buffer (find_accessor address space m).0)
      (find_accessor-IsRegistry address space m h)
after-IsRegistry remove_all m h = ground arith

-- After any sequence of operations on a new mapper no two registered accessors claim one address for
-- one memory space, every range is a whole number of halfwords, the entries describe the
-- accessors, and the cache holds a registered accessor or none.
pub after_all-IsRegistry : (ops : List MapperOp) → IsRegistry (after_all ops)
unfolding new_global_mapper
after_all-IsRegistry [] = ground arith
after_all-IsRegistry (op ∷ ops) = after-IsRegistry op (after_all ops) (after_all-IsRegistry ops)

IsIn-last : (es : List Accessor) (a : Accessor) → IsIn a (es ++ a ∷ [])
IsIn-last [] a = inl refl
IsIn-last (e ∷ es) a = inr (IsIn-last es a)

added :
    (a : Accessor) (m : GlobalMapper)
    → (add_accessor (some a) m).1 ≡ none
    → (add_accessor (some a) m).0.accessors ≡ m.accessors ++ a ∷ []
unfolding add_accessor
added a m ok = ground arith

-- Once an accessor with a memory space is registered in a well-formed mapper without an error, a lookup
-- of any address of its range in exactly its memory spaces finds it, whatever else is registered and
-- whatever the cache held.
pub find_accessor-add_accessor :
    (a : Accessor) (m : GlobalMapper) (address : ℕ)
    → IsRegistry m
    → (add_accessor (some a) m).1 ≡ none
    → addr_in_range a address ≡ true
    → a.mem_space ≢ 0
    → (find_accessor address a.mem_space (add_accessor (some a) m).0).1 ≡ some a
find_accessor-add_accessor a m address h ok range nonzero =
    find_accessor-exact address a.mem_space (add_accessor (some a) m).0 a
      (add_accessor-IsRegistry (some a) m h)
      (subst (λ t. IsIn a t) (sym (added a m ok)) (IsIn-last m.accessors a))
      (ground (arith, bit_and_self a.mem_space)) refl

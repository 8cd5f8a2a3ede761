-- ===== src/MemAcc/Mapper/Lookup.antt =====
-- What a lookup finds, and that the cache does not change it.
use coresight.Prelude.{
  ℕ, ◌≡◌, refl, sym, ap, arith, true, Option, none, some, Bool-cases, inl, inr, bit_and,
}
use coresight.Prelude.Bits.{bit_and_self}
use mathlib.Core.List.{map}
use coresight.MemAcc.{Accessor}
use coresight.MemAcc.Mapper.{
  GlobalMapper, entry_of, holds, scan, choose, look_up, find_cached, find_accessor, cache_hit,
}
use coresight.MemAcc.Mapper.Overlap.{IsIn, CacheOk, IsRegistry}
use coresight.MemAcc.Mapper.Search.{IsAnswer, scan-Found, scan-exact, choose-IsAnswer}

look_up-scan :
    (address space : ℕ) (m : GlobalMapper)
    → IsRegistry m
    → look_up address space m ≡ choose m (scan address space none 33 (map entry_of m.accessors))
unfolding look_up
look_up-scan address space m h = ap (λ t. choose m (scan address space none 33 t)) h.indexed

look_up-IsAnswer :
    (address space : ℕ) (m : GlobalMapper)
    → IsRegistry m
    → IsAnswer address space m.accessors (look_up address space m).1
      × IsRegistry (look_up address space m).0
look_up-IsAnswer address space m h =
    rw (look_up-scan address space m h)
      (choose-IsAnswer address space m _ (scan-Found address space none 33 m.accessors refl) h)

-- A hit of the cache is what the search would find.
look_up_hit :
    (address space : ℕ) (m : GlobalMapper) (a : Accessor)
    → IsRegistry m
    → CacheOk (some a) m
    → cache_hit address space m ≡ true
    → (look_up address space m).1 ≡ some a
unfolding choose
look_up_hit address space m a h (i, c0, c1, c2, c3) hit =
    rw
      (
        look_up-scan address space m h,
        scan-exact address space none 33 a m.accessors i h.disjoint hold (ground arith),
      )
      refl
  where
    hold : holds address space (entry_of a) ≡ true
    hold = ground (arith, bit_and_self a.mem_space, ap (λ (t : ℕ). bit_and a.mem_space t) same)
      where
        same : a.mem_space ≡ space
        same = ground arith

find_cached_lem :
    (o : Option Accessor) (address space : ℕ) (m : GlobalMapper)
    → IsRegistry m
    → CacheOk o m
    → ((find_cached o address space m).1 ≡ (look_up address space m).1)
      × IsRegistry (find_cached o address space m).0
unfolding find_cached
find_cached_lem none address space m h c = (refl, (look_up-IsAnswer address space m h).1)
find_cached_lem (some a) address space m h c = elim (Bool-cases (cache_hit address space m)) [
  | inl hit ↦ rw hit (sym (look_up_hit address space m a h c hit), h)
  | inr miss ↦ rw miss (refl, (look_up-IsAnswer address space m h).1)
]

-- On a well-formed mapper, as every sequence of operations leaves it, the cache never changes the
-- accessor that a lookup finds.
pub find_accessor-look_up :
    (address space : ℕ) (m : GlobalMapper)
    → IsRegistry m
    → (find_accessor address space m).1 ≡ (look_up address space m).1
unfolding find_accessor
find_accessor-look_up address space m h = (find_cached_lem m.last_acc address space m h h.cached).0

pub find_accessor-exact :
    (address space : ℕ) (m : GlobalMapper) (a : Accessor)
    → IsRegistry m
    → IsIn a m.accessors
    → holds address space (entry_of a) ≡ true
    → a.mem_space ≡ space
    → (find_accessor address space m).1 ≡ some a
unfolding choose
find_accessor-exact address space m a h i hold same =
    rw
      (
        find_accessor-look_up address space m h,
        look_up-scan address space m h,
        scan-exact address space none 33 a m.accessors i h.disjoint hold same,
      )
      refl

pub find_accessor-IsRegistry :
    (address space : ℕ) (m : GlobalMapper)
    → IsRegistry m
    → IsRegistry (find_accessor address space m).0
unfolding find_accessor
find_accessor-IsRegistry address space m h =
    (find_cached_lem m.last_acc address space m h h.cached).1

-- On a well-formed mapper a lookup finds a registered accessor that holds the address for one of the
-- spaces asked for, and finds none only when no registered accessor does.
pub find_accessor-IsAnswer :
    (address space : ℕ) (m : GlobalMapper)
    → IsRegistry m
    → IsAnswer address space m.accessors (find_accessor address space m).1
find_accessor-IsAnswer address space m h =
    rw (find_accessor-look_up address space m h) ((look_up-IsAnswer address space m h).0)

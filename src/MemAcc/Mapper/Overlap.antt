-- ===== src/MemAcc/Mapper/Overlap.antt =====
-- The registered accessors never claim one address for one memory space twice.
use coresight.Prelude.{
  ◌%◌, ◌<◌, ◌≡◌, ◌≢◌, refl, ap, arith, false, Option, none, some, Bool-cases, List, [], ◌∷◌, ◌++◌,
  All, ◌⊎◌, inl, inr,
}
use mathlib.Core.List.{map}
use coresight.MemAcc.{Accessor}
use coresight.MemAcc.Mapper.{GlobalMapper, overlaps, overlaps_existing, entry_of, add_accessor}

abbrev pub IsIn : Accessor → List Accessor → Type 0
IsIn a [] = ⊥
IsIn a (b ∷ bs) = (b ≡ a) ⊎ IsIn a bs

-- No accessor overlaps an earlier one.
abbrev pub Disjoint : List Accessor → Type 0
Disjoint [] = Unit
Disjoint (a ∷ es) = All (λ b. overlaps b a ≡ false) es × Disjoint es

abbrev pub ValidRange : Accessor → Type 0
ValidRange a = (a.range_start < a.range_end) × (a.range_start % 2 ≡ 0) × (a.range_end % 2 ≡ 1)

-- What the cache holds is a registered accessor, with its range and its spaces.
abbrev pub CacheOk : Option Accessor → GlobalMapper → Type 0
CacheOk none m = Unit
CacheOk (some a) m =
    IsIn a m.accessors
    × (m.last_start ≡ a.range_start)
    × (m.last_end ≡ a.range_end)
    × (m.last_space ≡ a.mem_space)
    × (a.mem_space ≢ 0)

pub record IsRegistry (m : GlobalMapper) : Type 0 where
  pub disjoint : Disjoint m.accessors
  pub ranges : All ValidRange m.accessors
  pub indexed : m.entries ≡ map entry_of m.accessors
  pub cached : CacheOk m.last_acc m

All-snoc :
    (P : Accessor → Type 0) (xs : List Accessor) (x : Accessor)
    → All P xs
    → P x
    → All P (xs ++ x ∷ [])
All-snoc P [] x h p = (p, tt)
All-snoc P (y ∷ ys) x (hy, h) p = (hy, All-snoc P ys x h p)

map-snoc :
    (xs : List Accessor) (x : Accessor)
    → map entry_of (xs ++ x ∷ []) ≡ map entry_of xs ++ entry_of x ∷ []
map-snoc [] x = refl
map-snoc (y ∷ ys) x = ap (λ t. entry_of y ∷ t) (map-snoc ys x)

overlaps_existing-All :
    (a : Accessor) (bs : List Accessor)
    → overlaps_existing a bs ≡ false
    → All (λ b. overlaps a b ≡ false) bs
unfolding overlaps_existing
overlaps_existing-All a [] h = tt
overlaps_existing-All a (b ∷ bs) h = ground (arith, overlaps_existing-All a bs)

Disjoint-snoc :
    (es : List Accessor) (a : Accessor)
    → Disjoint es
    → All (λ b. overlaps a b ≡ false) es
    → Disjoint (es ++ a ∷ [])
Disjoint-snoc [] a d h = (tt, tt)
Disjoint-snoc (b ∷ bs) a (hb, d) (h, hs) = (All-snoc _ bs a hb h, Disjoint-snoc bs a d hs)

pub add_accessor-IsRegistry :
    (a : Option Accessor) (m : GlobalMapper) → IsRegistry m → IsRegistry (add_accessor a m).0
unfolding add_accessor
add_accessor-IsRegistry none m h = h
add_accessor-IsRegistry (some a) m h = elim (Bool-cases (overlaps_existing a m.accessors)) [
  | inl clash ↦ ground arith
  | inr clear ↦ ground (
    arith,
    map-snoc m.accessors a,
    Disjoint-snoc m.accessors a h.disjoint (overlaps_existing-All a m.accessors clear),
    All-snoc ValidRange m.accessors a h.ranges,
  )
]

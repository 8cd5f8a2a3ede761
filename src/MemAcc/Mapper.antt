-- ===== src/MemAcc/Mapper.antt =====
-- memacc_mapper.go: the registry of accessors, with a cache of the accessor last used.
pub mod Overlap
pub mod Search
pub mod Lookup
pub mod Registry
mod Examples
use coresight.Prelude.{
  ℕ, zero, suc, ◌+◌, ◌-◌, ◌/◌, ◌%◌, Bool, true, false, not, ◌&&◌, ◌||◌, Option, none, some, List,
  [], ◌∷◌, ◌++◌, length, min, u32, bit_and, ltb, leb, ◌==◌, ◌/=◌, if◌then◌else◌, ◌⊎◌, inl, inr,
}
use coresight.Errors.{
  Error, invalid_param_val, mem_acc_range_invalid, mem_acc_overlap, mem_acc_bad_len, no_accessor,
}
use coresight.MemAcc.{Accessor}

-- bits.OnesCount32, the number of ones among the lowest `w` digits for `w` = 32.
abbrev pub ones_count : ℕ → ℕ → ℕ
ones_count zero x = 0
ones_count (suc w) x = x % 2 + ones_count w (x / 2)

unfoldable pub mem_space_specificity : ℕ → ℕ
mem_space_specificity space = ones_count 32 (u32 space)

abbrev pub max_mem_space_specificity : ℕ
max_mem_space_specificity = 32

pub record AccessorEntry : Type 0 where
  pub acc : Accessor
  pub start : ℕ
  pub last : ℕ
  pub mem_space : ℕ
  pub score : ℕ

pub record GlobalMapper : Type 0 where
  pub accessors : List Accessor
  pub entries : List AccessorEntry
  pub last_acc : Option Accessor
  pub last_start : ℕ
  pub last_end : ℕ
  pub last_space : ℕ

unfoldable pub new_global_mapper : GlobalMapper
new_global_mapper = record {
  accessors = [];
  entries = [];
  last_acc = none;
  last_start = 0;
  last_end = 0;
  last_space = 0;
}

-- The test of the loop of `overlapsExisting`.
abbrev pub overlaps : Accessor → Accessor → Bool
overlaps a b =
    leb a.range_start b.range_end
    && leb b.range_start a.range_end
    && not (bit_and a.mem_space b.mem_space == 0)

unfoldable pub overlaps_existing : Accessor → List Accessor → Bool
overlaps_existing a [] = false
overlaps_existing a (b ∷ bs) = let rest = overlaps_existing a bs in overlaps a b || rest

abbrev pub entry_of : Accessor → AccessorEntry
entry_of a = record {
  acc = a;
  start = a.range_start;
  last = a.range_end;
  mem_space = a.mem_space;
  score = mem_space_specificity a.mem_space;
}

-- AddAccessor; `none` is the nil accessor.
unfoldable pub add_accessor : Option Accessor → GlobalMapper → GlobalMapper × Option Error
add_accessor none m = (m, some invalid_param_val)
add_accessor (some a) m =
    if leb a.range_end a.range_start || a.range_start % 2 /= 0 || (a.range_end + 1) % 2 /= 0
    then (m, some mem_acc_range_invalid)
    else if overlaps_existing a m.accessors
    then (m, some mem_acc_overlap)
    else (
      record m {
        accessors = m.accessors ++ a ∷ [];
        entries = m.entries ++ entry_of a ∷ [];
        last_acc = none;
      },
      none,
    )

unfoldable pub remove_all_accessors : GlobalMapper → GlobalMapper
remove_all_accessors m = record m { accessors = []; entries = []; last_acc = none }

-- An entry that holds the address, for one of the spaces at least.
abbrev pub holds : ℕ → ℕ → AccessorEntry → Bool
holds address space e =
    leb e.start address && leb address e.last && not (bit_and e.mem_space space == 0)

-- The loop of `findAccessor`: the entry of exactly this space that ends it, or the best of the rest.
unfoldable pub scan :
    ℕ → ℕ → Option Accessor → ℕ → List AccessorEntry → AccessorEntry ⊎ Option Accessor
scan address space best score [] = inr best
scan address space best score (e ∷ es) =
    let better = holds address space e && ltb e.score score in
    let rest =
      scan address space (if better then some e.acc else best) (if better then e.score else score)
        es in
    if holds address space e && e.mem_space == space then inl e else rest

-- The end of `findAccessor`: what the cache holds from now on, and the accessor.
unfoldable pub choose :
    GlobalMapper → AccessorEntry ⊎ Option Accessor → GlobalMapper × Option Accessor
choose m (inl e) = (
  record m {
    last_acc = some e.acc;
    last_start = e.start;
    last_end = e.last;
    last_space = e.mem_space;
  },
  some e.acc,
)
choose m (inr (some a)) = (
  record m {
    last_acc = some a;
    last_start = a.range_start;
    last_end = a.range_end;
    last_space = a.mem_space;
  },
  some a,
)
choose m (inr none) = (record m { last_acc = none }, none)

abbrev pub cache_hit : ℕ → ℕ → GlobalMapper → Bool
cache_hit address space m =
    m.last_space == space && leb m.last_start address && leb address m.last_end

-- findAccessor past the cache.
unfoldable pub look_up : ℕ → ℕ → GlobalMapper → GlobalMapper × Option Accessor
unfolding choose scan
look_up address space m =
    choose m (scan address space none (max_mem_space_specificity + 1) m.entries)

-- The answer of the cache, or of the search when there is none.
unfoldable pub find_cached : Option Accessor → ℕ → ℕ → GlobalMapper → GlobalMapper × Option Accessor
unfolding look_up
find_cached none address space m = look_up address space m
find_cached (some a) address space m =
    if cache_hit address space m then (m, some a) else look_up address space m

unfoldable pub find_accessor : ℕ → ℕ → GlobalMapper → GlobalMapper × Option Accessor
unfolding find_cached
find_accessor address space m = find_cached m.last_acc address space m

-- What Read returns: the mapper, the buffer, the number of bytes and the error.
unfoldable pub read_found :
    Option Accessor
    → ℕ
    → ℕ
    → ℕ
    → ℕ
    → List ℕ
    → GlobalMapper
    → GlobalMapper × List ℕ × ℕ × Option Error
read_found none address trc_id space count buffer m = (m, buffer, 0, some no_accessor)
read_found (some a) address trc_id space count buffer m =
    let (n, filled) = a.read_bytes address space trc_id count buffer in
    (m, filled, n, if ltb count n then some mem_acc_bad_len else none)

unfoldable pub read :
    ℕ → ℕ → ℕ → ℕ → List ℕ → GlobalMapper → GlobalMapper × List ℕ × ℕ × Option Error
unfolding read_found find_accessor
read address trc_id space req_bytes buffer m =
    let (m', found) = find_accessor address space m in
    read_found found address trc_id space (min req_bytes (u32 (length buffer))) buffer m'

-- ===== src/MemAcc/Mapper/Examples.antt =====
-- The theorems on the mapper at a registry of two blocks.
use coresight.Prelude.{◌≡◌, refl, arith, some, List, [], ◌∷◌, replicate}
use coresight.MemAcc.{Accessor}
use coresight.MemAcc.Spaces.{el1n, any_space}
use coresight.MemAcc.Accessors.{new_buffer_accessor}
use coresight.MemAcc.Mapper.{
  GlobalMapper, add_accessor, find_accessor, look_up, overlaps_existing, new_global_mapper,
}
use coresight.MemAcc.Mapper.Overlap.{IsRegistry}
use coresight.MemAcc.Mapper.Search.{IsAnswer}
use coresight.MemAcc.Mapper.Lookup.{find_accessor-look_up, find_accessor-IsAnswer}
use coresight.MemAcc.Mapper.Registry.{
  MapperOp, add, find, after_all, after_all-IsRegistry, find_accessor-add_accessor,
}

abbrev low : Accessor
low = new_buffer_accessor 0x8000 (replicate 8 0xaa) el1n

abbrev high : Accessor
high = new_buffer_accessor 0x9000 (replicate 4 0xbb) any_space

abbrev history : List MapperOp
history = find 0x8004 el1n ∷ add (some low) ∷ []

after_all-IsRegistry_example : IsRegistry (after_all history)
after_all-IsRegistry_example = after_all-IsRegistry history

abbrev registry : GlobalMapper
registry = after_all history

find_accessor-look_up_example :
    (find_accessor 0x8006 el1n registry).1 ≡ (look_up 0x8006 el1n registry).1
find_accessor-look_up_example =
    find_accessor-look_up 0x8006 el1n registry (after_all-IsRegistry history)

find_accessor-IsAnswer_example :
    IsAnswer 0x8006 el1n registry.accessors (find_accessor 0x8006 el1n registry).1
find_accessor-IsAnswer_example =
    find_accessor-IsAnswer 0x8006 el1n registry (after_all-IsRegistry history)

find_accessor-add_accessor_example :
    (find_accessor 0x9002 any_space (add_accessor (some high) registry).0).1 ≡ some high
unfolding add_accessor new_buffer_accessor overlaps_existing find_accessor new_global_mapper
find_accessor-add_accessor_example =
    find_accessor-add_accessor high registry 0x9002 (after_all-IsRegistry history) refl refl
      (omega arith)

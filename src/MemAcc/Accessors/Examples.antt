-- ===== src/MemAcc/Accessors/Examples.antt =====
-- A read of the end of a concrete block.
use coresight.Prelude.{◌≡◌, ◌+◌, ◌-◌, ◌++◌, arith, ℕ, List, [], ◌∷◌, take, drop, min}
use coresight.MemAcc.Accessors.{new_buffer_accessor}
use coresight.MemAcc.Accessors.Reads.{new_buffer_accessor-read_bytes}

abbrev content : List ℕ
content = 1 ∷ 2 ∷ 3 ∷ 4 ∷ []

abbrev buffer : List ℕ
buffer = 0 ∷ 0 ∷ 0 ∷ 9 ∷ []

new_buffer_accessor-read_bytes_example :
    let n = min (min (4 - 2) 3) 4 in
    (new_buffer_accessor 0x8000 content 1).read_bytes (0x8000 + 2) 1 0x10 3 buffer
    ≡ (n, take n (drop 2 content) ++ drop n buffer)
new_buffer_accessor-read_bytes_example =
    new_buffer_accessor-read_bytes 0x8000 2 3 1 1 0x10 content buffer (omega arith) (omega arith)
      (omega arith) (omega arith)

-- ===== src/MemAcc.antt =====
-- memacc_base.go: the interface of a memory accessor. The modules below are the accessors, and the
-- mapper that chooses one of them for a read.
pub mod Spaces
pub mod Accessors
pub mod Mapper
use coresight.Prelude.{ℕ, Bool, List, leb, ◌&&◌}

-- The interface Accessor: what its methods return. `read_bytes` takes the address, the memory space,
-- the trace id, the number of bytes and the buffer, and returns the number of bytes and the buffer
-- that it leaves. An accessor is a value here: nothing changes its range after it is registered.
pub record Accessor : Type 0 where
  pub range_start : ℕ
  pub range_end : ℕ
  pub mem_space : ℕ
  pub read_bytes : ℕ → ℕ → ℕ → ℕ → List ℕ → ℕ × List ℕ

-- AddrInRange of baseAccessor, which every accessor embeds.
abbrev pub addr_in_range : Accessor → ℕ → Bool
addr_in_range a address = leb a.range_start address && leb address a.range_end

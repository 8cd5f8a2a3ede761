-- ===== src/MemAcc/Accessors.antt =====
-- memacc_buffer.go, memacc_readerat.go and memacc_callback.go: the three kinds of accessor.
pub mod Reads
mod Examples
use coresight.Prelude.{
  ℕ, ◌+◌, ◌-◌, ◌*◌, ◌^◌, ◌≡◌, Bool, true, false, not, ◌&&◌, Option, none, some, List, [], ◌∷◌, ◌++◌,
  length, take, drop, min, u32, u64, leb, ◌==◌, if◌then◌else◌,
}
use coresight.MemAcc.{Accessor}

-- endAddress, which newReaderAtAccessor has too.
abbrev pub end_address : ℕ → ℕ → ℕ
end_address start size = if size == 0 then start else u64 (u64 (start + size) + 2 ^ 64 - 1)

-- `copy(buffer, bytes)`.
abbrev pub copy : List ℕ → List ℕ → List ℕ
copy buffer bytes = take (length buffer) bytes ++ drop (length bytes) buffer

-- The number of bytes of a read that starts at an address in the range.
abbrev pub clamp : ℕ → ℕ → ℕ → List ℕ → ℕ
clamp last address req_bytes buffer =
    min (min (u32 (u64 (last + 2 ^ 64 - address) + 1)) req_bytes) (u32 (length buffer))

-- NewBufferAccessor and its ReadBytes. The slice `b.Buffer[offset : offset+n]` is in bounds when the
-- block does not pass the end of the address space.
unfoldable pub new_buffer_accessor : ℕ → List ℕ → ℕ → Accessor
new_buffer_accessor start content space = record {
  range_start = start;
  range_end = end_address start (length content);
  mem_space = space;
  read_bytes = λ address _ _ req_bytes buffer.
      let n = clamp (end_address start (length content)) address req_bytes buffer in
      if leb start address && leb address (end_address start (length content)) && not (n == 0)
      then (n, copy buffer (take n (drop (address - start) content)))
      else (0, buffer);
}

-- What a call of `ReadAt` of an io.ReaderAt returns: the bytes read and whether there was an error
-- other than io.EOF.
pub record ReadAt : Type 0 where
  pub bytes : List ℕ
  pub failed : Bool

-- newReaderAtAccessor and its ReadBytes, on any source: `read_at count offset`.
unfoldable pub new_reader_at_accessor : ℕ → ℕ → (ℕ → ℕ → ReadAt) → ℕ → Accessor
new_reader_at_accessor start size read_at space = record {
  range_start = start;
  range_end = end_address start size;
  mem_space = space;
  read_bytes = λ address _ _ req_bytes buffer.
      let n = clamp (end_address start size) address req_bytes buffer in
      let got = read_at n (address - start) in
      if leb start address && leb address (end_address start size) && not (n == 0)
      then (
        if got.failed && length got.bytes == 0 then 0 else u32 (length got.bytes),
        copy buffer got.bytes,
      )
      else (0, buffer);
}

abbrev pub MemoryCallback : Type 0
MemoryCallback = ℕ → ℕ → ℕ → ℕ → List ℕ → ℕ × List ℕ

pub record CallbackAccessor : Type 0 where
  pub start_address : ℕ
  pub end_address : ℕ
  pub mem_space_acc : ℕ
  pub callback : Option MemoryCallback
  pub trace_id_callback : Option MemoryCallback

unfoldable pub new_callback_accessor : ℕ → ℕ → ℕ → CallbackAccessor
new_callback_accessor start last space = record {
  start_address = start;
  end_address = last;
  mem_space_acc = space;
  callback = none;
  trace_id_callback = none;
}

unfoldable pub set_callback : MemoryCallback → CallbackAccessor → CallbackAccessor
set_callback fn c = record c { callback = some fn; trace_id_callback = none }

unfoldable pub set_trace_id_callback : MemoryCallback → CallbackAccessor → CallbackAccessor
set_trace_id_callback fn c = record c { trace_id_callback = some fn; callback = none }

unfoldable pub callback_read : CallbackAccessor → MemoryCallback
callback_read c address space trc_id req_bytes buffer = elim (c.trace_id_callback) [
  | some fn ↦ fn address space trc_id req_bytes buffer
  | none ↦ elim (c.callback) [
    | some fn ↦ fn address space trc_id req_bytes buffer
    | none ↦ (0, buffer)
  ]
]

-- The accessor that a mapper sees of a callback accessor.
unfoldable pub callback_accessor : CallbackAccessor → Accessor
callback_accessor c = record {
  range_start = c.start_address;
  range_end = c.end_address;
  mem_space = c.mem_space_acc;
  read_bytes = callback_read c;
}

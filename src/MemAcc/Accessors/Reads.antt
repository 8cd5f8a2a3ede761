-- ===== src/MemAcc/Accessors/Reads.antt =====
-- What a read through an accessor on a block of bytes gives.
use coresight.Prelude.{
  ℕ, ◌+◌, ◌-◌, ◌^◌, ◌≤◌, ◌<◌, ◌≡◌, refl, arith, List, ◌++◌, length, take, drop, min, u32, ◌==◌,
  Bool-cases, inl, inr, length-take, length-drop, take_past, u64,
}
use coresight.MemAcc.Accessors.{new_buffer_accessor, end_address, clamp, copy}

end_address_lem :
    (start size : ℕ) → start + size ≤ 2 ^ 64 → 0 < size → end_address start size ≡ start + size - 1
end_address_lem start size h p = ground arith

clamp_lem :
    (start size k req_bytes : ℕ) (buffer : List ℕ)
    → start + size ≤ 2 ^ 64
    → size < 2 ^ 32
    → length buffer < 2 ^ 32
    → k < size
    → clamp (start + size - 1) (start + k) req_bytes buffer
      ≡ min (min (size - k) req_bytes) (length buffer)
clamp_lem start size k req_bytes buffer h1 h2 h3 h4 =
    let avail : u32 (u64 (start + size - 1 + 2 ^ 64 - (start + k)) + 1) ≡ size - k = omega arith in
    let room : u32 (length buffer) ≡ length buffer = omega arith in rw (avail, room) refl

-- A copy of bytes that fit the buffer.
copy_lem :
    (buffer content : List ℕ) (n : ℕ)
    → n ≤ length buffer
    → n ≤ length content
    → copy buffer (take n content) ≡ take n content ++ drop n buffer
copy_lem buffer content n h1 h2 =
    let size : length (take n content) ≡ n = omega (arith, length-take n content) in
    rw (size, take_past (length buffer) (take n content) (omega arith)) refl

-- A read at offset `k` of a block that fits the address space and has less than 2^32 bytes, into a buffer of
-- less than 2^32 bytes, copies as many bytes as the block has from there on, the read asks for and the
-- buffer holds: it returns their number, and leaves the rest of the buffer as it was.
pub new_buffer_accessor-read_bytes :
    (start k req_bytes space reader_space trc_id : ℕ) (content buffer : List ℕ)
    → start + length content ≤ 2 ^ 64
    → length content < 2 ^ 32
    → length buffer < 2 ^ 32
    → k < length content
    → let n = min (min (length content - k) req_bytes) (length buffer) in
      (new_buffer_accessor start content space).read_bytes
        (start + k)
        reader_space
        trc_id
        req_bytes
        buffer
      ≡ (n, take n (drop k content) ++ drop n buffer)
unfolding new_buffer_accessor
new_buffer_accessor-read_bytes start k req_bytes space reader_space trc_id content buffer h1 h2 h3
      h4 =
    let offset : start + k - start ≡ k = omega arith in
    let full = clamp_lem start (length content) k req_bytes buffer h1 h2 h3 h4 in
    rw (end_address_lem start (length content) h1 (omega arith), full, offset)
      (elim (Bool-cases (n == 0)) [
        | inl none_read ↦ ground arith
        | inr some_read ↦
            rw
              (copy_lem buffer (drop k content) n (omega arith)
                (omega (arith, length-drop k content)))
              (ground arith)
      ])
  where
    n : ℕ
    n = min (min (length content - k) req_bytes) (length buffer)

-- ===== src/ByteReader.antt =====
-- byte_reader.go: the reader of a data block, with the bytes of the packet so far in a scratch
-- buffer of 64 bytes and, beyond that, in a slice.
-- A Go slice is its backing array and its length; the capacity is the length of the array. A
-- slice expression beyond the capacity panics; the module Refines shows that none occurs.
pub mod Slices
pub mod Content
pub mod Steps
pub mod Refines
pub mod Runs
pub mod Discard
mod Examples
use coresight.Prelude.{
  ℕ, zero, suc, ◌+◌, ◌-◌, ◌*◌, Bool, true, false, ◌||◌, List, [], ◌∷◌, ◌++◌, Option, none, some,
  ltb, leb, ◌==◌, if◌then◌else◌, length, get_elem?, set, take, drop, replicate, get_or,
}

pub record Slice : Type 0 where
  pub backing : List ℕ
  pub len : ℕ

-- len(r.scratch)
abbrev pub scratch_cap : ℕ
scratch_cap = 64

-- byteReader. `block` is the field `data`, `ext` the field `scratchExt`.
pub record ByteReader : Type 0 where
  pub block : List ℕ
  pub off : ℕ
  pub scratch : List ℕ
  pub ext : Slice
  pub scratch_len : ℕ

abbrev pub new_byte_reader : ByteReader
new_byte_reader = record {
  block = [];
  off = 0;
  scratch = replicate scratch_cap 0;
  ext = record { backing = []; len = 0 };
  scratch_len = 0;
}

unfoldable pub feed : List ℕ → ByteReader → ByteReader
feed block r = record r { block = block; off = 0 }

-- copy(dst, src) for a source that is not longer than the destination
unfoldable pub copy : List ℕ → List ℕ → List ℕ
copy dst src = src ++ drop (length src) dst

-- Scratch
unfoldable pub scratch_bytes : ByteReader → List ℕ
scratch_bytes r =
    if ltb 0 r.ext.len then take r.scratch_len r.ext.backing else take r.scratch_len r.scratch

unfoldable pub reset : ByteReader → ByteReader
reset r = record r { scratch_len = 0; ext = record { backing = r.ext.backing; len = 0 } }

unfoldable pub discard_ext : ℕ → ByteReader → ByteReader
unfolding copy
discard_ext n r =
    let left = r.scratch_len - n in
    let moved = copy r.ext.backing (take left (drop n r.ext.backing)) in
    record r { scratch_len = left; ext = record { backing = moved; len = left } }

unfoldable pub discard_inner : ℕ → ByteReader → ByteReader
unfolding copy
discard_inner n r =
    let left = r.scratch_len - n in
    record r { scratch = copy r.scratch (take left (drop n r.scratch)); scratch_len = left }

-- DiscardScratchPrefix
unfoldable pub discard_scratch_prefix : ℕ → ByteReader → ByteReader
unfolding reset
discard_scratch_prefix n r =
    if n == 0
    then r
    else if leb r.scratch_len n
    then reset r
    else if ltb 0 r.ext.len
    then discard_ext n r
    else discard_inner n r

-- Len: `off` never passes the end of the block.
unfoldable pub remaining : ByteReader → ℕ
remaining r = length r.block - r.off

unfoldable pub peek : ByteReader → Option ℕ
peek r = get_elem? r.block r.off

unfoldable pub read_byte_raw : ByteReader → ByteReader × Option ℕ
read_byte_raw r = elim (get_elem? r.block r.off) [
  | none ↦ (r, none)
  | some b ↦ (record r { off = suc r.off }, some b)
]

-- UnreadByte; the result tells whether it was a valid use.
unfoldable pub unread_byte : ByteReader → ByteReader × Bool
unread_byte r =
    if r.off == 0 || r.scratch_len == 0
    then (r, false)
    else let left = r.scratch_len - 1 in
      let cut =
        if ltb left r.ext.len then record { backing = r.ext.backing; len = left } else r.ext in
      (record r { off = r.off - 1; scratch_len = left; ext = cut }, true)

-- make([]byte, len(r.scratch)*2)
unfoldable pub fresh_backing : List ℕ
fresh_backing = replicate (scratch_cap * 2) 0

-- The extension that a byte beyond the scratch buffer is appended to: the one at hand, filled from
-- the scratch buffer when the length is just 64, or a new one.
unfoldable pub base_ext : ByteReader → Slice
unfolding copy fresh_backing
base_ext r =
    if ltb 0 (length r.ext.backing)
    then if r.scratch_len == scratch_cap
      then record { backing = copy r.ext.backing r.scratch; len = scratch_cap }
      else r.ext
    else record { backing = copy fresh_backing r.scratch; len = scratch_cap }

-- `growth n` is the spare room that Go's `append` leaves behind n elements that it had to move.
module _ (growth : ℕ → ℕ) where
  unfoldable pub append : Slice → ℕ → Slice
  append s b =
      if ltb s.len (length s.backing)
      then record { backing = set s.backing s.len b; len = suc s.len }
      else record {
        backing = take s.len s.backing ++ b ∷ replicate (growth (suc s.len)) 0;
        len = suc s.len;
      }

  unfoldable pub append_scratch : ℕ → ByteReader → ByteReader
  unfolding append base_ext
  append_scratch b r =
      if ltb r.scratch_len scratch_cap
      then record r { scratch = set r.scratch r.scratch_len b; scratch_len = suc r.scratch_len }
      else record r { ext = append (base_ext r) b; scratch_len = suc r.scratch_len }

  unfoldable pub write_scratch : ℕ → ByteReader → ByteReader
  write_scratch b r = append_scratch b r

  unfoldable pub read_byte : ByteReader → ByteReader × Option ℕ
  read_byte r = elim (get_elem? r.block r.off) [
    | none ↦ (r, none)
    | some b ↦ (append_scratch b (record r { off = suc r.off }), some b)
  ]

  -- the loop of ReadBytes
  unfoldable pub take_in : ℕ → ByteReader → ByteReader
  take_in zero r = r
  take_in (suc n) r =
      let next = append_scratch (get_or r.block r.off 0) r in
      take_in n (record next { off = suc next.off })

  -- ReadBytes: none where the code returns nil
  unfoldable pub read_bytes : ℕ → ByteReader → ByteReader × Option (List ℕ)
  unfolding take_in scratch_bytes
  read_bytes n r =
      if ltb (length r.block) (r.off + n)
      then (r, none)
      else let r' = take_in n r in (r', some (drop r.scratch_len (scratch_bytes r')))

-- ===== src/Stm/Nibbles.antt =====
-- stm_parser.go: reading the trace block nibble by nibble, and the watch for the ASYNC pattern.
pub mod Stream
pub mod Frame
pub mod Took
pub mod Sync
mod Examples
use coresight.Prelude.{
  ℕ, suc, ◌+◌, ◌-◌, ◌/◌, ◌^◌, Bool, true, false, not, ◌&&◌, List, [], ◌∷◌, ◌++◌, Option, none, some,
  get_elem?, get_or, bit_and, shr, u8, u64, ltb, leb, ◌==◌, if◌then◌else◌,
}
use coresight.Stm.State.{StmParseContext}

unfoldable pub clear_sync_count : StmParseContext → StmParseContext
clear_sync_count c = record c {
  is_sync = false;
  sync_start = false;
  sync_high = false;
  sync_low0 = false;
  num_f_nibs = 0;
}

-- The first F nibble of a run records where it stands. `Index(off-1)` wraps if `off` is 0.
unfoldable pub note_sync_start : StmParseContext → StmParseContext
note_sync_start c = record c {
  sync_index = u64 (c.block_base + (c.offset + 2 ^ 64 - 1));
  sync_high = c.nibble_high;
  sync_low0 =
      c.nibble_high && ltb 0 c.offset && bit_and (get_or c.block (c.offset - 1) 0) 0x0f == 0;
}

unfoldable pub check_sync_nibble : StmParseContext → StmParseContext
unfolding note_sync_start clear_sync_count
check_sync_nibble c =
    let started = if not c.sync_start then note_sync_start c else c in
    if c.nibble == 0xf
    then record started { sync_start = true; num_f_nibs = u8 (c.num_f_nibs + 1) }
    else if c.sync_start && leb 21 c.num_f_nibs && c.nibble == 0
    then record c { is_sync = true; num_f_nibs = 21 }
    else clear_sync_count c

unfoldable pub save_packet_byte : ℕ → StmParseContext → StmParseContext
save_packet_byte b c = record c { packet_data = c.packet_data ++ b ∷ [] }

unfoldable pub take_held : StmParseContext → StmParseContext
take_held c = record c {
  nibble = c.nibble_second;
  nibble_second_valid = false;
  nibble_high = true;
  num_nibbles = u8 (c.num_nibbles + 1);
}

unfoldable pub take_fresh : ℕ → StmParseContext → StmParseContext
unfolding save_packet_byte
take_fresh b c =
    let s = save_packet_byte b (record c { offset = suc c.offset }) in
    record s {
      nibble_second = bit_and (shr b 4) 0xf;
      nibble_second_valid = true;
      nibble = bit_and b 0xf;
      nibble_high = false;
      num_nibbles = u8 (s.num_nibbles + 1);
    }

-- readNibble: the second half of a byte that was begun, or else the first half of the next byte.
unfoldable pub read_nibble : StmParseContext → StmParseContext × Bool
unfolding take_held take_fresh
read_nibble c =
    if c.nibble_second_valid
    then (check_sync_nibble (take_held c), true)
    else elim (get_elem? c.block c.offset) [
      | none ↦ (c, false)
      | some b ↦ (check_sync_nibble (take_fresh b c), true)
    ]

-- ===== src/Stm/Nibbles/Frame.antt =====
-- What reading a nibble leaves alone: everything of the context but the input, the nibble, the
-- count, the packet's bytes and the watch for ASYNC.
use coresight.Prelude.{◌+◌, ◌≡◌, arith, Option-cases, inl, inr, get_elem?, u8, true}
use coresight.Stm.State.{StmParseContext}
use coresight.Stm.Nibbles.{read_nibble, take_held, take_fresh, check_sync_nibble}

pub record Frame (c d : StmParseContext) : Type 0 where
  pub same_state : d.process_state ≡ c.process_state
  pub same_block : d.block ≡ c.block
  pub same_packet : d.curr_packet ≡ c.curr_packet
  pub same_data : d.num_data_nibbles ≡ c.num_data_nibbles
  pub same_stream : d.stream_sync ≡ c.stream_sync
  pub same_fn : d.curr_fn ≡ c.curr_fn
  pub same_needs_ts : d.needs_ts ≡ c.needs_ts
  pub same_marker : d.is_marker ≡ c.is_marker
  pub same_req : d.req_ts_nibbles ≡ c.req_ts_nibbles
  pub same_curr : d.curr_ts_nibbles ≡ c.curr_ts_nibbles
  pub same_update : d.ts_update_value ≡ c.ts_update_value
  pub same_set : d.ts_req_set ≡ c.ts_req_set
  pub same_val8 : d.val8 ≡ c.val8
  pub same_val16 : d.val16 ≡ c.val16
  pub same_val32 : d.val32 ≡ c.val32
  pub same_val64 : d.val64 ≡ c.val64

check_sync_nibble-Frame : (c : StmParseContext) → Frame c (check_sync_nibble c)
unfolding check_sync_nibble
check_sync_nibble-Frame c = ground arith

check_sync_nibble-num : (c : StmParseContext) → (check_sync_nibble c).num_nibbles ≡ c.num_nibbles
unfolding check_sync_nibble
check_sync_nibble-num c = ground arith

pub read_nibble-Frame : (c : StmParseContext) → Frame c (read_nibble c).0
unfolding read_nibble
read_nibble-Frame c = elim (Option-cases (get_elem? c.block c.offset)) [
  | inl e ↦ ground (arith, check_sync_nibble-Frame (take_held c))
  | inr (b, e) ↦
      ground
        (arith, check_sync_nibble-Frame (take_held c), check_sync_nibble-Frame (take_fresh b c))
]

-- A nibble that was read is counted, in a uint8.
pub read_nibble-num :
    (c : StmParseContext)
    → (read_nibble c).1 ≡ true
    → (read_nibble c).0.num_nibbles ≡ u8 (c.num_nibbles + 1)
unfolding read_nibble
read_nibble-num c h = elim (Option-cases (get_elem? c.block c.offset)) [
  | inl e ↦ ground (arith, check_sync_nibble-num (take_held c))
  | inr (b, e) ↦
      ground (arith, check_sync_nibble-num (take_held c), check_sync_nibble-num (take_fresh b c))
]

-- ===== src/Stm/Progress.antt =====
-- What a call of a packet method does to the amount of input: the ground for the end of the loop over
-- a block.
pub mod Loops
pub mod Timestamps
pub mod Data
pub mod Short
pub mod Delegates
pub mod Leaves
pub mod Calls
use coresight.Prelude.{
  ℕ, zero, suc, ◌+◌, ◌≤◌, ◌<◌, ◌≡◌, ◌⊎◌, Bool, true, false, Option, none, some, List, [], ◌∷◌,
  length,
}
use coresight.Stm.State.{
  StmParseContext, PktFn, proc_data, send_pkt, fn_m8, fn_merr, fn_c8, fn_d4, fn_d8, fn_d16, fn_d32,
  fn_d64, fn_gerr, fn_c16, fn_trigger, fn_freq, fn_extract_ts, fn_fext, fn_f0_ext, fn_version,
  fn_async, fn_reserved, fn_reserved_fn, fn_reserved_f0n,
}
use coresight.Stm.Nibbles.Stream.{pending}
use coresight.Stm.Fields.{Outcome}

-- How many nibbles of the block are still to be read.
abbrev pub left : StmParseContext → ℕ
left c = length (pending c)

-- The timestamp of the packet is not begun, or not longer than was asked for.
abbrev pub TsReady : StmParseContext → Type 0
TsReady c =
    (c.ts_req_set ≡ true → (c.curr_ts_nibbles ≤ c.req_ts_nibbles) × (c.req_ts_nibbles < 256))
    × (c.ts_req_set ≡ false → c.curr_ts_nibbles ≡ 0)

-- A packet that will have a timestamp has not begun it.
abbrev pub NoTsYet : StmParseContext → Type 0
NoTsYet c = c.needs_ts ≡ true → (c.ts_req_set ≡ false) × (c.curr_ts_nibbles ≡ 0)

-- `n` nibbles make the packet, and not all of them are read.
abbrev pub Short : ℕ → StmParseContext → Type 0
Short n c = (c.num_nibbles < n) × NoTsYet c

abbrev pub ShortData : StmParseContext → Type 0
ShortData c =
    ((c.num_nibbles ≡ 1) ⊎ ((c.num_nibbles < c.num_data_nibbles) × (c.num_data_nibbles ≤ 18)))
    × NoTsYet c

-- The method may be called again when the next nibbles come. Methods that always complete the packet,
-- or always choose another, are never left in `currFn`.
abbrev pub Resumable : PktFn → StmParseContext → Type 0
Resumable fn_m8 c = Short 3 c
Resumable fn_merr c = Short 3 c
Resumable fn_c8 c = Short 3 c
Resumable fn_d4 c = ShortData c
Resumable fn_d8 c = ShortData c
Resumable fn_d16 c = ShortData c
Resumable fn_d32 c = ShortData c
Resumable fn_d64 c = ShortData c
Resumable fn_gerr c = Short 4 c
Resumable fn_c16 c = Short 6 c
Resumable fn_trigger c = Short 5 c
Resumable fn_freq c = Short 11 c
Resumable fn_extract_ts c = TsReady c
Resumable fn_fext c = (c.num_nibbles ≡ 1) × (c.needs_ts ≡ false)
Resumable fn_f0_ext c = (c.num_nibbles ≡ 2) × (c.needs_ts ≡ false)
Resumable fn_version c = Unit
Resumable fn_async c = Unit
Resumable fn_reserved c = Unit
Resumable fn_reserved_fn c = Unit
Resumable fn_reserved_f0n c = Unit
Resumable _ c = ⊥

abbrev pub ResumableFn : Option PktFn → StmParseContext → Type 0
ResumableFn none c = ⊥
ResumableFn (some f) c = Resumable f c

-- What a call leaves, on every path: the packet is to be sent, or the method can be called again.
-- Without an error the packet is to be sent or input was used, if there was any.
pub record Step (c : StmParseContext) (out : Outcome) : Type 0 where
  pub step_block : out.0.block ≡ c.block
  pub step_stream : out.0.stream_sync ≡ true
  pub step_left : left out.0 ≤ left c
  pub step_next :
      (out.0.process_state ≡ send_pkt)
      ⊎ ((out.0.process_state ≡ proc_data) × ResumableFn out.0.curr_fn out.0)
  pub step_moves :
      out.1 ≡ none → (out.0.process_state ≡ send_pkt) ⊎ ((left c ≡ 0) ⊎ (left out.0 < left c))

-- The context in which methods are called.
pub record InPacket (c : StmParseContext) : Type 0 where
  pub in_data : c.process_state ≡ proc_data
  pub in_stream : c.stream_sync ≡ true

-- ===== src/Stm/Progress/Leaves.antt =====
-- How far the calls get of the methods that call no table.
use coresight.Prelude.{◌≡◌, arith, some}
use coresight.Stm.State.{
  StmParseContext, PktFn, fn_reserved, fn_null, fn_m8, fn_merr, fn_c8, fn_d4, fn_d8, fn_d16, fn_d32,
  fn_d64, fn_d4_mts, fn_d8_mts, fn_d16_mts, fn_d32_mts, fn_d64_mts, fn_flag_ts, fn_fext, fn_f0_ext,
  fn_gerr, fn_c16, fn_d4_ts, fn_d8_ts, fn_d16_ts, fn_d32_ts, fn_d64_ts, fn_d4_m, fn_d8_m, fn_d16_m,
  fn_d32_m, fn_d64_m, fn_flag, fn_async, fn_reserved_fn, fn_version, fn_null_ts, fn_trigger,
  fn_trigger_ts, fn_freq, fn_reserved_f0n, fn_extract_ts,
}
use coresight.Stm.Fields.Registers.{w8, w16, w32, w64}
use coresight.Stm.Dispatch.{call_leaf}
use coresight.Stm.Progress.{NoTsYet, Resumable, Step, InPacket}
use coresight.Stm.Progress.Timestamps.{stm_extract_ts-Step}
use coresight.Stm.Progress.Data.{data-Step, stm_pkt_d4-Step}
use coresight.Stm.Progress.Delegates.{
  d4_mts-Step, d4_ts-Step, d4_m-Step, d8_mts-Step, d8_ts-Step, d8_m-Step, d16_mts-Step, d16_ts-Step,
  d16_m-Step, d32_mts-Step, d32_ts-Step, d32_m-Step, d64_mts-Step, d64_ts-Step, d64_m-Step,
  flag_ts-Step, flag-Step, null_ts-Step, trigger_ts-Step,
}
use coresight.Stm.Progress.Short.{
  stm_pkt_m8-Step, stm_pkt_merr-Step, stm_pkt_c8-Step, stm_pkt_gerr-Step, stm_pkt_c16-Step,
  stm_pkt_freq-Step, stm_pkt_trigger-Step, stm_pkt_version-Step, stm_pkt_null-Step,
  stm_pkt_reserved-Step, stm_pkt_reserved_fn-Step, stm_pkt_reserved_f0n-Step, stm_pkt_async-Step,
}

-- What a method that calls no table may be called in: the headers that choose it, or a rest of its packet.
abbrev pub LeafReady : PktFn → StmParseContext → Type 0
LeafReady fn_null c = NoTsYet c
LeafReady fn_d4_mts c = c.num_nibbles ≡ 1
LeafReady fn_d8_mts c = c.num_nibbles ≡ 1
LeafReady fn_d16_mts c = c.num_nibbles ≡ 1
LeafReady fn_d32_mts c = c.num_nibbles ≡ 1
LeafReady fn_d64_mts c = c.num_nibbles ≡ 1
LeafReady fn_d4_ts c = c.num_nibbles ≡ 2
LeafReady fn_d8_ts c = c.num_nibbles ≡ 2
LeafReady fn_d16_ts c = c.num_nibbles ≡ 2
LeafReady fn_d32_ts c = c.num_nibbles ≡ 2
LeafReady fn_d64_ts c = c.num_nibbles ≡ 2
LeafReady fn_d4_m c = (c.num_nibbles ≡ 2) × NoTsYet c
LeafReady fn_d8_m c = (c.num_nibbles ≡ 2) × NoTsYet c
LeafReady fn_d16_m c = (c.num_nibbles ≡ 2) × NoTsYet c
LeafReady fn_d32_m c = (c.num_nibbles ≡ 2) × NoTsYet c
LeafReady fn_d64_m c = (c.num_nibbles ≡ 2) × NoTsYet c
LeafReady fn_flag_ts c = Unit
LeafReady fn_flag c = Unit
LeafReady fn_null_ts c = Unit
LeafReady fn_trigger_ts c = c.num_nibbles ≡ 3
LeafReady fn_fext c = ⊥
LeafReady fn_f0_ext c = ⊥
LeafReady f c = Resumable f c

pub call_leaf-Step :
    (f : PktFn) (c : StmParseContext)
    → InPacket c
    → c.curr_fn ≡ some f
    → LeafReady f c
    → Step c (call_leaf f c)
unfolding call_leaf
call_leaf-Step fn_reserved c h g r = stm_pkt_reserved-Step c h g
call_leaf-Step fn_null c h g r = stm_pkt_null-Step c h r
call_leaf-Step fn_m8 c h g r = stm_pkt_m8-Step c h g r
call_leaf-Step fn_merr c h g r = stm_pkt_merr-Step c h g r
call_leaf-Step fn_c8 c h g r = stm_pkt_c8-Step c h g r
call_leaf-Step fn_d4 c h g r = stm_pkt_d4-Step c h g r
call_leaf-Step fn_d8 c h g r = data-Step w8 c h g r
call_leaf-Step fn_d16 c h g r = data-Step w16 c h g r
call_leaf-Step fn_d32 c h g r = data-Step w32 c h g r
call_leaf-Step fn_d64 c h g r = data-Step w64 c h g r
call_leaf-Step fn_d4_mts c h g r = d4_mts-Step c h r
call_leaf-Step fn_d8_mts c h g r = d8_mts-Step c h r
call_leaf-Step fn_d16_mts c h g r = d16_mts-Step c h r
call_leaf-Step fn_d32_mts c h g r = d32_mts-Step c h r
call_leaf-Step fn_d64_mts c h g r = d64_mts-Step c h r
call_leaf-Step fn_flag_ts c h g r = flag_ts-Step c h
call_leaf-Step fn_fext c h g r = absurd r
call_leaf-Step fn_f0_ext c h g r = absurd r
call_leaf-Step fn_gerr c h g r = stm_pkt_gerr-Step c h g r
call_leaf-Step fn_c16 c h g r = stm_pkt_c16-Step c h g r
call_leaf-Step fn_d4_ts c h g r = d4_ts-Step c h r
call_leaf-Step fn_d8_ts c h g r = d8_ts-Step c h r
call_leaf-Step fn_d16_ts c h g r = d16_ts-Step c h r
call_leaf-Step fn_d32_ts c h g r = d32_ts-Step c h r
call_leaf-Step fn_d64_ts c h g r = d64_ts-Step c h r
call_leaf-Step fn_d4_m c h g r = d4_m-Step c h r.0 r.1
call_leaf-Step fn_d8_m c h g r = d8_m-Step c h r.0 r.1
call_leaf-Step fn_d16_m c h g r = d16_m-Step c h r.0 r.1
call_leaf-Step fn_d32_m c h g r = d32_m-Step c h r.0 r.1
call_leaf-Step fn_d64_m c h g r = d64_m-Step c h r.0 r.1
call_leaf-Step fn_flag c h g r = flag-Step c h
call_leaf-Step fn_async c h g r = stm_pkt_async-Step c h g
call_leaf-Step fn_reserved_fn c h g r = stm_pkt_reserved_fn-Step c h g
call_leaf-Step fn_version c h g r = stm_pkt_version-Step c h g
call_leaf-Step fn_null_ts c h g r = null_ts-Step c h
call_leaf-Step fn_trigger c h g r = stm_pkt_trigger-Step c h g r
call_leaf-Step fn_trigger_ts c h g r = trigger_ts-Step c h r
call_leaf-Step fn_freq c h g r = stm_pkt_freq-Step c h g r
call_leaf-Step fn_reserved_f0n c h g r = stm_pkt_reserved_f0n-Step c h g
call_leaf-Step fn_extract_ts c h g r = stm_extract_ts-Step c (ground arith) r

-- ===== src/Stm/Dispatch.antt =====
-- stm_parser.go: the tables op1, op2 and op3, which choose a packet method by a header nibble, and the
-- call of the method that `currFn` holds. A header of two or three nibbles calls through the next table.
use coresight.Prelude.{ℕ, none, [], ◌∷◌, get_or, if◌then◌else◌}
use coresight.Stm.Nibbles.{read_nibble}
use coresight.Stm.Fields.{Outcome, set_fn, stm_extract_ts}
use coresight.Stm.State.{
  StmParseContext, PktFn, fn_reserved, fn_null, fn_m8, fn_merr, fn_c8, fn_d4, fn_d8, fn_d16, fn_d32,
  fn_d64, fn_d4_mts, fn_d8_mts, fn_d16_mts, fn_d32_mts, fn_d64_mts, fn_flag_ts, fn_fext, fn_f0_ext,
  fn_gerr, fn_c16, fn_d4_ts, fn_d8_ts, fn_d16_ts, fn_d32_ts, fn_d64_ts, fn_d4_m, fn_d8_m, fn_d16_m,
  fn_d32_m, fn_d64_m, fn_flag, fn_async, fn_reserved_fn, fn_version, fn_null_ts, fn_trigger,
  fn_trigger_ts, fn_freq, fn_reserved_f0n, fn_extract_ts,
}
use coresight.Stm.Packets.{
  stm_pkt_reserved, stm_pkt_null, stm_pkt_null_ts, stm_pkt_m8, stm_pkt_merr, stm_pkt_c8, stm_pkt_d4,
  stm_pkt_d8, stm_pkt_d16, stm_pkt_d32, stm_pkt_d64, stm_pkt_d4_mts, stm_pkt_d8_mts,
  stm_pkt_d16_mts, stm_pkt_d32_mts, stm_pkt_d64_mts, stm_pkt_flag_ts,
}
use coresight.Stm.Extended.{
  stm_pkt_gerr, stm_pkt_c16, stm_pkt_d4_ts, stm_pkt_d8_ts, stm_pkt_d16_ts, stm_pkt_d32_ts,
  stm_pkt_d64_ts, stm_pkt_d4_m, stm_pkt_d8_m, stm_pkt_d16_m, stm_pkt_d32_m, stm_pkt_d64_m,
  stm_pkt_flag, stm_pkt_async, stm_pkt_reserved_fn, stm_pkt_version, stm_pkt_trigger,
  stm_pkt_trigger_ts, stm_pkt_freq, stm_pkt_reserved_f0n,
}

-- The method for the first nibble of a header, by its value from 0 on.
unfoldable pub op1 : ℕ → PktFn
op1 n =
    get_or
      (fn_null ∷ fn_m8 ∷ fn_merr ∷ fn_c8 ∷ fn_d8 ∷ fn_d16 ∷ fn_d32 ∷ fn_d64 ∷ fn_d8_mts ∷ fn_d16_mts
        ∷ fn_d32_mts ∷ fn_d64_mts ∷ fn_d4 ∷ fn_d4_mts ∷ fn_flag_ts ∷ fn_fext ∷ [])
      n fn_reserved

-- The method for the nibble after F.
unfoldable pub op2 : ℕ → PktFn
op2 n =
    get_or
      (fn_f0_ext ∷ fn_reserved_fn ∷ fn_gerr ∷ fn_c16 ∷ fn_d8_ts ∷ fn_d16_ts ∷ fn_d32_ts ∷ fn_d64_ts
        ∷ fn_d8_m ∷ fn_d16_m ∷ fn_d32_m ∷ fn_d64_m ∷ fn_d4_ts ∷ fn_d4_m ∷ fn_flag ∷ fn_async ∷ [])
      n fn_reserved_fn

-- The method for the nibble after F0.
unfoldable pub op3 : ℕ → PktFn
op3 n =
    get_or
      (fn_version ∷ fn_null_ts ∷ fn_reserved_f0n ∷ fn_reserved_f0n ∷ fn_reserved_f0n
        ∷ fn_reserved_f0n ∷ fn_trigger ∷ fn_trigger_ts ∷ fn_freq ∷ [])
      n fn_reserved_f0n

-- The methods that call no table. The two that do are below; here they stand for no call.
unfoldable pub call_leaf : PktFn → StmParseContext → Outcome
call_leaf fn_reserved c = stm_pkt_reserved c
call_leaf fn_null c = stm_pkt_null c
call_leaf fn_m8 c = stm_pkt_m8 c
call_leaf fn_merr c = stm_pkt_merr c
call_leaf fn_c8 c = stm_pkt_c8 c
call_leaf fn_d4 c = stm_pkt_d4 c
call_leaf fn_d8 c = stm_pkt_d8 c
call_leaf fn_d16 c = stm_pkt_d16 c
call_leaf fn_d32 c = stm_pkt_d32 c
call_leaf fn_d64 c = stm_pkt_d64 c
call_leaf fn_d4_mts c = stm_pkt_d4_mts c
call_leaf fn_d8_mts c = stm_pkt_d8_mts c
call_leaf fn_d16_mts c = stm_pkt_d16_mts c
call_leaf fn_d32_mts c = stm_pkt_d32_mts c
call_leaf fn_d64_mts c = stm_pkt_d64_mts c
call_leaf fn_flag_ts c = stm_pkt_flag_ts c
call_leaf fn_gerr c = stm_pkt_gerr c
call_leaf fn_c16 c = stm_pkt_c16 c
call_leaf fn_d4_ts c = stm_pkt_d4_ts c
call_leaf fn_d8_ts c = stm_pkt_d8_ts c
call_leaf fn_d16_ts c = stm_pkt_d16_ts c
call_leaf fn_d32_ts c = stm_pkt_d32_ts c
call_leaf fn_d64_ts c = stm_pkt_d64_ts c
call_leaf fn_d4_m c = stm_pkt_d4_m c
call_leaf fn_d8_m c = stm_pkt_d8_m c
call_leaf fn_d16_m c = stm_pkt_d16_m c
call_leaf fn_d32_m c = stm_pkt_d32_m c
call_leaf fn_d64_m c = stm_pkt_d64_m c
call_leaf fn_flag c = stm_pkt_flag c
call_leaf fn_async c = stm_pkt_async c
call_leaf fn_reserved_fn c = stm_pkt_reserved_fn c
call_leaf fn_version c = stm_pkt_version c
call_leaf fn_null_ts c = stm_pkt_null_ts c
call_leaf fn_trigger c = stm_pkt_trigger c
call_leaf fn_trigger_ts c = stm_pkt_trigger_ts c
call_leaf fn_freq c = stm_pkt_freq c
call_leaf fn_reserved_f0n c = stm_pkt_reserved_f0n c
call_leaf fn_extract_ts c = stm_extract_ts c
call_leaf fn_f0_ext c = (c, none)
call_leaf fn_fext c = (c, none)

unfoldable pub stm_pkt_f0_ext : StmParseContext → Outcome
unfolding set_fn
stm_pkt_f0_ext c =
    let (c', done) = read_nibble c in
    if done then call_leaf (op3 c'.nibble) (set_fn (op3 c'.nibble) c') else (c', none)

unfoldable pub call_second : PktFn → StmParseContext → Outcome
call_second fn_f0_ext c = stm_pkt_f0_ext c
call_second f c = call_leaf f c

unfoldable pub stm_pkt_fext : StmParseContext → Outcome
unfolding set_fn
stm_pkt_fext c =
    let (c', done) = read_nibble c in
    if done then call_second (op2 c'.nibble) (set_fn (op2 c'.nibble) c') else (c', none)

-- `currFn(d)`
unfoldable pub call_fn : PktFn → StmParseContext → Outcome
call_fn fn_fext c = stm_pkt_fext c
call_fn f c = call_second f c

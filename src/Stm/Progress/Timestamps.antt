-- ===== src/Stm/Progress/Timestamps.antt =====
-- How far the reading of a timestamp gets, and the end that the packet methods share.
use coresight.Prelude.{
  ℕ, zero, suc, ◌+◌, ◌≤◌, ◌<◌, ◌≡◌, ◌⊎◌, inl, inr, refl, arith, true, false, Option, none, some,
  sym, u8, ◌*◌, ◌==◌, u64, shl, bit_or, Bool-cases, ltb,
}
use coresight.Stm.Packet.{TsType, ts_unknown, ts_nat_binary, ts_grey}
use coresight.Errors.{bad_packet_seq}
use mathlib.Core.Path.{subst}
use coresight.Stm.State.{StmParseContext, send_pkt, proc_data, fn_extract_ts}
use coresight.Stm.Nibbles.{read_nibble}
use coresight.Stm.Nibbles.Frame.{read_nibble-Frame}
use coresight.Stm.Fields.{
  Outcome, ts_loop, ts_digits, apply_ts, ts_size, ts_nibbles, stm_extract_ts, finish, set_fn,
  throw_bad_sequence, on_packet,
}
use coresight.Stm.Progress.{left, TsReady, NoTsYet, ResumableFn, Step, InPacket}
use coresight.Stm.Progress.Loops.{read_nibble-left}

record TsExtracted (c d : StmParseContext) : Type 0 where
  conserved : d.curr_ts_nibbles + left d ≡ c.curr_ts_nibbles + left c
  bounded : d.curr_ts_nibbles ≤ c.req_ts_nibbles
  exhausted : (d.curr_ts_nibbles ≡ c.req_ts_nibbles) ⊎ (left d ≡ 0)
  ts_state : d.process_state ≡ c.process_state
  ts_block : d.block ≡ c.block
  ts_stream : d.stream_sync ≡ c.stream_sync
  ts_fn : d.curr_fn ≡ c.curr_fn
  ts_req : d.req_ts_nibbles ≡ c.req_ts_nibbles
  ts_set : d.ts_req_set ≡ c.ts_req_set

abbrev stored : StmParseContext → StmParseContext
stored c = record c {
  ts_update_value = bit_or (u64 (shl c.ts_update_value 4)) c.nibble;
  curr_ts_nibbles = u8 (c.curr_ts_nibbles + 1);
}

ts_loop-TsExtracted :
    (rounds : ℕ) (c : StmParseContext)
    → c.curr_ts_nibbles ≤ c.req_ts_nibbles
    → c.req_ts_nibbles < 256
    → c.req_ts_nibbles ≤ c.curr_ts_nibbles + rounds
    → TsExtracted c (ts_loop rounds c)
unfolding ts_loop
ts_loop-TsExtracted zero c h hb hr = ground arith
ts_loop-TsExtracted (suc rounds) c h hb hr =
    elim (Bool-cases (ltb c.curr_ts_nibbles c.req_ts_nibbles)) [
      | inr stop ↦ ground arith
      | inl go ↦
          let (c1, done) = read_nibble c in
          let f = read_nibble-Frame c in
          elim (read_nibble-left c) [
            | inl (t, n) ↦
                let rest =
                  ts_loop-TsExtracted rounds (stored c1) (ground (arith, f)) (ground (arith, f))
                    (ground (arith, f)) in
                ground (arith, f, rest)
            | inr (e, z, same) ↦ ground (arith, same, f)
          ]
    ]

-- The end of a timestamp: the packet is to be sent, or the call fails and has changed no input.
record Applied (c : StmParseContext) (out : Outcome) : Type 0 where
  left_kept : left out.0 ≡ left c
  block_kept : out.0.block ≡ c.block
  stream_kept : out.0.stream_sync ≡ c.stream_sync
  fn_kept : out.0.curr_fn ≡ c.curr_fn
  req_kept : out.0.req_ts_nibbles ≡ c.req_ts_nibbles
  curr_kept : out.0.curr_ts_nibbles ≡ c.curr_ts_nibbles
  set_kept : out.0.ts_req_set ≡ c.ts_req_set
  ends :
      (out.0.process_state ≡ send_pkt)
      ⊎ ((out.0.process_state ≡ c.process_state) × (out.1 ≡ some bad_packet_seq))

apply_ts-Applied : (t : TsType) (bits : ℕ) (c : StmParseContext) → Applied c (apply_ts t bits c)
unfolding apply_ts
apply_ts-Applied ts_unknown bits c = ground arith
apply_ts-Applied ts_nat_binary bits c = ground arith
apply_ts-Applied ts_grey bits c = ground arith

-- The context in which a timestamp is read.
pub record InTs (c : StmParseContext) : Type 0 where
  pub ts_in_data : c.process_state ≡ proc_data
  pub ts_in_stream : c.stream_sync ≡ true
  pub ts_in_fn : c.curr_fn ≡ some fn_extract_ts

resumable_ts :
    (c : StmParseContext) → c.curr_fn ≡ some fn_extract_ts → TsReady c → ResumableFn c.curr_fn c
resumable_ts c h t = subst (λ f. ResumableFn f c) (sym h) t

ts_digits-Step :
    (c : StmParseContext)
    → InTs c
    → c.curr_ts_nibbles ≤ c.req_ts_nibbles
    → c.req_ts_nibbles < 256
    → c.ts_req_set ≡ true
    → Step c (ts_digits c)
unfolding ts_digits
ts_digits-Step c h hc hr hs =
    let x = ts_loop-TsExtracted c.req_ts_nibbles c hc hr (omega arith) in
    let d = ts_loop c.req_ts_nibbles c in
    let out = apply_ts d.curr_packet.ts_type (u8 (d.req_ts_nibbles * 4)) d in
    let a = apply_ts-Applied d.curr_packet.ts_type (u8 (d.req_ts_nibbles * 4)) d in
    elim (Bool-cases (d.curr_ts_nibbles == d.req_ts_nibbles)) [
      | inl whole ↦ ground (arith, x, a, resumable_ts out.0 (ground arith) (ground arith))
      | inr cut ↦ ground (arith, x, resumable_ts d (ground arith) (ground arith))
    ]

ts_size-Step :
    (o : Option ℕ) (c : StmParseContext)
    → InTs c
    → c.curr_ts_nibbles ≡ 0
    → c.ts_req_set ≡ false
    → Step c (ts_size o c)
unfolding ts_size throw_bad_sequence on_packet
ts_size-Step none c h hz hs =
    let d = (throw_bad_sequence (record c { req_ts_nibbles = c.nibble })).0 in
    ground (arith, resumable_ts d (ground arith) (ground arith))
ts_size-Step (some n) c h hz hs =
    let d = record c { req_ts_nibbles = u8 n; ts_req_set = true } in
    let s = ts_digits-Step d (ground arith) (ground arith) (ground arith) refl in ground (arith, s)

pub stm_extract_ts-Step : (c : StmParseContext) → InTs c → TsReady c → Step c (stm_extract_ts c)
unfolding stm_extract_ts
stm_extract_ts-Step c h ready = elim (Bool-cases c.ts_req_set) [
  | inl set ↦ let s = ts_digits-Step c h (ground arith) (ground arith) set in ground (arith, s)
  | inr unset ↦
      let c1 : StmParseContext = (read_nibble c).0 in
      let f = read_nibble-Frame c in
      elim (read_nibble-left c) [
        | inl (t, n) ↦
            let s =
              ts_size-Step (ts_nibbles c1.nibble) c1 (ground (arith, f)) (ground (arith, f))
                (ground (arith, f)) in
            ground (arith, f, s)
        | inr (e, z, same) ↦
            ground (arith, f, resumable_ts c1 (ground (arith, f)) (ground (arith, f)))
      ]
]

pub finish-Step : (c : StmParseContext) → InPacket c → NoTsYet c → Step c (finish c)
unfolding finish
finish-Step c h no_ts = elim (Bool-cases c.needs_ts) [
  | inl ts ↦
      let s = stm_extract_ts-Step (set_fn fn_extract_ts c) (ground arith) (ground arith) in
      ground (arith, s)
  | inr plain ↦ ground arith
]

-- ===== src/Stm/Block/Total.antt =====
-- The loop of `processData` ends, over every sequence of blocks.
use coresight.Prelude.{
  ℕ, zero, suc, ◌+◌, ◌*◌, ◌<◌, ◌≡◌, refl, sym, ap, ◌∙◌, arith, Bool, true, false, Option, none,
  some, List, [], ◌∷◌, if◌then◌else◌, u32,
}
use mathlib.Core.Path.{subst}
use coresight.Errors.{Error}
use coresight.Emitter.{Emitter}
use coresight.Stm.Packet.{StmPacket}
use coresight.Stm.State.{
  StmParseContext, ProcessState, PktFn, wait_sync, proc_hdr, proc_data, send_pkt, fn_reserved,
  fn_null, fn_m8, fn_merr, fn_c8, fn_d4, fn_d8, fn_d16, fn_d32, fn_d64, fn_d4_mts, fn_d8_mts,
  fn_d16_mts, fn_d32_mts, fn_d64_mts, fn_flag_ts, fn_fext, fn_f0_ext, fn_gerr, fn_c16, fn_d4_ts,
  fn_d8_ts, fn_d16_ts, fn_d32_ts, fn_d64_ts, fn_d4_m, fn_d8_m, fn_d16_m, fn_d32_m, fn_d64_m,
  fn_flag, fn_async, fn_reserved_fn, fn_version, fn_null_ts, fn_trigger, fn_trigger_ts, fn_freq,
  fn_reserved_f0n, fn_extract_ts,
}
use coresight.Stm.Decoder.{StmDecoder, StmConfig}
use coresight.Stm.Parser.{data_to_process}
use coresight.Stm.Parser.Sync.{pending-nibble_bound}
use coresight.Stm.Block.{
  Round, next, return, process_round, process_loop, process_data, written, round_bound, new_decoder,
}
use coresight.Stm.Block.Rounds.{Inv, StateOk, measure, rank, Less}
use coresight.Stm.Progress.{left, Resumable, ResumableFn}
use coresight.Stm.Block.Descent.{round-Less}

-- The loop returns, and leaves a context that it may meet again.
abbrev pub Returns : Option (StmDecoder × Option Error) → Type 0
Returns o = (d : StmDecoder) × (err : Option Error) × (o ≡ some (d, err)) × Inv d.ctx

process_loop-Returns :
    (fuel index : ℕ) (d : StmDecoder)
    → Inv d.ctx
    → measure d.ctx < fuel
    → Returns (process_loop fuel index d)
unfolding process_loop
process_loop-Returns zero index d h hm = absurd (omega arith)
process_loop-Returns (suc fuel) index d h hm =
    loop_on (data_to_process d.ctx) (process_round d.ctx.process_state index d) refl
      (λ more. round-Less d.ctx.process_state index d refl h more)
      (λ d' i m. process_loop-Returns fuel index d' i m)
  where
    loop_on :
        (more : Bool) (r : Round)
        → data_to_process d.ctx ≡ more
        → (data_to_process d.ctx ≡ true → Less (measure d.ctx) r)
        → ((d' : StmDecoder)
            → Inv d'.ctx
            → measure d'.ctx < fuel
            → Returns (process_loop fuel index d'))
        → Returns (
            if more
            then elim r [ next d' ↦ process_loop fuel index d' | return d' err ↦ some (d', err) ]
            else some (d, none))
    loop_on false r e less ih = (d, none, refl, h)
    loop_on true (next d') e less ih = ih d' (less e).0 (ground (arith, less e))
    loop_on true (return d' err) e less ih = (d', err, refl, less e)

-- The next block does not change what the method in `currFn` waits for.
fed-Resumable :
    (f : PktFn) (index : ℕ) (block : List ℕ) (c : StmParseContext)
    → Resumable f c
    → Resumable f (record c { block = block; block_base = index; offset = 0 })
fed-Resumable fn_reserved index block c r = r
fed-Resumable fn_null index block c r = r
fed-Resumable fn_m8 index block c r = r
fed-Resumable fn_merr index block c r = r
fed-Resumable fn_c8 index block c r = r
fed-Resumable fn_d4 index block c r = r
fed-Resumable fn_d8 index block c r = r
fed-Resumable fn_d16 index block c r = r
fed-Resumable fn_d32 index block c r = r
fed-Resumable fn_d64 index block c r = r
fed-Resumable fn_d4_mts index block c r = r
fed-Resumable fn_d8_mts index block c r = r
fed-Resumable fn_d16_mts index block c r = r
fed-Resumable fn_d32_mts index block c r = r
fed-Resumable fn_d64_mts index block c r = r
fed-Resumable fn_flag_ts index block c r = r
fed-Resumable fn_fext index block c r = r
fed-Resumable fn_f0_ext index block c r = r
fed-Resumable fn_gerr index block c r = r
fed-Resumable fn_c16 index block c r = r
fed-Resumable fn_d4_ts index block c r = r
fed-Resumable fn_d8_ts index block c r = r
fed-Resumable fn_d16_ts index block c r = r
fed-Resumable fn_d32_ts index block c r = r
fed-Resumable fn_d64_ts index block c r = r
fed-Resumable fn_d4_m index block c r = r
fed-Resumable fn_d8_m index block c r = r
fed-Resumable fn_d16_m index block c r = r
fed-Resumable fn_d32_m index block c r = r
fed-Resumable fn_d64_m index block c r = r
fed-Resumable fn_flag index block c r = r
fed-Resumable fn_async index block c r = r
fed-Resumable fn_reserved_fn index block c r = r
fed-Resumable fn_version index block c r = r
fed-Resumable fn_null_ts index block c r = r
fed-Resumable fn_trigger index block c r = r
fed-Resumable fn_trigger_ts index block c r = r
fed-Resumable fn_freq index block c r = r
fed-Resumable fn_reserved_f0n index block c r = r
fed-Resumable fn_extract_ts index block c r = r

fed_fn :
    (o : Option PktFn) (index : ℕ) (block : List ℕ) (c : StmParseContext)
    → ResumableFn o c
    → ResumableFn o (record c { block = block; block_base = index; offset = 0 })
fed_fn none index block c r = r
fed_fn (some f) index block c r = fed-Resumable f index block c r

fed-StateOk :
    (t : ProcessState) (index : ℕ) (block : List ℕ) (c : StmParseContext)
    → StateOk t c
    → StateOk t (record c { block = block; block_base = index; offset = 0 })
fed-StateOk wait_sync index block c h = h
fed-StateOk proc_hdr index block c h = h
fed-StateOk proc_data index block c h = (h.0, fed_fn c.curr_fn index block c h.1)
fed-StateOk send_pkt index block c h = h

measure-round_bound : (c : StmParseContext) → measure c < round_bound c
measure-round_bound c = elim (c.process_state) as (λ t. 4 * left c + rank t c < round_bound c) [
  | wait_sync ↦ ground (arith, pending-nibble_bound c)
  | proc_hdr ↦ ground (arith, pending-nibble_bound c)
  | proc_data ↦ ground (arith, pending-nibble_bound c)
  | send_pkt ↦ ground (arith, pending-nibble_bound c)
]

-- What a call returns: a result, and a context in which it may be called again.
abbrev pub Written : Option (StmDecoder × ℕ × Option Error) → Type 0
Written o = (d : StmDecoder) × (n : ℕ) × (err : Option Error) × (o ≡ some (d, n, err)) × Inv d.ctx

process_data-Written :
    (index : ℕ) (block : List ℕ) (d : StmDecoder) → Inv d.ctx → Written (process_data index block d)
unfolding process_data written
process_data-Written index block d h =
    let fed : StmDecoder = record d {
      ctx = record (d.ctx) { block = block; block_base = index; offset = 0 };
    } in
    let fed_ok : Inv fed.ctx = record {
      unsynced = h.unsynced;
      state_ok = fed-StateOk d.ctx.process_state index block d.ctx h.state_ok;
    } in
    let (d', err, e, i) =
      process_loop-Returns (round_bound fed.ctx) index fed fed_ok (measure-round_bound fed.ctx) in
    subst (λ o. Written (written o)) (sym e) (d', u32 d'.ctx.offset, err, refl, i)

abbrev pub on_written :
    Option (StmDecoder × ℕ × Option Error) → (StmDecoder → Option StmDecoder) → Option StmDecoder
on_written none f = none
on_written (some (d, n, err)) f = f d

-- What the decoder has after a sequence of blocks, whatever errors the calls before returned; `none` if
-- a call did not return.
abbrev pub write_all : List (ℕ × List ℕ) → StmDecoder → Option StmDecoder
write_all [] d = some d
write_all ((index, block) ∷ blocks) d =
    on_written (process_data index block d) (λ d'. write_all blocks d')

write_all-Inv :
    (blocks : List (ℕ × List ℕ)) (d : StmDecoder)
    → Inv d.ctx
    → (d' : StmDecoder) × (write_all blocks d ≡ some d')
write_all-Inv [] d h = (d, refl)
write_all-Inv ((index, block) ∷ blocks) d h =
    let (d1, n, err, e, i) = process_data-Written index block d h in
    let (d2, e2) = write_all-Inv blocks d1 i in
    (d2, ap (λ o. on_written o (λ d'. write_all blocks d')) e ∙ e2)

new_decoder-Inv : (cfg : StmConfig) (o : Emitter StmPacket) → Inv (new_decoder cfg o).ctx
unfolding new_decoder
new_decoder-Inv cfg o = ground arith

-- `processData` returns, on every block, of a new decoder and after every sequence of blocks before,
-- also when earlier calls returned errors: the fuel of the loop never runs out.
pub write_all-returns :
    (cfg : StmConfig) (o : Emitter StmPacket) (blocks : List (ℕ × List ℕ))
    → (d : StmDecoder) × (write_all blocks (new_decoder cfg o) ≡ some d)
write_all-returns cfg o blocks = write_all-Inv blocks (new_decoder cfg o) (new_decoder-Inv cfg o)

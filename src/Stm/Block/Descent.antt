-- ===== src/Stm/Block/Descent.antt =====
-- Each state of the loop of `processData`: the round that it takes leaves less to do, or returns.
use coresight.Prelude.{
  ℕ, ◌+◌, ◌<◌, ◌≡◌, inl, inr, refl, sym, arith, Bool, true, false, Option, none, some,
  if◌then◌else◌, u64, drop, length-drop,
}
use mathlib.Core.Path.{subst}
use coresight.Emitter.{emit_packet}
use coresight.Stm.State.{
  StmParseContext, ProcessState, PktFn, wait_sync, proc_hdr, proc_data, send_pkt,
}
use coresight.Stm.Nibbles.{read_nibble, save_packet_byte}
use coresight.Stm.Nibbles.Frame.{read_nibble-Frame, read_nibble-num}
use coresight.Stm.Fields.{Outcome, set_fn}
use coresight.Stm.Dispatch.{op1, call_fn}
use coresight.Stm.Decoder.{StmDecoder, process_packet, packet_round}
use coresight.Stm.Decoder.Context.{packet_round-ctx}
use coresight.Stm.Parser.{data_to_process, init_next_packet, next_packet, output_packet}
use coresight.Stm.Parser.Sync.{length-nibbles_of}
use coresight.Stm.Block.{process_round, end_round, in_ctx, read_header, header_round, call_curr}
use coresight.Stm.Block.Rounds.{Inv, StateOk, measure, rank, Less, wait-Less}
use coresight.Stm.Progress.{left, ResumableFn, Step}
use coresight.Stm.Progress.Loops.{read_nibble-left}
use coresight.Stm.Progress.Calls.{call_header-Step, call_fn-Step}

Step-Inv : (c : StmParseContext) (out : Outcome) → Step c out → Inv out.0
Step-Inv c out s = record {
  unsynced = ground arith;
  state_ok = elim (s.step_next) [
    | inl sent ↦ subst (λ t. StateOk t out.0) (sym sent) tt
    | inr (stays, again) ↦ subst (λ t. StateOk t out.0) (sym stays) (s.step_stream, again)
  ];
}

-- A method's step, as a round of the loop that had `m` to do.
Step-Less :
    (d : StmDecoder) (c : StmParseContext) (m : ℕ) (out : Outcome)
    → Step c out
    → (out.1 ≡ none → measure out.0 < m)
    → Less m (in_ctx d out)
unfolding end_round
Step-Less d c m (c', none) s h = (Step-Inv c (c', none) s, h refl)
Step-Less d c m (c', some e) s h = Step-Inv c (c', some e) s

next_packet-Inv :
    (c : StmParseContext)
    → Inv c
    → c.process_state ≡ send_pkt
    → Inv (next_packet c) × (measure (next_packet c) < measure c)
unfolding next_packet init_next_packet save_packet_byte
next_packet-Inv c h hs = ground arith

output-Less :
    (d : StmDecoder)
    → d.ctx.process_state ≡ send_pkt
    → Inv d.ctx
    → let (d', err) = output_packet d in Less (measure d.ctx) (end_round d' err)
unfolding output_packet process_packet end_round
output-Less d hs h =
    let done = next_packet-Inv c (ground arith) hs in
    let same_rank : rank d.ctx.process_state c ≡ rank d.ctx.process_state d.ctx =
      subst (λ t. rank t c ≡ rank t d.ctx) (sym hs) refl in
    let kept : (packet_round d.curr_state c.curr_packet d0).ctx ≡ c =
      packet_round-ctx d.curr_state c.curr_packet d0 in
    subst (λ t. Inv (next_packet t) × (measure (next_packet t) < measure d.ctx)) (sym kept)
      (done.0, omega (arith, done.1, same_rank))
  where
    c : StmParseContext
    c = record (d.ctx) { curr_packet = record (d.ctx.curr_packet) { index = d.ctx.packet_idx } }

    d0 : StmDecoder
    d0 = record d {
      emitter = emit_packet d.ctx.packet_idx c.curr_packet d.ctx.packet_data d.emitter;
      ctx = c;
      index_curr_pkt = d.ctx.packet_idx;
      curr_packet_in = some c.curr_packet;
    }

header_read :
    (index : ℕ) (c : StmParseContext) (b : Bool)
    → let c0 = record c { packet_idx = u64 (index + c.offset) } in
      let r = (read_nibble c0).0 in
      (read_nibble c0).1 ≡ b
      → read_header index c ≡ (
          if b
          then some (
              call_fn
                (op1 r.nibble)
                (set_fn (op1 r.nibble) (record r { process_state = proc_data })))
          else none)
unfolding read_header
header_read index c b h = rw h refl

header-Less :
    (index : ℕ) (d : StmDecoder)
    → d.ctx.process_state ≡ proc_hdr
    → Inv d.ctx
    → Less (measure d.ctx) (process_round proc_hdr index d)
unfolding process_round header_round
header-Less index d hs h =
    let c = record (d.ctx) { packet_idx = u64 (index + d.ctx.offset) } in
    let f = read_nibble-Frame c in
    let r : StmParseContext = (read_nibble c).0 in
    elim (read_nibble-left c) [
      | inl (t, n) ↦
          let e = record r { process_state = proc_data } in
          let s =
            call_header-Step e (ground (arith, f)) (ground (arith, f, read_nibble-num c t))
              (ground (arith, f)) in
          rw (header_read index d.ctx true t)
            (Step-Less d e (measure d.ctx) _ s (λ ok. ground (arith, s, n)))
      | inr (z, n, same) ↦ rw (header_read index d.ctx false z) (ground arith)
    ]

curr-Less :
    (o : Option PktFn) (d : StmDecoder)
    → d.ctx.process_state ≡ proc_data
    → d.ctx.curr_fn ≡ o
    → d.ctx.stream_sync ≡ true
    → ResumableFn o d.ctx
    → 0 < left d.ctx
    → Less (measure d.ctx) (in_ctx d (call_curr o d.ctx))
unfolding call_curr
curr-Less none d hs hf ht r hl = absurd r
curr-Less (some f) d hs hf ht r hl =
    let s = call_fn-Step f d.ctx (record { in_data = hs; in_stream = ht }) hf r in
    Step-Less d d.ctx (measure d.ctx) _ s (λ ok. ground (arith, s))

data-Less :
    (index : ℕ) (d : StmDecoder)
    → d.ctx.process_state ≡ proc_data
    → Inv d.ctx
    → 0 < left d.ctx
    → Less (measure d.ctx) (process_round proc_data index d)
unfolding process_round
data-Less index d hs h hl =
    let ok : StateOk proc_data d.ctx = subst (λ t. StateOk t d.ctx) hs h.state_ok in
    curr-Less d.ctx.curr_fn d hs refl ok.0 ok.1 hl

-- When the loop goes on to read, there is a nibble.
more-left :
    (c : StmParseContext) → (c.process_state ≡ send_pkt → ⊥) → data_to_process c ≡ true → 0 < left c
unfolding data_to_process
more-left c hs more =
    ground (arith, length-nibbles_of (drop c.offset c.block), length-drop c.offset c.block)

-- Every round of the loop, in the state that the decoder is in.
pub round-Less :
    (t : ProcessState) (index : ℕ) (d : StmDecoder)
    → d.ctx.process_state ≡ t
    → Inv d.ctx
    → data_to_process d.ctx ≡ true
    → Less (measure d.ctx) (process_round t index d)
unfolding process_round
round-Less wait_sync index d hs h more =
    wait-Less index d.ctx hs h (more-left d.ctx (ground arith) more)
round-Less proc_hdr index d hs h more = header-Less index d hs h
round-Less proc_data index d hs h more =
    data-Less index d hs h (more-left d.ctx (ground arith) more)
round-Less send_pkt index d hs h more = output-Less d hs h

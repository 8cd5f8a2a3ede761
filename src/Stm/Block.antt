-- ===== src/Stm/Block.antt =====
-- stm_parser.go and stm_decoder.go: the loop over a trace block, and the decoder's public methods.
pub mod Rounds
pub mod Descent
pub mod Total
mod Examples
use coresight.Prelude.{
  ℕ, zero, suc, ◌+◌, ◌*◌, ◌-◌, ◌^◌, Bool, true, false, not, ◌&&◌, ◌||◌, Option, none, some, List,
  [], ◌∷◌, ltb, u8, u64, u32, if◌then◌else◌,
}
use coresight.Errors.{Error, bad_packet_seq, invalid_pckt_hdr, data_decode_fatal}
use coresight.Element.{
  eo_trace, new_element, unsync_init_decoder, unsync_reset_decoder, unsync_eot,
  set_unsync_end_reason, zero_swt_info, unsync_unknown,
}
use coresight.Emitter.{emit_trace_end}
use coresight.Stm.Packet.{
  StmPacket, incomplete_eot, not_sync, no_err_type, ts_unknown, init_start_state, update_err_type,
}
use coresight.Emitter.{Emitter}
use coresight.Element.{unsync_init_decoder, zero_swt_info}
use coresight.Stm.Packet.{not_sync, ts_unknown, StmPacket}
use coresight.Stm.State.{
  StmParseContext, ProcessState, PktFn, wait_sync, proc_hdr, proc_data, send_pkt,
}
use coresight.Stm.Nibbles.{read_nibble}
use coresight.Stm.Fields.{Outcome, on_packet, set_fn}
use coresight.Stm.Dispatch.{op1, call_fn}
use coresight.Stm.Decoder.{StmConfig, StmDecoder, no_sync, output_trace_element, reset_decoder}
use coresight.Stm.Parser.{
  data_to_process, init_next_packet, output_packet, wait_for_sync, nibble_bound,
}

-- A method value that is nil would be called only in state ProcData before any header.
unfoldable pub call_curr : Option PktFn → StmParseContext → Outcome
call_curr none c = (c, none)
call_curr (some f) c = call_fn f c

-- The case of stmStateProcHdr, which falls through to the call of the method. `none` is the early
-- return, when there is no nibble.
unfoldable pub read_header : ℕ → StmParseContext → Option Outcome
unfolding set_fn
read_header index c =
    let (c', done) = read_nibble (record c { packet_idx = u64 (index + c.offset) }) in
    if done
    then some
        (call_fn (op1 c'.nibble) (set_fn (op1 c'.nibble) (record c' { process_state = proc_data })))
    else none

-- Whether an error of a packet method ends the decoding: errBadPacketSeq and errInvalidPcktHdr.
unfoldable pub is_fatal : Error → Bool
is_fatal bad_packet_seq = true
is_fatal invalid_pckt_hdr = true
is_fatal _ = false

-- What a round of the loop of `processData` leaves: the decoder, and the return if it returns.
pub data Round : Type 0 where
  next : StmDecoder → Round
  return : StmDecoder → Option Error → Round

-- The end of the loop's body, and the loop's test of `err`.
unfoldable pub end_round : StmDecoder → Option Error → Round
unfolding is_fatal
end_round d none = next d
end_round d (some e) = return d (some (if is_fatal e then data_decode_fatal else e))

abbrev pub in_ctx : StmDecoder → Outcome → Round
in_ctx d (c, err) = end_round (record d { ctx = c }) err

-- A round that reads a header.
unfoldable pub header_round : ℕ → StmDecoder → Option Outcome → Round
unfolding end_round
header_round index d none =
    return (record d { ctx = record (d.ctx) { packet_idx = u64 (index + d.ctx.offset) } }) none
header_round index d (some out) = in_ctx d out

unfoldable pub process_round : ProcessState → ℕ → StmDecoder → Round
unfolding end_round read_header header_round call_curr
process_round wait_sync index d = next (record d { ctx = wait_for_sync index d.ctx })
process_round proc_hdr index d = header_round index d (read_header index d.ctx)
process_round proc_data index d = in_ctx d (call_curr d.ctx.curr_fn d.ctx)
process_round send_pkt index d = let (d', err) = output_packet d in end_round d' err

-- The loop, on fuel; `none` says that the fuel ran out.
unfoldable pub process_loop : ℕ → ℕ → StmDecoder → Option (StmDecoder × Option Error)
process_loop zero index d = none
process_loop (suc fuel) index d =
    let rest : Option (StmDecoder × Option Error) =
      elim (process_round d.ctx.process_state index d) [
        | next d' ↦ process_loop fuel index d'
        | return d' err ↦ some (d', err)
      ] in
    if data_to_process d.ctx then rest else some (d, none)

-- A nibble takes at most three rounds of the loop: a header or data, the packet, and the wait for ASYNC.
abbrev pub round_bound : StmParseContext → ℕ
round_bound c = 4 * nibble_bound c + 4

-- What the call returns when the loop has ended: the decoder, the bytes taken and the error.
unfoldable pub written : Option (StmDecoder × Option Error) → Option (StmDecoder × ℕ × Option Error)
written none = none
written (some (d, err)) = some (d, u32 d.ctx.offset, err)

-- processData, which is also Write.
unfoldable pub process_data : ℕ → List ℕ → StmDecoder → Option (StmDecoder × ℕ × Option Error)
unfolding written
process_data index block d =
    let fed = record d { ctx = record (d.ctx) { block = block; block_base = index; offset = 0 } } in
    written (process_loop (round_bound fed.ctx) index fed)

unfoldable pub reset_processor_state : StmParseContext → StmParseContext
unfolding init_next_packet init_start_state on_packet
reset_processor_state c = init_next_packet (record (on_packet init_start_state c) {
  process_state = wait_sync;
  nibble_second_valid = false;
})

unfoldable pub reset : ℕ → StmDecoder → StmDecoder
unfolding reset_processor_state reset_decoder
reset index d = reset_decoder (record d {
  is_closed = false;
  ctx = reset_processor_state d.ctx;
  unsync_info = unsync_reset_decoder;
})

unfoldable pub close : StmDecoder → StmDecoder × Option Error
unfolding update_err_type on_packet set_unsync_end_reason
close d0 =
    let d = record d0 { is_closed = true } in
    let incomplete =
      (output_packet (record d { ctx = on_packet (update_err_type incomplete_eot) d.ctx })).0 in
    let d1 = if ltb 0 d.ctx.num_nibbles then incomplete else d in
    let e = set_unsync_end_reason unsync_eot (new_element eo_trace) in
    let d2 = output_trace_element e d1 in
    if d0.is_closed
    then (d0, none)
    else if ltb 0 d.ctx.num_nibbles && d.ctx.curr_packet.has_marker
    then (d, some data_decode_fatal)
    else (record d2 { emitter = emit_trace_end d2.emitter }, none)

-- The zero value of the parse context, with an empty buffer for the packet's bytes.
abbrev pub zero_ctx : StmParseContext
zero_ctx = record {
  process_state = wait_sync;
  block = [];
  block_base = 0;
  offset = 0;
  curr_packet = record {
    index = 0;
    typ = not_sync;
    master = 0;
    channel = 0;
    timestamp = 0;
    pkt_ts_bits = 0;
    has_ts = false;
    ts_type = ts_unknown;
    has_marker = false;
    payload = 0;
    err_type = not_sync;
    ts_update = 0;
  };
  packet_idx = 0;
  packet_data = [];
  nibble = 0;
  nibble_second = 0;
  nibble_second_valid = false;
  num_nibbles = 0;
  num_data_nibbles = 0;
  is_sync = false;
  sync_start = false;
  sync_high = false;
  sync_low0 = false;
  sync_index = 0;
  num_f_nibs = 0;
  stream_sync = false;
  curr_fn = none;
  needs_ts = false;
  is_marker = false;
  req_ts_nibbles = 0;
  curr_ts_nibbles = 0;
  ts_update_value = 0;
  ts_req_set = false;
  val8 = 0;
  val16 = 0;
  val32 = 0;
  val64 = 0;
  nibble_high = false;
}

-- stmNewDecoder on a configuration, and the attaching of its observers by a route.
unfoldable pub new_decoder : StmConfig → Emitter StmPacket → StmDecoder
unfolding reset_processor_state reset_decoder
new_decoder cfg o = reset_decoder (record {
  config = cfg;
  emitter = o;
  ctx = reset_processor_state zero_ctx;
  index_curr_pkt = 0;
  curr_packet_in = none;
  curr_state = no_sync;
  swt_info = zero_swt_info;
  unsync_info = unsync_init_decoder;
  is_closed = false;
})

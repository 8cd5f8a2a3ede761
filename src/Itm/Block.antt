-- ===== src/Itm/Block.antt =====
-- itm_parser.go and itm_decoder.go: processData, and the operations of the decoder.
use coresight.Prelude.{
  ℕ, zero, suc, Bool, true, false, not, ◌&&◌, ◌||◌, List, Option, none, some, length, ltb, ◌==◌,
  bit_and, u32, if◌then◌else◌, ◌*◌, ◌+◌,
}
use coresight.Errors.{Error, bad_packet_seq, invalid_pckt_hdr, pkt_interp_fail}
use coresight.Element.{
  new_element, eo_trace, set_unsync_end_reason, unsync_eot, unsync_reset_decoder,
}
use coresight.Emitter.{emit_trace_end}
use coresight.ByteReader.{remaining}
use coresight.ByteStream.{feed, current_index, bytes_consumed}
use coresight.Itm.Packet.{incomplete_eot, ts_local, extension, swit, dwt}
use coresight.Itm.State.{
  ItmParseContext, ItmDecoder, ProcessState, wait_sync, proc_hdr, proc_data, send_pkt, proc_err,
}
use coresight.Itm.Reads.{scratch_of, read_next_byte, reset_packet_state}
use coresight.Itm.Payload.{with_typ, decode_header_byte, decode_payload}
use coresight.Itm.Sync.{with_ctx, output_packet, wait_async}
use coresight.Itm.Decoder.{output_trace_element, reset_decoder}

abbrev pub Stepped : Type 0
Stepped = ItmDecoder × Option Error

-- `len(Scratch()) - 1` is of an int: no payload is complete before the header.
unfoldable pub can_process_without_more_bytes : ItmParseContext → Bool
can_process_without_more_bytes c = elim c.curr_packet.typ [
  | ts_local ↦ bit_and c.header_byte 0x80 == 0
  | extension ↦ bit_and c.header_byte 0x80 == 0
  | swit ↦ ltb c.bytes_expected (length (scratch_of c))
  | dwt ↦ ltb c.bytes_expected (length (scratch_of c))
  | _ ↦ false
]

abbrev is_send : ProcessState → Bool
is_send send_pkt = true
is_send _ = false

abbrev is_data : ProcessState → Bool
is_data proc_data = true
is_data _ = false

-- The condition of the loop
unfoldable pub has_work : ItmParseContext → Bool
unfolding can_process_without_more_bytes
has_work c =
    ltb 0 (remaining c.stream.reader)
    || is_send c.process_state
    || (is_data c.process_state && can_process_without_more_bytes c)

unfoldable pub next_state : ItmParseContext → ItmParseContext
unfolding reset_packet_state
next_state c =
    let d = reset_packet_state c in
    record d { process_state = if d.stream_sync then proc_hdr else wait_sync }

-- errBadPacketSeq and errInvalidPcktHdr lead to the sending of the packet.
abbrev pub is_packet_error : Error → Bool
is_packet_error bad_packet_seq = true
is_packet_error invalid_pckt_hdr = true
is_packet_error _ = false

abbrev pub recover : Stepped → Stepped
recover (d, none) = (d, none)
recover (d, some e) =
    if is_packet_error e
    then (with_ctx (λ c. record c { process_state = send_pkt; stream_sync = false }) d, none)
    else (d, some e)

module _ (growth : ℕ → ℕ) where
  unfoldable pub read_header : ItmDecoder → Stepped
  unfolding decode_header_byte
  read_header d =
      let at = record (d.ctx) { curr_packet_index = current_index d.ctx.stream } in
      let (c, byte) = read_next_byte growth at in
      elim byte [
        | none ↦ (record d { ctx = c }, some pkt_interp_fail)
        | some b ↦ (record d { ctx = decode_header_byte b (record c { header_byte = b }) }, none)
      ]

  -- The switch of processData
  unfoldable pub state_step : ProcessState → ItmDecoder → Stepped
  unfolding read_header next_state
  state_step wait_sync d = (wait_async growth d, none)
  state_step proc_hdr d = read_header d
  state_step proc_data d = let (c, err) = decode_payload growth d.ctx in (record d { ctx = c }, err)
  state_step send_pkt d = let (d', err) = output_packet d in (with_ctx next_state d', err)
  state_step proc_err d =
      (d, elim d.ctx.proc_err_reason [ none ↦ some pkt_interp_fail | some e ↦ some e ])

  -- The loop of processData, on a number of rounds; none when they do not suffice.
  unfoldable pub process_loop : ℕ → ItmDecoder → Option Stepped
  unfolding state_step
  process_loop zero d = if has_work d.ctx then none else some (d, none)
  process_loop (suc rounds) d =
      let (d', err) = recover (state_step d.ctx.process_state d) in
      let more = process_loop rounds d' in
      if not (has_work d.ctx)
      then some (d, none)
      else elim err [ none ↦ more | some e ↦ some (d', some e) ]

  -- processData, which Write calls: the number of bytes consumed, and the error. Each byte is followed
  -- by at most five rounds that read none.
  unfoldable pub process_data : ℕ → List ℕ → ItmDecoder → Option (ItmDecoder × ℕ × Option Error)
  process_data index block d =
      elim (process_loop (6 * length block + 4)
        (with_ctx (λ c. record c { stream = feed index block c.stream }) d)) [
          | none ↦ none
          | some o ↦ some (o.0, u32 (bytes_consumed o.0.ctx.stream), o.1)
        ]

unfoldable pub reset_processor_state : ItmDecoder → ItmDecoder
unfolding reset_packet_state
reset_processor_state d =
    with_ctx
      (λ c. reset_packet_state (record c {
        process_state = wait_sync;
        stream_sync = false;
        sent_not_sync_packet = false;
        sync_start = false;
        dump_unsynced_bytes = 0;
      }))
      d

unfoldable pub close : ItmDecoder → ItmDecoder
unfolding output_packet output_trace_element emit_trace_end
close d =
    let c = record d { is_closed = true } in
    let flushed =
      if ltb 0 (length (scratch_of c.ctx))
      then (output_packet (with_ctx (with_typ incomplete_eot) c)).0
      else c in
    let e = set_unsync_end_reason unsync_eot (new_element eo_trace) in
    let sent = output_trace_element e flushed in
    if d.is_closed then d else record sent { emitter = emit_trace_end sent.emitter }

unfoldable pub reset : ItmDecoder → ItmDecoder
unfolding reset_processor_state reset_decoder
reset d = reset_decoder (record (reset_processor_state (record d { is_closed = false })) {
  unsync_info = unsync_reset_decoder;
})

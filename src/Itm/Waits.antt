-- ===== src/Itm/Waits.antt =====
-- itm_parser.go and itm_decoder.go: what the wait for ASYNC consumes, and what a packet that is sent
-- leaves in the parse context.
use coresight.ByteStream.{current_index}
use Prim.Native.Nat.{zero}
use coresight.Element.{zero_swt_itm_info}
use coresight.Itm.Reads.{scratch_of, read_async_seq, read_next_byte}
use coresight.Itm.Payload.{with_typ}
use coresight.Prelude.{
  ℕ, ◌≡◌, List, arith, take, ◌≤◌, ◌<◌, ◌≢◌, none, true, ◌⊎◌, false, suc, if◌then◌else◌, not,
}
use coresight.Itm.Sync.{
  note_packet, note_unsynced, flush_unsynced_bytes, with_ctx, unsynced_byte, try_async, sync_loop,
  wait_async,
}
use coresight.Itm.State.{ItmDecoder, decode_pkts, decode_no_sync, send_pkt}
use coresight.ByteReader.{discard_scratch_prefix, remaining, discard_ext, discard_inner, ByteReader}
use coresight.ByteReader.{reset as reset_reader}
use coresight.Itm.Decoder.{
  process_packet, decode_packet, packet_round, decode_typ, output_trace_element, reset_decoder,
  send_element, stamped, take_overflow, payload_info, decode_gts1, decode_gts2, gts1_flags,
  gts1_value, decode_local_ts, decode_extension,
}
use coresight.Itm.Packet.{not_sync, ItmPacket}
use coresight.Itm.Consumed.{left, async_loop-Read, read_next_byte-Read}

decode_packet-ctx :
    (pkt : ItmPacket) (d : ItmDecoder)
    → let x = decode_packet pkt d in
      (x.0.ctx ≡ d.ctx) × (x.1 ≢ none → x.0.curr_state ≡ decode_no_sync)
unfolding decode_packet decode_typ reset_decoder send_element stamped take_overflow
    output_trace_element payload_info decode_gts1 decode_gts2 gts1_flags gts1_value decode_local_ts
    decode_extension
decode_packet-ctx pkt d = ground arith

-- What a packet that is sent leaves: the context, and the decoder's state after an error
pub process_packet-ctx :
    (pkt : ItmPacket) (d : ItmDecoder)
    → let x = process_packet pkt d in
      (x.0.ctx ≡ d.ctx)
      × (x.1 ≢ none → (d.curr_state ≡ decode_pkts) × (x.0.curr_state ≡ decode_no_sync))
unfolding process_packet packet_round output_trace_element
process_packet-ctx pkt d = ground (
  arith,
  decode_packet-ctx pkt (record d { index_curr_pkt = pkt.index; itm_info = zero_swt_itm_info }),
)

discard-left : (n : ℕ) (r : ByteReader) → remaining (discard_scratch_prefix n r) ≡ remaining r
unfolding discard_scratch_prefix remaining reset_reader discard_ext discard_inner
discard-left n r = ground arith

-- A decoder whose parse context stands where it was
abbrev Stays : ItmDecoder → ItmDecoder → Type 0
Stays d d' =
    (d'.ctx.process_state ≡ d.ctx.process_state)
    × (d'.ctx.stream_sync ≡ d.ctx.stream_sync)
    × (left d'.ctx ≡ left d.ctx)

note_packet-Stays : (raw : List ℕ) (d : ItmDecoder) → Stays d (note_packet raw d)
unfolding note_packet
note_packet-Stays raw d = ground arith

note_unsynced-Stays : (d : ItmDecoder) → Stays d (note_unsynced d)
unfolding note_unsynced
note_unsynced-Stays d =
    let e = with_ctx (with_typ not_sync) d in
    let n = note_packet (take d.ctx.dump_unsynced_bytes (scratch_of d.ctx)) e in
    ground (
      arith,
      note_packet-Stays (take d.ctx.dump_unsynced_bytes (scratch_of d.ctx)) e,
      process_packet-ctx n.ctx.curr_packet n,
    )

flush_unsynced-Stays : (d : ItmDecoder) → Stays d (flush_unsynced_bytes d)
unfolding flush_unsynced_bytes
flush_unsynced-Stays d =
    let n = note_unsynced d in
    ground
      (arith, note_unsynced-Stays d, discard-left n.ctx.dump_unsynced_bytes n.ctx.stream.reader)

module _ (growth : ℕ → ℕ) where
  -- A byte was read if there was one, and the state is the same.
  abbrev Passes : ItmDecoder → ItmDecoder → Type 0
  Passes d d' =
      (d'.ctx.process_state ≡ d.ctx.process_state)
      × (d'.ctx.stream_sync ≡ d.ctx.stream_sync)
      × (left d'.ctx ≤ left d.ctx)
      × (0 < left d.ctx → left d'.ctx < left d.ctx)

  unsynced_byte-Passes : (d : ItmDecoder) → Passes d (unsynced_byte growth d).0
  unfolding unsynced_byte
  unsynced_byte-Passes d =
      let n = record d { ctx = (read_next_byte growth d.ctx).0 } in
      let s = with_ctx (λ c. record c { sync_start = true }) n in
      let t = with_ctx (λ c. record c { dump_unsynced_bytes = suc c.dump_unsynced_bytes }) n in
      ground
        (arith, read_next_byte-Read growth d.ctx, flush_unsynced-Stays s, flush_unsynced-Stays t)

  -- The attempt leads to the sending of ASYNC, or the decoder is out of synchronisation.
  try_async-left :
      (d : ItmDecoder)
      → 0 < left d.ctx
      → let x = try_async growth d in
        (left x.0.ctx < left d.ctx)
        × (x.1 ≡ true → x.0.ctx.process_state ≡ send_pkt)
        × (x.1 ≡ false
            → (x.0.ctx.process_state ≡ d.ctx.process_state) × (x.0.ctx.stream_sync ≡ false))
  unfolding try_async read_async_seq
  try_async-left d h = ground (arith, async_loop-Read growth (left d.ctx) d.ctx)

  -- The end of the wait: the state to send a packet, or that of the wait without synchronisation
  abbrev Waited : ItmDecoder → ItmDecoder → Type 0
  Waited d d' =
      (d'.ctx.process_state ≡ send_pkt)
      ⊎ ((d'.ctx.process_state ≡ d.ctx.process_state) × (d'.ctx.stream_sync ≡ false))

  sync_loop-Waited :
      (rounds : ℕ) (d : ItmDecoder)
      → d.ctx.stream_sync ≡ false
      → let x = sync_loop growth rounds d in
        (left x.0.ctx ≤ left d.ctx)
        × (0 < rounds → 0 < left d.ctx → left x.0.ctx < left d.ctx)
        × (x.1 ≡ true → x.0.ctx.process_state ≡ send_pkt)
        × (x.1 ≡ false → Waited d x.0)
  unfolding sync_loop
  sync_loop-Waited zero d h = ground arith
  sync_loop-Waited (suc rounds) d h =
      let t = (if d.ctx.sync_start then try_async growth d else (d, false)).0 in
      let u = (if t.ctx.sync_start then (t, true) else unsynced_byte growth t).0 in
      ground (arith, try_async-left d, unsynced_byte-Passes t, sync_loop-Waited rounds u)

  -- The wait consumes a byte of a block that has one.
  pub wait_async-Waited :
      (d : ItmDecoder)
      → d.ctx.stream_sync ≡ false
      → 0 < left d.ctx
      → (left (wait_async growth d).ctx < left d.ctx) × Waited d (wait_async growth d)
  unfolding wait_async
  wait_async-Waited d h k =
      let start = with_ctx (λ c. record (with_typ not_sync c) { dump_unsynced_bytes = 0 }) d in
      let at =
        if not start.ctx.sync_start
        then with_ctx (λ c. record c { curr_packet_index = current_index c.stream }) start
        else start in
      let e = (sync_loop growth (suc (left at.ctx)) at).0 in
      ground (arith, sync_loop-Waited (suc (left at.ctx)) at, flush_unsynced-Stays e)

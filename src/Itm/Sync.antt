-- ===== src/Itm/Sync.antt =====
-- itm_parser.go: what a packet is sent to, and the wait for ASYNC.
use coresight.Prelude.{
  ℕ, zero, suc, ◌+◌, ◌-◌, ◌^◌, Bool, true, false, not, ◌&&◌, ◌||◌, List, Option, none, some, length,
  take, leb, ◌==◌, u64, if◌then◌else◌,
}
use coresight.Errors.{Error}
use coresight.Emitter.{emit_packet}
use coresight.ByteReader.{reset as reset_reader, discard_scratch_prefix, remaining}
use coresight.ByteStream.{current_index}
use coresight.Itm.Packet.{async, not_sync}
use coresight.Itm.State.{ItmParseContext, ItmDecoder, send_pkt}
use coresight.Itm.Reads.{scratch_of, found_end, found, found_error, read_async_seq, read_next_byte}
use coresight.Itm.Payload.{with_typ}
use coresight.Itm.Decoder.{process_packet}

abbrev pub with_ctx : (ItmParseContext → ItmParseContext) → ItmDecoder → ItmDecoder
with_ctx f d = record d { ctx = f d.ctx }

abbrev reset_scratch : ItmParseContext → ItmParseContext
reset_scratch c = record c { stream = record (c.stream) { reader = reset_reader c.stream.reader } }

-- The packet's index, and the observer
unfoldable pub note_packet : List ℕ → ItmDecoder → ItmDecoder
unfolding emit_packet
note_packet raw d =
    let pkt = record (d.ctx.curr_packet) { index = d.ctx.curr_packet_index } in
    record d {
      ctx = record (d.ctx) { curr_packet = pkt };
      emitter = emit_packet d.ctx.curr_packet_index pkt raw d.emitter;
    }

unfoldable pub output_packet : ItmDecoder → ItmDecoder × Option Error
unfolding note_packet
output_packet d =
    let n = note_packet (scratch_of d.ctx) d in
    let (d', err) = process_packet n.ctx.curr_packet n in (with_ctx reset_scratch d', err)

-- The bytes that were not synchronised go to the observer; the decoder sees the first of them only.
unfoldable pub note_unsynced : ItmDecoder → ItmDecoder
unfolding note_packet
note_unsynced d =
    let n =
      note_packet (take d.ctx.dump_unsynced_bytes (scratch_of d.ctx))
        (with_ctx (with_typ not_sync) d) in
    if not n.ctx.sent_not_sync_packet
    then with_ctx (λ c. record c { sent_not_sync_packet = true })
        (process_packet n.ctx.curr_packet n).0
    else n

unfoldable pub flush_unsynced_bytes : ItmDecoder → ItmDecoder
unfolding note_unsynced
flush_unsynced_bytes d =
    if d.ctx.dump_unsynced_bytes == 0
    then d
    else with_ctx
        (λ c. record c {
          stream = record (c.stream) {
            reader = discard_scratch_prefix c.dump_unsynced_bytes c.stream.reader;
          };
          dump_unsynced_bytes = 0;
        })
        (note_unsynced d)

module _ (growth : ℕ → ℕ) where
  -- A byte outside a possible ASYNC, and whether there was one
  unfoldable pub unsynced_byte : ItmDecoder → ItmDecoder × Bool
  unfolding flush_unsynced_bytes
  unsynced_byte d =
      let (c, byte) = read_next_byte growth d.ctx in
      let n = record d { ctx = c } in
      let counted =
        with_ctx (λ c. record c { dump_unsynced_bytes = suc c.dump_unsynced_bytes }) n in
      elim byte [
        | none ↦ (n, false)
        | some b ↦
            if b == 0
            then (
              with_ctx
                  (λ c. record c { curr_packet_index = u64 (current_index c.stream + 2 ^ 64 - 1) })
                  (flush_unsynced_bytes (with_ctx (λ c. record c { sync_start = true }) n)),
              true,
            )
            else if leb 8 counted.ctx.dump_unsynced_bytes
            then (flush_unsynced_bytes counted, true)
            else (counted, true)
      ]

  -- What the attempt to complete an ASYNC leaves, and whether the wait is over
  unfoldable pub try_async : ItmDecoder → ItmDecoder × Bool
  try_async d =
      let (c, f) = read_async_seq growth d.ctx in
      elim f [
        | found ↦ (
          record d {
            ctx = record (with_typ async c) { stream_sync = true; process_state = send_pkt };
          },
          true,
        )
        | found_end ↦ (record d { ctx = record c { stream_sync = false } }, false)
        | found_error ↦ (
          record d {
            ctx = record c {
              stream_sync = false;
              dump_unsynced_bytes = length (scratch_of c);
              sync_start = false;
            };
          },
          false,
        )
      ]

  -- The loop of waitASync: true when ASYNC was found. Each round reads a byte or ends the loop.
  unfoldable pub sync_loop : ℕ → ItmDecoder → ItmDecoder × Bool
  unfolding try_async unsynced_byte
  sync_loop zero d = (d, false)
  sync_loop (suc rounds) d =
      let (t, done) = if d.ctx.sync_start then try_async d else (d, false) in
      let (u, read) = if t.ctx.sync_start then (t, true) else unsynced_byte t in
      let more = sync_loop rounds u in
      if remaining d.ctx.stream.reader == 0 || d.ctx.stream_sync
      then (d, false)
      else if done
      then (t, true)
      else if read
      then more
      else (u, false)

  unfoldable pub wait_async : ItmDecoder → ItmDecoder
  unfolding sync_loop flush_unsynced_bytes
  wait_async d =
      let start = with_ctx (λ c. record (with_typ not_sync c) { dump_unsynced_bytes = 0 }) d in
      let at =
        if not start.ctx.sync_start
        then with_ctx (λ c. record c { curr_packet_index = current_index c.stream }) start
        else start in
      let (d', done) = sync_loop (suc (remaining at.ctx.stream.reader)) at in
      if done
      then d'
      else if not d'.ctx.stream_sync && not d'.ctx.sync_start
      then flush_unsynced_bytes d'
      else d'

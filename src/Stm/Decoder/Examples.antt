-- ===== src/Stm/Decoder/Examples.antt =====
-- The theorems on the decoder's output at concrete packets.
use coresight.Prelude.{◌≡◌, refl, arith, inl, true, some, [], ◌∷◌}
use coresight.Element.{Element, unsync_bad_packet}
use coresight.Emitter.{emit_element, Event}
use coresight.Stm.Packet.{StmPacket, not_sync, bad_sequence, async, d32}
use coresight.Stm.Decoder.{StmDecoder, wait_sync, decode_pkts, trace_id, is_async, process_packet}
use coresight.Stm.Decoder.Payloads.{Carries, word_data, process_packet-Carries}
use coresight.Stm.Decoder.Elements.{
  process_all, unsync_element, process_all-unsynced, process_all-recovers,
}
use coresight.Stm.Block.{zero_ctx, new_decoder}

abbrev unsynced : StmDecoder
unsynced =
    new_decoder (record { reg_tcsr = 0x0010_0000 })
      (record { element_sink = true; packet_observer = true; trace_end_observer = true; log = [] })

abbrev synced : StmDecoder
synced = record unsynced { curr_state = decode_pkts }

abbrev junk : StmPacket
junk = record (zero_ctx.curr_packet) { typ = not_sync; index = 3 }

abbrev bad : StmPacket
bad = record junk { typ = bad_sequence }

abbrev resync : StmPacket
resync = record junk { typ = async; index = 9 }

abbrev word : StmPacket
word = record junk { typ = d32; payload = 0xdead_beef }

process_all-unsynced_example :
    let d' = process_all (junk ∷ junk ∷ []) unsynced in
    (d'.curr_state ≡ wait_sync)
    × (d'.emitter
        ≡ emit_element 3
            (trace_id unsynced.config)
            (unsync_element unsynced.unsync_info)
            unsynced.emitter)
unfolding new_decoder is_async
process_all-unsynced_example =
    process_all-unsynced junk (junk ∷ []) unsynced refl (refl, (refl, tt))

process_all-recovers_example :
    let d' = process_all (bad ∷ resync ∷ []) synced in
    (d'.curr_state ≡ decode_pkts)
    × (d'.emitter
        ≡ emit_element 9 (trace_id synced.config) (unsync_element unsync_bad_packet) synced.emitter)
process_all-recovers_example = process_all-recovers bad resync synced refl (inl refl) refl

process_packet-Carries_example :
    let d' = (process_packet (some word) synced).0 in
    (e : Element) × (d'.emitter.log ≡ Event.element e ∷ [])
    × Carries word 32 synced.config e
    × (d'.curr_state ≡ decode_pkts)
unfolding new_decoder
process_packet-Carries_example =
    process_packet-Carries word 32 synced refl refl word_data (omega arith)

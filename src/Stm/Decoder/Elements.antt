-- ===== src/Stm/Decoder/Elements.antt =====
-- stm_decoder.go: what the decoder sends while it is not synchronised.
use coresight.Prelude.{◌≡◌, ◌⊎◌, refl, ◌∙◌, arith, false, some, List, [], ◌∷◌, All, if◌then◌else◌}
use coresight.Element.{
  Element, no_sync as elem_no_sync, new_element, unsync_bad_packet, set_unsync_end_reason,
  UnsyncInfo,
}
use coresight.Emitter.{emit_element}
use coresight.Stm.Packet.{StmPacket, async, bad_sequence, reserved}
use coresight.Stm.Decoder.{
  StmDecoder, no_sync, wait_sync, decode_pkts, process_packet, packet_round, output_trace_element,
  is_async, trace_id, decode_packet, decode_typ, reset_decoder, clear_swt_per_packet_info,
}

-- The packets of a stretch of trace, in order.
abbrev pub process_all : List StmPacket → StmDecoder → StmDecoder
process_all [] d = d
process_all (p ∷ ps) d = process_all ps (process_packet (some p) d).0

abbrev pub NotAsync : StmPacket → Type 0
NotAsync p = is_async p.typ ≡ false

-- The element that says that there is no synchronisation, and why.
abbrev pub unsync_element : UnsyncInfo → Element
unsync_element why = set_unsync_end_reason why (new_element elem_no_sync)

step_waits :
    (p : StmPacket) (d : StmDecoder)
    → NotAsync p
    → d.curr_state ≡ wait_sync
    → let d' = (process_packet (some p) d).0 in
      (d'.curr_state ≡ wait_sync) × (d'.emitter ≡ d.emitter)
unfolding process_packet packet_round
step_waits p d h s = ground arith

step_unsynced :
    (p : StmPacket) (d : StmDecoder)
    → d.curr_state ≡ no_sync
    → let d' = (process_packet (some p) d).0 in
      (d'.curr_state ≡ (if is_async p.typ then decode_pkts else wait_sync))
      × (d'.emitter
          ≡ emit_element p.index (trace_id d.config) (unsync_element d.unsync_info) d.emitter)
unfolding process_packet packet_round output_trace_element
step_unsynced p d s = ground arith

step_bad :
    (p : StmPacket) (d : StmDecoder)
    → d.curr_state ≡ decode_pkts
    → (p.typ ≡ bad_sequence) ⊎ (p.typ ≡ reserved)
    → let d' = (process_packet (some p) d).0 in
      (d'.curr_state ≡ no_sync)
      × (d'.emitter ≡ d.emitter)
      × (d'.unsync_info ≡ unsync_bad_packet)
      × (d'.config ≡ d.config)
unfolding process_packet packet_round decode_packet decode_typ reset_decoder
    clear_swt_per_packet_info
step_bad p d s h = ground arith

wait-All :
    (ps : List StmPacket) (d : StmDecoder)
    → All NotAsync ps
    → d.curr_state ≡ wait_sync
    → ((process_all ps d).curr_state ≡ wait_sync) × ((process_all ps d).emitter ≡ d.emitter)
wait-All [] d h s = (s, refl)
wait-All (p ∷ ps) d (h, hs) s =
    let step = step_waits p d h s in
    let rest = wait-All ps (process_packet (some p) d).0 hs step.0 in (rest.0, rest.1 ∙ step.1)

-- From a lost synchronisation on, over any packets before the next ASYNC, at least one, the decoder
-- sends one NO_SYNC element with the reason of the loss, at the index of the first packet, and
-- nothing else, and it waits for ASYNC.
pub process_all-unsynced :
    (p : StmPacket) (ps : List StmPacket) (d : StmDecoder)
    → d.curr_state ≡ no_sync
    → All NotAsync (p ∷ ps)
    → let d' = process_all (p ∷ ps) d in
      (d'.curr_state ≡ wait_sync)
      × (d'.emitter
          ≡ emit_element p.index (trace_id d.config) (unsync_element d.unsync_info) d.emitter)
process_all-unsynced p ps d s (h, hs) =
    let step = step_unsynced p d s in
    let rest = wait-All ps (process_packet (some p) d).0 hs (ground arith) in
    (rest.0, rest.1 ∙ step.1)

-- In a synchronised stream a bad packet sends no element. The next packet, when it is ASYNC, resumes
-- the decoding after one NO_SYNC element with the reason "bad packet".
pub process_all-recovers :
    (bad sync : StmPacket) (d : StmDecoder)
    → d.curr_state ≡ decode_pkts
    → (bad.typ ≡ bad_sequence) ⊎ (bad.typ ≡ reserved)
    → sync.typ ≡ async
    → let d' = process_all (bad ∷ sync ∷ []) d in
      (d'.curr_state ≡ decode_pkts)
      × (d'.emitter
          ≡ emit_element sync.index
              (trace_id d.config)
              (unsync_element unsync_bad_packet)
              d.emitter)
unfolding is_async
process_all-recovers bad sync d s h hs =
    let lost = step_bad bad d s h in
    let found = step_unsynced sync (process_packet (some bad) d).0 lost.0 in
    ground (arith, lost, found)

-- ===== src/Itm/Unsynced.antt =====
-- itm_decoder.go: sequences of packets before the first ASYNC packet.
use coresight.Emitter.{emit_element, Event, Emitter}
use coresight.Prelude.{◌≡◌, ◌∙◌, refl, List, [], ◌∷◌, All, false, ◌++◌, true, ap}
use coresight.Element.{Element, new_element, no_sync, set_unsync_end_reason}
use coresight.Itm.Packet.{ItmPacket, trace_id}
use coresight.Itm.State.{ItmDecoder, decode_no_sync, decode_wait_sync}
use coresight.Itm.Decoder.{process_packet, packet_round, output_trace_element, is_async}

abbrev pub process_all : List ItmPacket → ItmDecoder → ItmDecoder
process_all [] d = d
process_all (pkt ∷ pkts) d = process_all pkts (process_packet pkt d).0

abbrev pub IsOther : ItmPacket → Type 0
IsOther pkt = is_async pkt.typ ≡ false

record Quiet (d d' : ItmDecoder) : Type 0 where
  same_emitter : d'.emitter ≡ d.emitter
  same_state : d'.curr_state ≡ decode_wait_sync

process_packet-Quiet :
    (pkt : ItmPacket) (d : ItmDecoder)
    → d.curr_state ≡ decode_wait_sync
    → IsOther pkt
    → Quiet d (process_packet pkt d).0
unfolding process_packet packet_round
process_packet-Quiet pkt d s h = rw (s, h) (record { same_emitter = refl; same_state = refl })

process_all-Quiet :
    (pkts : List ItmPacket) (d : ItmDecoder)
    → d.curr_state ≡ decode_wait_sync
    → All IsOther pkts
    → Quiet d (process_all pkts d)
process_all-Quiet [] d s h = record { same_emitter = refl; same_state = s }
process_all-Quiet (pkt ∷ pkts) d s (h, hs) =
    let q = process_packet-Quiet pkt d s h in
    let r = process_all-Quiet pkts (process_packet pkt d).0 q.same_state hs in
    record { same_emitter = r.same_emitter ∙ q.same_emitter; same_state = r.same_state }

-- The element that reports the loss of synchronisation at a packet
abbrev pub lost : ItmPacket → ItmDecoder → Element
lost pkt d = record (new_element no_sync) {
  elem_type = no_sync;
  index = pkt.index;
  trace_id = trace_id d.config;
  payload = record ((new_element no_sync).payload) { unsync_eot_info = d.unsync_info };
}

record Told (pkt : ItmPacket) (d d' : ItmDecoder) : Type 0 where
  sent : d'.emitter ≡ record (d.emitter) { log = d.emitter.log ++ Event.element (lost pkt d) ∷ [] }
  now_waits : d'.curr_state ≡ decode_wait_sync

process_packet-Told :
    (pkt : ItmPacket) (d : ItmDecoder)
    → d.curr_state ≡ decode_no_sync
    → d.emitter.element_sink ≡ true
    → IsOther pkt
    → Told pkt d (process_packet pkt d).0
unfolding process_packet packet_round output_trace_element emit_element set_unsync_end_reason
    new_element
process_packet-Told pkt d s on h = rw (s, h, on) (record { sent = refl; now_waits = refl })

-- A decoder that is not synchronised, with an observer of its elements, adds exactly one element to
-- what it has sent, over a first packet and any others behind it, none of them ASYNC: a NO_SYNC
-- element with the index of the first packet, the decoder's trace id and the reason of the loss. It
-- then waits for ASYNC.
pub process_packets-unsynced :
    (pkt : ItmPacket) (pkts : List ItmPacket) (d : ItmDecoder)
    → d.curr_state ≡ decode_no_sync
    → d.emitter.element_sink ≡ true
    → All IsOther (pkt ∷ pkts)
    → let d' = process_all (pkt ∷ pkts) d in
      (d'.emitter.log ≡ d.emitter.log ++ Event.element (lost pkt d) ∷ [])
      × (d'.curr_state ≡ decode_wait_sync)
process_packets-unsynced pkt pkts d s on (h, hs) =
    let q = process_packet-Told pkt d s on h in
    let r = process_all-Quiet pkts (process_packet pkt d).0 q.now_waits hs in
    (ap (λ (o : Emitter ItmPacket). o.log) (r.same_emitter ∙ q.sent), r.same_state)

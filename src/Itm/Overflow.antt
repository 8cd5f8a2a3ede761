-- ===== src/Itm/Overflow.antt =====
-- itm_decoder.go: the report of an overflow.
use coresight.Prelude.{
  ◌≡◌, ◌∙◌, ap, refl, true, inl, inr, ℕ, ◌++◌, ◌∷◌, [], false, Bool, if◌then◌else◌,
}
use coresight.Emitter.{Emitter, Event}
use coresight.Element.{Element, SwtItmType, swit_payload, dwt_payload, itm_trace}
use coresight.Itm.Packet.{ItmPacket, overflow, trace_id, ItmConfig}
use coresight.Itm.State.{ItmDecoder, decode_pkts}
use coresight.Itm.Decoder.{process_packet, decode_typ}
use coresight.Itm.Elements.{
  started, process_packet-decode_typ, process_packet-swit, process_packet-dwt, IsData, itm_element,
  pending_flag, Sends,
}

-- The element that a packet with data makes, with its flag of an overflow
pub record Reports (over : ℕ) (pkt : ItmPacket) (c : ItmConfig) (e : Element) : Type 0 where
  pub kind : e.elem_type ≡ itm_trace
  pub at : e.index ≡ pkt.index
  pub id : e.trace_id ≡ trace_id c
  pub size : e.payload.swt_itm.payload_size ≡ pkt.val_sz
  pub content : e.payload.swt_itm.value ≡ pkt.value
  pub flag : e.payload.swt_itm.overflow ≡ over

-- What a packet with data sends, and how it leaves the decoder
record Reported (pkt : ItmPacket) (d d' : ItmDecoder) (e : Element) : Type 0 where
  sent : d'.emitter ≡ record (d.emitter) { log = d.emitter.log ++ Event.element e ∷ [] }
  over : d'.prev_overflow ≡ false
  same_config : d'.config ≡ d.config
  same_state : d'.curr_state ≡ d.curr_state
  reports : Reports (pending_flag d) pkt d.config e

Sends-Reported :
    (t : SwtItmType) (src : ℕ) (pkt : ItmPacket) (d d' : ItmDecoder)
    → Sends t src pkt d d'
    → Reported pkt d d' (itm_element t src (pending_flag d) pkt d)
Sends-Reported t src pkt d d' s = record {
  sent = s.sent;
  over = s.over;
  same_config = s.same_config;
  same_state = s.same_state;
  reports = record { kind = refl; at = refl; id = refl; size = refl; content = refl; flag = refl };
}

data-Reported :
    (pkt : ItmPacket) (d : ItmDecoder)
    → d.curr_state ≡ decode_pkts
    → d.emitter.element_sink ≡ true
    → IsData pkt
    → (e : Element) × Reported pkt d (process_packet pkt d).0 e
data-Reported pkt d s on h = elim h [
  | inl t ↦ (_, Sends-Reported swit_payload _ pkt d _ (process_packet-swit pkt d s on t))
  | inr t ↦ (_, Sends-Reported dwt_payload _ pkt d _ (process_packet-dwt pkt d s on t))
]

process_packet-overflow :
    (pkt : ItmPacket) (d : ItmDecoder)
    → d.curr_state ≡ decode_pkts
    → pkt.typ ≡ overflow
    → (process_packet pkt d).0 ≡ record (started pkt d) { local_ts_count = 0; prev_overflow = true }
unfolding decode_typ
process_packet-overflow pkt d s t = rw (process_packet-decode_typ overflow pkt d s t) refl

-- In a decoder that decodes packets, with an observer of its elements, an overflow packet and two
-- packets with data behind it send two elements and nothing else: one for each packet with data, of
-- the type for ITM trace and with the index, the value and the size of that packet and the decoder's
-- trace id. The first of them reports an overflow and the second does not.
pub overflow_once :
    (d : ItmDecoder) (lost first second : ItmPacket)
    → d.curr_state ≡ decode_pkts
    → d.emitter.element_sink ≡ true
    → lost.typ ≡ overflow
    → IsData first
    → IsData second
    → let d1 = (process_packet first (process_packet lost d).0).0 in
      let d2 = (process_packet second d1).0 in
      (e1 : Element) × (e2 : Element) × (d1.emitter.log ≡ d.emitter.log ++ Event.element e1 ∷ [])
      × (d2.emitter.log ≡ d1.emitter.log ++ Event.element e2 ∷ [])
      × Reports 1 first d.config e1
      × Reports 0 second d.config e2
overflow_once d lost first second s on t a b =
    let d0 = record (started lost d) { local_ts_count = 0; prev_overflow = true } in
    let (e1, r1) = data-Reported first d0 s on a in
    let d1 = (process_packet first d0).0 in
    let on1 = ap (λ (o : Emitter ItmPacket). o.element_sink) r1.sent ∙ on in
    let (e2, r2) = data-Reported second d1 (r1.same_state ∙ s) on1 b in
    let c = ap trace_id r1.same_config in
    let off = ap (λ (x : Bool). if x then 1 else 0) r1.over in
    let p = r2.reports in
    rw (process_packet-overflow lost d s t) (
      e1,
      e2,
      ap (λ (o : Emitter ItmPacket). o.log) r1.sent,
      ap (λ (o : Emitter ItmPacket). o.log) r2.sent,
      r1.reports,
      record {
        kind = p.kind;
        at = p.at;
        id = p.id ∙ c;
        size = p.size;
        content = p.content;
        flag = p.flag ∙ off;
      },
    )

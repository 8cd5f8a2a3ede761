-- ===== src/Itm/Elements.antt =====
-- itm_decoder.go: what sequences of packets make the decoder send.
use coresight.Emitter.{emit_element, Event, Emitter}
use coresight.Prelude.{
  ℕ, ◌^◌, ◌*◌, ◌+◌, ◌<◌, ◌≡◌, ◌∙◌, ap, sym, arith, Option, u8, refl, if◌then◌else◌, ◌⊎◌, true, ◌++◌,
  inl, inr, Bool-cases, ◌∷◌, [], false,
}
use coresight.Prelude.Bits.{bit_and_low, bit_or_fields, bit_or_comm}
use coresight.Errors.{Error}
use coresight.Element.{
  zero_swt_itm_info, swit_payload, SwtItmType, new_element, set_itm_info, Element, itm_trace,
  dwt_payload,
}
use coresight.Itm.Packet.{ItmPktType, ItmPacket, extension, swit, dwt, trace_id}
use coresight.Itm.State.{DecodeState, ItmDecoder, decode_pkts}
use coresight.Itm.Decoder.{
  process_packet, packet_round, decode_packet, decode_typ, decode_extension, swit_src_id,
  payload_info, send_element, stamped, take_overflow, output_trace_element,
}

-- The decoder as decodePacket finds it
abbrev pub started : ItmPacket → ItmDecoder → ItmDecoder
started pkt d = record d { index_curr_pkt = pkt.index; itm_info = zero_swt_itm_info }

pub process_packet-decode_typ :
    (t : ItmPktType) (pkt : ItmPacket) (d : ItmDecoder)
    → d.curr_state ≡ decode_pkts
    → pkt.typ ≡ t
    → process_packet pkt d ≡ decode_typ t pkt (started pkt d)
unfolding process_packet packet_round decode_packet
process_packet-decode_typ t pkt d s e =
    ap (λ (st : DecodeState). packet_round st pkt (started pkt d)) s
    ∙ ap (λ (u : ItmPktType). decode_typ u pkt (started pkt d)) e

decode_extension-page :
    (pkt : ItmPacket) (d : ItmDecoder)
    → pkt.src_id ≡ 2
    → decode_extension pkt d ≡ record d { stim_page = u8 pkt.value }
unfolding decode_extension
decode_extension-page pkt d h = rw h refl

page_set :
    (pkt : ItmPacket) (d : ItmDecoder)
    → d.curr_state ≡ decode_pkts
    → pkt.typ ≡ extension
    → pkt.src_id ≡ 2
    → (process_packet pkt d).0 ≡ record (started pkt d) { stim_page = u8 pkt.value }
unfolding decode_typ
page_set pkt d s t h =
    ap (λ (o : ItmDecoder × Option Error). o.0) (process_packet-decode_typ extension pkt d s t)
    ∙ decode_extension-page pkt (started pkt d) h

-- The element that a packet with data makes: its type, its source and the overflow flag are given.
abbrev pub itm_element : SwtItmType → ℕ → ℕ → ItmPacket → ItmDecoder → Element
itm_element t src over pkt d = record (new_element itm_trace) {
  elem_type = itm_trace;
  index = pkt.index;
  trace_id = trace_id d.config;
  payload = record ((new_element itm_trace).payload) {
    swt_itm = record {
      pkt_type = t;
      payload_src_id = src;
      payload_size = pkt.val_sz;
      value = pkt.value;
      overflow = over;
    };
  };
}

abbrev pub pending_flag : ItmDecoder → ℕ
pending_flag d = if d.prev_overflow then 1 else 0

-- One element is sent, which reports the overflow that is pending.
pub record Sends (t : SwtItmType) (src : ℕ) (pkt : ItmPacket) (d d' : ItmDecoder) : Type 0 where
  pub sent : d'.emitter ≡ record (d.emitter) {
    log = d.emitter.log ++ Event.element (itm_element t src (pending_flag d) pkt d) ∷ [];
  }
  pub over : d'.prev_overflow ≡ false
  pub same_config : d'.config ≡ d.config
  pub same_state : d'.curr_state ≡ d.curr_state

-- A packet with data
abbrev pub IsData : ItmPacket → Type 0
IsData pkt = (pkt.typ ≡ swit) ⊎ (pkt.typ ≡ dwt)

stamped-data :
    (pkt : ItmPacket) (d : ItmDecoder) → IsData pkt → stamped pkt d ≡ (d, new_element itm_trace)
unfolding stamped
stamped-data pkt d h = elim h [ inl e ↦ rw e refl | inr e ↦ rw e refl ]

send_element-Sends :
    (t : SwtItmType) (src : ℕ) (pkt : ItmPacket) (d : ItmDecoder)
    → IsData pkt
    → d.emitter.element_sink ≡ true
    → Sends t src pkt d (send_element pkt (payload_info t src pkt (started pkt d)))
unfolding send_element take_overflow output_trace_element payload_info set_itm_info emit_element
    new_element
send_element-Sends t src pkt d h on =
    rw (stamped-data pkt (payload_info t src pkt (started pkt d)) h)
      (elim (Bool-cases d.prev_overflow) [
        | inl e ↦
            rw (e, on) (record { sent = refl; over = refl; same_config = refl; same_state = refl })
        | inr e ↦
            rw (e, on) (record { sent = refl; over = refl; same_config = refl; same_state = refl })
      ])

pub process_packet-swit :
    (pkt : ItmPacket) (d : ItmDecoder)
    → d.curr_state ≡ decode_pkts
    → d.emitter.element_sink ≡ true
    → pkt.typ ≡ swit
    → Sends swit_payload (swit_src_id pkt d) pkt d (process_packet pkt d).0
unfolding decode_typ swit_src_id
process_packet-swit pkt d s on t =
    rw (process_packet-decode_typ swit pkt d s t)
      (send_element-Sends swit_payload (swit_src_id pkt d) pkt d (inl t) on)

pub process_packet-dwt :
    (pkt : ItmPacket) (d : ItmDecoder)
    → d.curr_state ≡ decode_pkts
    → d.emitter.element_sink ≡ true
    → pkt.typ ≡ dwt
    → Sends dwt_payload pkt.src_id pkt d (process_packet pkt d).0
unfolding decode_typ
process_packet-dwt pkt d s on t =
    rw (process_packet-decode_typ dwt pkt d s t)
      (send_element-Sends dwt_payload pkt.src_id pkt d (inr t) on)

-- A number below 32 and a page below 8 are the digits of the source.
swit_src_id-page :
    (pkt : ItmPacket) (d : ItmDecoder) (page : ℕ)
    → pkt.src_id < 32
    → page < 8
    → d.stim_page ≡ page
    → swit_src_id pkt d ≡ pkt.src_id + 32 * page
unfolding swit_src_id
swit_src_id-page pkt d page h k e = ground (
  arith,
  bit_and_low 5 pkt.src_id,
  bit_or_comm pkt.src_id (page * 2 ^ 5),
  bit_or_fields 5 page pkt.src_id (omega (arith, h)),
  e,
)

-- In a decoder that decodes packets, with an observer of its elements, an extension packet for the
-- source 2, with a page below 8, and a software packet behind it, with a number below 32, send one
-- element. It has the index of the software packet and the decoder's trace id: its source is the
-- packet's number with the page above it, its value and size are those of the packet, and its flag
-- says whether an overflow was pending.
pub swit-extension :
    (d : ItmDecoder) (page pkt : ItmPacket)
    → d.curr_state ≡ decode_pkts
    → d.emitter.element_sink ≡ true
    → page.typ ≡ extension
    → page.src_id ≡ 2
    → page.value < 8
    → pkt.typ ≡ swit
    → pkt.src_id < 32
    → let d' = (process_packet pkt (process_packet page d).0).0 in
      let src = pkt.src_id + 32 * page.value in
      d'.emitter.log
      ≡ d.emitter.log
        ++ Event.element (itm_element swit_payload src (if d.prev_overflow then 1 else 0) pkt d)
          ∷ []
swit-extension d page pkt s on t src v u w =
    let paged = record (started page d) { stim_page = u8 page.value } in
    let sends = process_packet-swit pkt paged s on u in
    let num = swit_src_id-page pkt paged page.value w v (omega (arith, v)) in
    rw (page_set page d s t src, sym num) (ap (λ (o : Emitter ItmPacket). o.log) sends.sent)

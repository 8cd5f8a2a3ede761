-- ===== src/Stm/Decoder/Context.antt =====
-- A complete packet goes to the decoder without a change of the parse context.
use coresight.Prelude.{◌≡◌, refl, arith, some}
use coresight.Element.{Element, sw_trace, new_element}
use coresight.Stm.Packet.{
  StmPacket, StmPktType, not_sync, incomplete_eot, no_err_type, async, version, freq, null, trig,
  gerr, merr, m8, c8, c16, flag, d4, d8, d16, d32, d64, bad_sequence, reserved,
}
use coresight.Stm.Decoder.{
  StmDecoder, DecodeState, no_sync, wait_sync, decode_pkts, process_packet, packet_round,
  decode_packet, decode_typ, send_payload, send_element, output_trace_element,
  clear_swt_per_packet_info,
}

send_element-ctx :
    (pkt : StmPacket) (e : Element) (d : StmDecoder) → (send_element pkt e d).ctx ≡ d.ctx
unfolding send_element output_trace_element
send_element-ctx pkt e d = ground arith

send_payload-ctx : (pkt : StmPacket) (d : StmDecoder) → (send_payload pkt d).ctx ≡ d.ctx
unfolding send_payload
send_payload-ctx pkt d = send_element-ctx pkt _ _

decode_typ-ctx :
    (t : StmPktType) (pkt : StmPacket) (d : StmDecoder) → (decode_typ t pkt d).ctx ≡ d.ctx
unfolding decode_typ
decode_typ-ctx not_sync pkt d = refl
decode_typ-ctx incomplete_eot pkt d = refl
decode_typ-ctx no_err_type pkt d = refl
decode_typ-ctx async pkt d = refl
decode_typ-ctx version pkt d = refl
decode_typ-ctx freq pkt d = send_payload-ctx pkt _
decode_typ-ctx null pkt d = ground (arith, send_element-ctx pkt (new_element sw_trace) d)
decode_typ-ctx trig pkt d = send_payload-ctx pkt _
decode_typ-ctx gerr pkt d = send_payload-ctx pkt _
decode_typ-ctx merr pkt d = send_payload-ctx pkt _
decode_typ-ctx m8 pkt d = refl
decode_typ-ctx c8 pkt d = refl
decode_typ-ctx c16 pkt d = refl
decode_typ-ctx flag pkt d = send_element-ctx pkt _ _
decode_typ-ctx d4 pkt d = send_payload-ctx pkt _
decode_typ-ctx d8 pkt d = send_payload-ctx pkt _
decode_typ-ctx d16 pkt d = send_payload-ctx pkt _
decode_typ-ctx d32 pkt d = send_payload-ctx pkt _
decode_typ-ctx d64 pkt d = send_payload-ctx pkt _
decode_typ-ctx bad_sequence pkt d = refl
decode_typ-ctx reserved pkt d = refl

pub packet_round-ctx :
    (s : DecodeState) (pkt : StmPacket) (d : StmDecoder) → (packet_round s pkt d).ctx ≡ d.ctx
unfolding packet_round output_trace_element decode_packet clear_swt_per_packet_info
packet_round-ctx no_sync pkt d = ground arith
packet_round-ctx wait_sync pkt d = ground arith
packet_round-ctx decode_pkts pkt d = decode_typ-ctx pkt.typ pkt _

pub process_packet-ctx :
    (pkt : StmPacket) (d : StmDecoder) → (process_packet (some pkt) d).0.ctx ≡ d.ctx
unfolding process_packet
process_packet-ctx pkt d = packet_round-ctx d.curr_state pkt _

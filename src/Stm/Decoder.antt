-- ===== src/Stm/Decoder.antt =====
-- stm_decoder.go and stm_config.go: the decoder's state, and what a complete packet does to it.
pub mod Elements
pub mod Payloads
pub mod Context
mod Examples
use coresight.Prelude.{
  ℕ, zero, suc, ◌+◌, ◌-◌, ◌/◌, ◌%◌, ◌^◌, max, Bool, true, false, not, Option, none, some, List, [],
  ◌∷◌, take, bit_and, bit_or, shr, shl, u8, u32, if◌then◌else◌,
}
use coresight.Errors.{Error, invalid_param_val}
use coresight.Element.{
  GenElemType, no_sync as elem_no_sync, sw_trace, Element, new_element, UnsyncInfo,
  unsync_bad_packet, SwtInfo, zero_swt_info, set_timestamp, set_unsync_end_reason, set_swt_info,
  set_extended_data,
}
use coresight.Emitter.{Emitter, emit_element}
use coresight.Stm.Packet.{
  StmPacket, StmPktType, not_sync, incomplete_eot, no_err_type, async, version, freq, null, trig,
  gerr, merr, m8, c8, c16, flag, d4, d8, d16, d32, d64, bad_sequence, reserved,
}
use coresight.Stm.State.{StmParseContext}

-- stmConfig
pub record StmConfig : Type 0 where
  pub reg_tcsr : ℕ  -- uint32

unfoldable pub trace_id : StmConfig → ℕ
trace_id c = u8 (shr (bit_and c.reg_tcsr 0x007f_0000) 16)

unfoldable pub set_trace_id : ℕ → StmConfig → StmConfig
set_trace_id id c = record c {
  reg_tcsr =
      bit_or (bit_and c.reg_tcsr (2 ^ 32 - 1 - 0x007f_0000))
        (bit_and (u32 (shl id 16)) 0x007f_0000);
}

-- stmDecodeState
pub data DecodeState : Type 0 where
  no_sync wait_sync decode_pkts : DecodeState

-- stmDecoder
pub record StmDecoder : Type 0 where
  pub config : StmConfig
  pub emitter : Emitter StmPacket
  pub ctx : StmParseContext
  pub index_curr_pkt : ℕ
  pub curr_packet_in : Option StmPacket
  pub curr_state : DecodeState
  pub swt_info : SwtInfo
  pub unsync_info : UnsyncInfo
  pub is_closed : Bool

unfoldable pub output_trace_element : Element → StmDecoder → StmDecoder
unfolding emit_element
output_trace_element e d = record d {
  emitter = emit_element d.index_curr_pkt (trace_id d.config) e d.emitter;
}

unfoldable pub reset_decoder : StmDecoder → StmDecoder
reset_decoder d = record d { curr_state = no_sync; swt_info = zero_swt_info }

unfoldable pub clear_swt_per_packet_info : StmDecoder → StmDecoder
clear_swt_per_packet_info d = record d {
  swt_info = record zero_swt_info {
    master_id = d.swt_info.master_id;
    channel_id = d.swt_info.channel_id;
    id_valid = d.swt_info.id_valid;
  };
}

-- The payload width of updatePayload.
unfoldable pub payload_bits : StmPktType → ℕ
payload_bits d4 = 4
payload_bits d8 = 8
payload_bits trig = 8
payload_bits gerr = 8
payload_bits merr = 8
payload_bits d16 = 16
payload_bits d32 = 32
payload_bits freq = 32
payload_bits d64 = 64
payload_bits _ = 0

-- binary.LittleEndian.PutUint64, on n bytes
unfoldable pub le_bytes : ℕ → ℕ → List ℕ
le_bytes zero v = []
le_bytes (suc n) v = v % 256 ∷ le_bytes n (v / 256)

unfoldable pub payload_element : StmPacket → Element → Element
unfolding payload_bits le_bytes set_extended_data
payload_element pkt e =
    set_extended_data (take (max 1 (payload_bits pkt.typ / 8)) (le_bytes 8 pkt.payload)) e

unfoldable pub payload_info : StmPacket → SwtInfo → SwtInfo
unfolding payload_bits
payload_info pkt s =
    let t = record s { payload_num_packets = 1; payload_pkt_bitsize = payload_bits pkt.typ } in
    if pkt.has_marker then record t { marker_packet = true } else t

-- The end of decodePacket, when the packet is to be sent.
unfoldable pub send_element : StmPacket → Element → StmDecoder → StmDecoder
unfolding set_timestamp set_swt_info
send_element pkt e d =
    let d' =
      if pkt.has_ts
      then record d { swt_info = record (d.swt_info) { has_timestamp = true } }
      else d in
    let e' = if pkt.has_ts then set_timestamp pkt.timestamp false e else e in
    output_trace_element (set_swt_info d'.swt_info e') d'

unfoldable pub with_info : (SwtInfo → SwtInfo) → StmDecoder → StmDecoder
with_info f d = record d { swt_info = f d.swt_info }

-- updatePayload, and the sending that it asks for.
unfoldable pub send_payload : StmPacket → StmDecoder → StmDecoder
unfolding with_info payload_info payload_element
send_payload pkt d =
    send_element pkt (payload_element pkt (new_element sw_trace)) (with_info (payload_info pkt) d)

-- The switch of decodePacket.
unfoldable pub decode_typ : StmPktType → StmPacket → StmDecoder → StmDecoder
unfolding with_info reset_decoder
decode_typ bad_sequence pkt d = reset_decoder (record d { unsync_info = unsync_bad_packet })
decode_typ reserved pkt d = reset_decoder (record d { unsync_info = unsync_bad_packet })
decode_typ not_sync pkt d = reset_decoder d
decode_typ version pkt d =
    with_info (λ s. record s { master_id = pkt.master; channel_id = pkt.channel; id_valid = true })
      d
decode_typ async pkt d = d
decode_typ incomplete_eot pkt d = d
decode_typ null pkt d = if pkt.has_ts then send_element pkt (new_element sw_trace) d else d
decode_typ freq pkt d = send_payload pkt (with_info (λ s. record s { frequency = true }) d)
decode_typ trig pkt d = send_payload pkt (with_info (λ s. record s { trigger_event = true }) d)
decode_typ gerr pkt d = send_payload pkt (
    with_info
      (λ s. record s {
        master_id = pkt.master;
        channel_id = pkt.channel;
        global_err = true;
        id_valid = false;
      })
      d)
decode_typ merr pkt d =
    send_payload pkt (with_info (λ s. record s { channel_id = pkt.channel; master_err = true }) d)
decode_typ m8 pkt d =
    with_info (λ s. record s { master_id = pkt.master; channel_id = pkt.channel; id_valid = true })
      d
decode_typ c8 pkt d = with_info (λ s. record s { channel_id = pkt.channel }) d
decode_typ c16 pkt d = with_info (λ s. record s { channel_id = pkt.channel }) d
decode_typ flag pkt d =
    send_element pkt (new_element sw_trace) (with_info (λ s. record s { marker_packet = true }) d)
decode_typ d4 pkt d = send_payload pkt d
decode_typ d8 pkt d = send_payload pkt d
decode_typ d16 pkt d = send_payload pkt d
decode_typ d32 pkt d = send_payload pkt d
decode_typ d64 pkt d = send_payload pkt d
decode_typ no_err_type pkt d = d

-- decodePacket, which returns nil on every path.
unfoldable pub decode_packet : StmPacket → StmDecoder → StmDecoder
decode_packet pkt d = decode_typ pkt.typ pkt (clear_swt_per_packet_info d)

unfoldable pub is_async : StmPktType → Bool
is_async async = true
is_async _ = false

-- The rounds of processPacket's loop from the state on that it is in; none is an error.
unfoldable pub packet_round : DecodeState → StmPacket → StmDecoder → StmDecoder
unfolding is_async
packet_round no_sync pkt d =
    let e = set_unsync_end_reason d.unsync_info (new_element elem_no_sync) in
    let d' = record (output_trace_element e d) { curr_state = wait_sync } in
    if is_async pkt.typ then record d' { curr_state = decode_pkts } else d'
packet_round wait_sync pkt d = if is_async pkt.typ then record d { curr_state = decode_pkts } else d
packet_round decode_pkts pkt d = decode_packet pkt d

-- processPacket; `none` is a nil packet.
unfoldable pub process_packet : Option StmPacket → StmDecoder → StmDecoder × Option Error
process_packet none d = (d, some invalid_param_val)
process_packet (some pkt) d =
    let d' = record d { curr_packet_in = some pkt; index_curr_pkt = pkt.index } in
    (packet_round d'.curr_state pkt d', none)

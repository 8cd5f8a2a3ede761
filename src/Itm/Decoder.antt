-- ===== src/Itm/Decoder.antt =====
-- itm_decoder.go: what a complete packet does to the decoder.
use coresight.Prelude.{
  ℕ, zero, suc, ◌+◌, ◌-◌, ◌*◌, ◌^◌, min, Bool, true, false, not, ◌&&◌, Option, none, some, ◌==◌,
  ◌/=◌, bit_and, bit_or, shl, u8, u64, not64, if◌then◌else◌,
}
use coresight.Errors.{Error, bad_packet_seq}
use coresight.Element.{
  Element, new_element, no_sync as elem_no_sync, itm_trace, SwtItmType, swit_payload, dwt_payload,
  ts_sync, ts_delay, ts_pkt_delay, ts_pkt_ts_delay, ts_global, zero_swt_itm_info, set_timestamp,
  set_unsync_end_reason, set_itm_info, unsync_bad_packet, unsync_init_decoder,
}
use coresight.Emitter.{emit_element}
use coresight.Itm.Packet.{
  ItmPacket, ItmPktType, not_sync, incomplete_eot, no_err_type, async, overflow, swit, dwt,
  ts_local, ts_global1, ts_global2, extension, bad_sequence, reserved, trace_id, ts_prescale_value,
  ext_value,
}
use coresight.Itm.State.{ItmDecoder, DecodeState, decode_no_sync, decode_wait_sync, decode_pkts}

unfoldable pub output_trace_element : Element → ItmDecoder → ItmDecoder
unfolding emit_element
output_trace_element e d = record d {
  emitter = emit_element d.index_curr_pkt (trace_id d.config) e d.emitter;
}

unfoldable pub reset_decoder : ItmDecoder → ItmDecoder
reset_decoder d = record d {
  curr_state = decode_no_sync;
  local_ts_count = 0;
  global_ts = 0;
  stim_page = 0;
  need_gts2 = true;
  prev_overflow = false;
  gts_freq_change = false;
}

unfoldable pub configure_decoder : ItmDecoder → ItmDecoder
unfolding reset_decoder
configure_decoder d = reset_decoder (record d { unsync_info = unsync_init_decoder })

-- globalTSLowMasks[i]: the lowest 7, 14, 21 or 26 bits
abbrev global_ts_low_masks : ℕ → ℕ
global_ts_low_masks zero = 2 ^ 7 - 1
global_ts_low_masks (suc zero) = 2 ^ 14 - 1
global_ts_low_masks (suc (suc zero)) = 2 ^ 21 - 1
global_ts_low_masks _ = 2 ^ 26 - 1

-- globalTSHiMask
abbrev global_ts_hi_mask : ℕ
global_ts_hi_mask = not64 (2 ^ 26 - 1)

-- localTSTCTypes
abbrev local_tstc_types : ℕ → SwtItmType
local_tstc_types zero = ts_sync
local_tstc_types (suc zero) = ts_delay
local_tstc_types (suc (suc zero)) = ts_pkt_delay
local_tstc_types _ = ts_pkt_ts_delay

unfoldable pub payload_info : SwtItmType → ℕ → ItmPacket → ItmDecoder → ItmDecoder
payload_info t src pkt d = record d {
  itm_info = record (d.itm_info) {
    pkt_type = t;
    payload_size = pkt.val_sz;
    value = pkt.value;
    payload_src_id = src;
  };
}

-- The end of decodePacket: the element, with its timestamp, and the overflow that it reports.
unfoldable pub stamped : ItmPacket → ItmDecoder → ItmDecoder × Element
unfolding set_timestamp
stamped pkt d =
    let e = new_element itm_trace in
    elim pkt.typ [
      | ts_local ↦ (d, set_timestamp d.local_ts_count false e)
      | ts_global1 ↦
          (record d { gts_freq_change = false }, set_timestamp d.global_ts d.gts_freq_change e)
      | ts_global2 ↦
          (record d { gts_freq_change = false }, set_timestamp d.global_ts d.gts_freq_change e)
      | _ ↦ (d, e)
    ]

unfoldable pub take_overflow : ItmDecoder → ItmDecoder
take_overflow d =
    if d.prev_overflow
    then record d { itm_info = record (d.itm_info) { overflow = 1 }; prev_overflow = false }
    else d

unfoldable pub send_element : ItmPacket → ItmDecoder → ItmDecoder
unfolding stamped take_overflow set_itm_info output_trace_element
send_element pkt d =
    let (d1, e) = stamped pkt d in
    let d2 = take_overflow d1 in output_trace_element (set_itm_info d2.itm_info e) d2

-- The flags of a first global timestamp stay set once they are.
unfoldable pub gts1_flags : ItmPacket → ItmDecoder → ItmDecoder
gts1_flags pkt d = record d {
  need_gts2 = if not d.need_gts2 then bit_and pkt.src_id 0x2 /= 0 else d.need_gts2;
  gts_freq_change =
      if not d.gts_freq_change then bit_and pkt.src_id 0x1 /= 0 else d.gts_freq_change;
}

-- min(pktIn.ValSz-1, 3) of a uint8; the timestamp's lowest bits are replaced.
unfoldable pub gts1_value : ItmPacket → ItmDecoder → ItmDecoder
gts1_value pkt d =
    let i = min (u8 (pkt.val_sz + 2 ^ 8 - 1)) 3 in
    record d { global_ts = bit_or (bit_and d.global_ts (not64 (global_ts_low_masks i))) pkt.value }

unfoldable pub decode_gts1 : ItmPacket → ItmDecoder → ItmDecoder
unfolding gts1_flags gts1_value
decode_gts1 pkt d =
    let d' = gts1_value pkt (gts1_flags pkt d) in
    if not d'.need_gts2
    then send_element pkt (record d' { itm_info = record (d'.itm_info) { pkt_type = ts_global } })
    else d'

unfoldable pub decode_gts2 : ItmPacket → ItmDecoder → ItmDecoder
decode_gts2 pkt d = send_element pkt (record d {
  itm_info = record (d.itm_info) { pkt_type = ts_global };
  global_ts = bit_or (bit_and d.global_ts (not64 global_ts_hi_mask)) (u64 (shl (ext_value pkt) 26));
  need_gts2 = false;
})

unfoldable pub decode_local_ts : ItmPacket → ItmDecoder → ItmDecoder
decode_local_ts pkt d = send_element pkt (record d {
  itm_info = record (d.itm_info) {
    pkt_type = local_tstc_types (bit_and pkt.src_id 0x3);
    payload_size = pkt.val_sz;
    value = pkt.value;
  };
  local_ts_count = u64 (d.local_ts_count + u64 (pkt.value * ts_prescale_value d.config));
})

-- The source of a software packet: its number with the page of the stimulus ports.
unfoldable pub swit_src_id : ItmPacket → ItmDecoder → ℕ
swit_src_id pkt d = bit_or (bit_and pkt.src_id 0x1f) (u8 (shl d.stim_page 5))

unfoldable pub decode_extension : ItmPacket → ItmDecoder → ItmDecoder
decode_extension pkt d =
    if bit_and pkt.src_id 0x80 == 0 && bit_and pkt.src_id 0x1f == 2
    then record d { stim_page = u8 pkt.value }
    else d

-- The switch of decodePacket
unfoldable pub decode_typ : ItmPktType → ItmPacket → ItmDecoder → ItmDecoder × Option Error
unfolding decode_gts1 decode_gts2 decode_local_ts decode_extension payload_info swit_src_id
decode_typ bad_sequence pkt d =
    (reset_decoder (record d { unsync_info = unsync_bad_packet }), some bad_packet_seq)
decode_typ reserved pkt d =
    (reset_decoder (record d { unsync_info = unsync_bad_packet }), some bad_packet_seq)
decode_typ not_sync pkt d = (reset_decoder d, none)
decode_typ async pkt d = (d, none)
decode_typ incomplete_eot pkt d = (d, none)
decode_typ dwt pkt d = (send_element pkt (payload_info dwt_payload pkt.src_id pkt d), none)
decode_typ swit pkt d =
    (send_element pkt (payload_info swit_payload (swit_src_id pkt d) pkt d), none)
decode_typ extension pkt d = (decode_extension pkt d, none)
decode_typ overflow pkt d = (record d { local_ts_count = 0; prev_overflow = true }, none)
decode_typ ts_global1 pkt d = (decode_gts1 pkt d, none)
decode_typ ts_global2 pkt d = (decode_gts2 pkt d, none)
decode_typ ts_local pkt d = (decode_local_ts pkt d, none)
decode_typ no_err_type pkt d = (d, none)

unfoldable pub decode_packet : ItmPacket → ItmDecoder → ItmDecoder × Option Error
unfolding decode_typ
decode_packet pkt d = decode_typ pkt.typ pkt d

unfoldable pub is_async : ItmPktType → Bool
is_async async = true
is_async _ = false

-- The rounds of processPacket's loop from the state on that it is in
unfoldable pub packet_round : DecodeState → ItmPacket → ItmDecoder → ItmDecoder × Option Error
unfolding output_trace_element decode_packet
packet_round decode_no_sync pkt d =
    let e = set_unsync_end_reason d.unsync_info (new_element elem_no_sync) in
    let d' = record (output_trace_element e d) { curr_state = decode_wait_sync } in
    (if is_async pkt.typ then record d' { curr_state = decode_pkts } else d', none)
packet_round decode_wait_sync pkt d =
    (if is_async pkt.typ then record d { curr_state = decode_pkts } else d, none)
packet_round decode_pkts pkt d = decode_packet pkt d

-- processPacket, which is called with a packet on every path
unfoldable pub process_packet : ItmPacket → ItmDecoder → ItmDecoder × Option Error
unfolding packet_round
process_packet pkt d =
    let d' = record d { index_curr_pkt = pkt.index; itm_info = zero_swt_itm_info } in
    packet_round d'.curr_state pkt d'

-- ===== src/Itm/Examples.antt =====
-- The theorems on the ITM decoder at concrete packets.
use coresight.Prelude.{
  ℕ, ◌≡◌, refl, arith, [], ◌∷◌, true, false, none, some, ◌+◌, ◌*◌, inr, inl, List, ◌≢◌, ◌++◌,
}
use coresight.Emitter.{Event}
use coresight.Element.{Element, swit_payload, zero_swt_itm_info, unsync_init_decoder}
use coresight.ByteStream.{new_byte_stream}
use coresight.Itm.Packet.{
  ItmPacket, ItmPktType, reserved, no_err_type, extension, swit, dwt, overflow, set_ext_value,
  ext_value,
}
use coresight.Itm.State.{ItmDecoder, wait_sync, decode_pkts, decode_no_sync, decode_wait_sync}
use coresight.Itm.Decoder.{process_packet, is_async}
use coresight.Itm.Reads.{cont_field}
use coresight.Itm.Values.{ext_value-set_ext_value}
use coresight.Itm.Elements.{swit-extension, itm_element}
use coresight.Itm.Unsynced.{process_all, lost, process_packets-unsynced}
use coresight.Itm.Overflow.{overflow_once, Reports}
use coresight.Itm.Total.{write_all, write_all-ends}
use coresight.Itm.Continued.{groups, cont_field-groups}

abbrev packet : ItmPktType → ℕ → ℕ → ItmPacket
packet t src val = record {
  index = 0;
  typ = t;
  src_id = src;
  value = val;
  val_sz = 1;
  val_ext = 0;
  err_type = no_err_type;
}

abbrev decoder : ItmDecoder
decoder = record {
  config = record { reg_tcr = 0 };
  emitter = record {
    element_sink = true;
    packet_observer = true;
    trace_end_observer = true;
    log = [];
  };
  ctx = record {
    stream = new_byte_stream;
    process_state = wait_sync;
    proc_err_reason = none;
    curr_packet = packet reserved 0 0;
    curr_packet_index = 0;
    stream_sync = false;
    sent_not_sync_packet = false;
    sync_start = false;
    dump_unsynced_bytes = 0;
    bytes_expected = 0;
    header_byte = 0;
  };
  index_curr_pkt = 0;
  curr_state = decode_no_sync;
  itm_info = zero_swt_itm_info;
  local_ts_count = 0;
  global_ts = 0;
  stim_page = 0;
  need_gts2 = true;
  prev_overflow = false;
  gts_freq_change = false;
  unsync_info = unsync_init_decoder;
  is_closed = false;
}

abbrev decoding : ItmDecoder
decoding = record decoder { curr_state = decode_pkts }

swit-extension_example :
    let d' =
      (process_packet (packet swit 9 77) (process_packet (packet extension 2 5) decoding).0).0 in
    d'.emitter.log
    ≡ Event.element (itm_element swit_payload (9 + 32 * 5) 0 (packet swit 9 77) decoding) ∷ []
swit-extension_example =
    swit-extension decoding (packet extension 2 5) (packet swit 9 77) refl refl refl refl
      (omega arith) refl (omega arith)

process_packets-unsynced_example :
    let d' = process_all (packet swit 1 2 ∷ packet overflow 0 0 ∷ []) decoder in
    (d'.emitter.log ≡ Event.element (lost (packet swit 1 2) decoder) ∷ [])
    × (d'.curr_state ≡ decode_wait_sync)
unfolding is_async
process_packets-unsynced_example =
    process_packets-unsynced (packet swit 1 2) (packet overflow 0 0 ∷ []) decoder refl refl
      (refl, (refl, tt))

ext_value-set_ext_value_example :
    ext_value (set_ext_value 0x12_3456_789a (packet swit 0 0)) ≡ 0x12_3456_789a
ext_value-set_ext_value_example =
    ext_value-set_ext_value 0x12_3456_789a (packet swit 0 0) (omega arith)

cont_field-groups_example : cont_field 32 0 0 (groups 3 0x0abc_def1) ≡ some 0x0abc_def1
cont_field-groups_example =
    cont_field-groups 32 3 0x0abc_def1 (omega arith) (omega arith) (omega arith)

overflow_once_example :
    let d1 =
      (process_packet (packet dwt 1 2) (process_packet (packet overflow 0 0) decoding).0).0 in
    let d2 = (process_packet (packet swit 1 2) d1).0 in
    (e1 : Element) × (e2 : Element) × (d1.emitter.log ≡ Event.element e1 ∷ [])
    × (d2.emitter.log ≡ d1.emitter.log ++ Event.element e2 ∷ [])
    × Reports 1 (packet dwt 1 2) decoding.config e1
    × Reports 0 (packet swit 1 2) decoding.config e2
overflow_once_example =
    overflow_once decoding (packet overflow 0 0) (packet dwt 1 2) (packet swit 1 2) refl refl refl
      (inr refl) (inl refl)

abbrev trace : List (ℕ × List ℕ)
trace =
    (0, 0x12 ∷ 0 ∷ 0 ∷ 0 ∷ []) ∷ (4, 0 ∷ 0 ∷ 0x80 ∷ 0x01 ∷ 0x55 ∷ 0xf0 ∷ []) ∷ (10, 0x04 ∷ []) ∷ []

write_all-ends_example : write_all (λ n. n) trace decoder ≢ none
write_all-ends_example = write_all-ends (λ n. n) trace decoder (λ e. refl)

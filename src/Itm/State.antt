-- ===== src/Itm/State.antt =====
-- itm_parser.go and itm_decoder.go: the parse context and the decoder's state.
use coresight.Prelude.{ℕ, Bool, Option}
use coresight.Errors.{Error}
use coresight.Element.{SwtItmInfo, UnsyncInfo}
use coresight.Emitter.{Emitter}
use coresight.ByteStream.{ByteStream}
use coresight.Itm.Packet.{ItmPacket, ItmConfig}

-- itmProcessState
pub data ProcessState : Type 0 where
  wait_sync proc_hdr proc_data send_pkt proc_err : ProcessState

-- itmParseContext
pub record ItmParseContext : Type 0 where
  pub stream : ByteStream
  pub process_state : ProcessState
  pub proc_err_reason : Option Error
  pub curr_packet : ItmPacket
  pub curr_packet_index : ℕ
  pub stream_sync : Bool
  pub sent_not_sync_packet : Bool
  pub sync_start : Bool
  pub dump_unsynced_bytes : ℕ
  pub bytes_expected : ℕ
  pub header_byte : ℕ

-- itmDecodeState
pub data DecodeState : Type 0 where
  decode_no_sync decode_wait_sync decode_pkts : DecodeState

-- itmDecoder. `CurrPacketIn` is the packet that is passed to the functions.
pub record ItmDecoder : Type 0 where
  pub config : ItmConfig
  pub emitter : Emitter ItmPacket
  pub ctx : ItmParseContext
  pub index_curr_pkt : ℕ
  pub curr_state : DecodeState
  pub itm_info : SwtItmInfo
  pub local_ts_count : ℕ  -- uint64
  pub global_ts : ℕ  -- uint64
  pub stim_page : ℕ  -- uint8
  pub need_gts2 : Bool
  pub prev_overflow : Bool
  pub gts_freq_change : Bool
  pub unsync_info : UnsyncInfo
  pub is_closed : Bool

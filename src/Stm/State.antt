-- ===== src/Stm/State.antt =====
-- stm_parser.go: the parse context of the STM decoder. A stored method value is the method's name.
use coresight.Prelude.{ℕ, Bool, List, Option}
use coresight.Stm.Packet.{StmPacket}

-- stmProcessState
pub data ProcessState : Type 0 where
  wait_sync proc_hdr proc_data send_pkt : ProcessState

-- pktFn: the packet methods that `currFn` may hold
pub data PktFn : Type 0 where
  fn_reserved fn_null fn_m8 fn_merr fn_c8 fn_d4 fn_d8 fn_d16 fn_d32 fn_d64 : PktFn
  fn_d4_mts fn_d8_mts fn_d16_mts fn_d32_mts fn_d64_mts fn_flag_ts fn_fext : PktFn
  fn_f0_ext fn_gerr fn_c16 fn_d4_ts fn_d8_ts fn_d16_ts fn_d32_ts fn_d64_ts : PktFn
  fn_d4_m fn_d8_m fn_d16_m fn_d32_m fn_d64_m fn_flag fn_async fn_reserved_fn : PktFn
  fn_version fn_null_ts fn_trigger fn_trigger_ts fn_freq fn_reserved_f0n fn_extract_ts : PktFn

-- stmParseContext. `offset` is the field `off`, `block` the field `data`.
pub record StmParseContext : Type 0 where
  pub process_state : ProcessState
  pub block : List ℕ
  pub block_base : ℕ  -- Index, a uint64
  pub offset : ℕ
  pub curr_packet : StmPacket
  pub packet_idx : ℕ
  pub packet_data : List ℕ
  pub nibble : ℕ
  pub nibble_second : ℕ
  pub nibble_second_valid : Bool
  pub num_nibbles : ℕ  -- uint8
  pub num_data_nibbles : ℕ  -- uint8
  pub is_sync : Bool
  pub sync_start : Bool
  pub sync_high : Bool
  pub sync_low0 : Bool
  pub sync_index : ℕ
  pub num_f_nibs : ℕ  -- uint8
  pub stream_sync : Bool
  pub curr_fn : Option PktFn  -- nil before the first header
  pub needs_ts : Bool
  pub is_marker : Bool
  pub req_ts_nibbles : ℕ  -- uint8
  pub curr_ts_nibbles : ℕ  -- uint8
  pub ts_update_value : ℕ  -- uint64
  pub ts_req_set : Bool
  pub val8 : ℕ
  pub val16 : ℕ
  pub val32 : ℕ
  pub val64 : ℕ
  pub nibble_high : Bool

-- ===== src/Element.antt =====
-- trace_element.go and the parts of types.go that it uses: the decoded trace element. An enum whose
-- values the models only copy is a number, as in the source.
use coresight.Prelude.{ℕ, Bool, true, false, List, []}

-- GenElemType
pub data GenElemType : Type 0 where
  unknown no_sync trace_on eo_trace pe_context instr_range irange_nopath : GenElemType
  addr_nacc addr_unknown exception exception_ret timestamp cycle_count event : GenElemType
  sw_trace sync_marker mem_trans instrumentation itm_trace custom : GenElemType

-- UnsyncInfo
pub data UnsyncInfo : Type 0 where
  unsync_unknown unsync_init_decoder unsync_reset_decoder unsync_overflow : UnsyncInfo
  unsync_discard unsync_bad_packet unsync_bad_image unsync_eot : UnsyncInfo

pub record TraceEvent : Type 0 where
  pub ev_type : ℕ
  pub ev_number : ℕ

pub record TraceMarkerPayload : Type 0 where
  pub marker : ℕ
  pub marker_value : ℕ

pub record IteEvent : Type 0 where
  pub el : ℕ
  pub ite_value : ℕ

-- SWTItmType
pub data SwtItmType : Type 0 where
  swit_payload dwt_payload ts_sync ts_delay ts_pkt_delay ts_pkt_ts_delay ts_global : SwtItmType

-- SWTItmInfo
pub record SwtItmInfo : Type 0 where
  pub pkt_type : SwtItmType
  pub payload_src_id : ℕ
  pub payload_size : ℕ
  pub value : ℕ
  pub overflow : ℕ

-- SWTInfo of types.go
pub record SwtInfo : Type 0 where
  pub master_id : ℕ
  pub channel_id : ℕ
  pub payload_pkt_bitsize : ℕ
  pub payload_num_packets : ℕ
  pub marker_packet : Bool
  pub has_timestamp : Bool
  pub marker_first : Bool
  pub master_err : Bool
  pub global_err : Bool
  pub trigger_event : Bool
  pub frequency : Bool
  pub id_valid : Bool

-- PEContext of types.go; `exception_level` counts from ELUnknown, which is -1 there.
pub record PeContext : Type 0 where
  pub security_level : ℕ
  pub exception_level : ℕ
  pub context_id : ℕ
  pub vmid : ℕ
  pub bits64 : Bool
  pub context_id_valid : Bool
  pub vmid_valid : Bool
  pub el_valid : Bool

pub record ElementPayload : Type 0 where
  pub sw_ite : IteEvent
  pub exception_num : ℕ
  pub trace_event : TraceEvent
  pub trace_on_reason : ℕ
  pub sw_trace_info : SwtInfo
  pub num_instr_range : ℕ
  pub unsync_eot_info : UnsyncInfo
  pub sync_marker_payload : TraceMarkerPayload
  pub mem_trans_type : ℕ
  pub swt_itm : SwtItmInfo

-- Element, without the diagnostic text.
pub record Element : Type 0 where
  pub extended_data_bytes : List ℕ
  pub index : ℕ
  pub start_addr : ℕ
  pub end_addr : ℕ
  pub timestamp_value : ℕ
  pub payload : ElementPayload
  pub elem_type : GenElemType
  pub isa : ℕ
  pub cycles : ℕ
  pub last_instr_type : ℕ
  pub last_instr_subtype : ℕ
  pub context : PeContext
  pub trace_id : ℕ
  pub last_instr_size : ℕ
  pub last_instr_executed : Bool
  pub has_cycle_count : Bool
  pub cpu_freq_change : Bool
  pub exception_ret_addr : Bool
  pub exception_data_marker : Bool
  pub extended_data : Bool
  pub has_ts : Bool
  pub last_instr_cond : Bool
  pub exception_ret_addr_br_tgt : Bool
  pub exception_m_tail_chain : Bool

abbrev pub zero_swt_info : SwtInfo
zero_swt_info = record {
  master_id = 0;
  channel_id = 0;
  payload_pkt_bitsize = 0;
  payload_num_packets = 0;
  marker_packet = false;
  has_timestamp = false;
  marker_first = false;
  master_err = false;
  global_err = false;
  trigger_event = false;
  frequency = false;
  id_valid = false;
}

abbrev pub zero_swt_itm_info : SwtItmInfo
zero_swt_itm_info = record {
  pkt_type = swit_payload;
  payload_src_id = 0;
  payload_size = 0;
  value = 0;
  overflow = 0;
}

abbrev zero_payload : ElementPayload
zero_payload = record {
  sw_ite = record { el = 0; ite_value = 0 };
  exception_num = 0;
  trace_event = record { ev_type = 0; ev_number = 0 };
  trace_on_reason = 0;
  sw_trace_info = zero_swt_info;
  num_instr_range = 0;
  unsync_eot_info = unsync_unknown;
  sync_marker_payload = record { marker = 0; marker_value = 0 };
  mem_trans_type = 0;
  swt_itm = zero_swt_itm_info;
}

-- ELUnknown is not the zero value: a zero ExLevel is EL0, here 1.
abbrev zero_context : PeContext
zero_context = record {
  security_level = 0;
  exception_level = 1;
  context_id = 0;
  vmid = 0;
  bits64 = false;
  context_id_valid = false;
  vmid_valid = false;
  el_valid = false;
}

-- `Element{ElemType: t}`
unfoldable pub new_element : GenElemType → Element
new_element t = record {
  extended_data_bytes = [];
  index = 0;
  start_addr = 0;
  end_addr = 0;
  timestamp_value = 0;
  payload = zero_payload;
  elem_type = t;
  isa = 0;
  cycles = 0;
  last_instr_type = 0;
  last_instr_subtype = 0;
  context = zero_context;
  trace_id = 0;
  last_instr_size = 0;
  last_instr_executed = false;
  has_cycle_count = false;
  cpu_freq_change = false;
  exception_ret_addr = false;
  exception_data_marker = false;
  extended_data = false;
  has_ts = false;
  last_instr_cond = false;
  exception_ret_addr_br_tgt = false;
  exception_m_tail_chain = false;
}

unfoldable pub set_timestamp : ℕ → Bool → Element → Element
set_timestamp ts freq_change e = record e {
  timestamp_value = ts;
  cpu_freq_change = freq_change;
  has_ts = true;
}

unfoldable pub set_unsync_end_reason : UnsyncInfo → Element → Element
set_unsync_end_reason reason e = record e {
  payload = record (e.payload) { unsync_eot_info = reason };
}

unfoldable pub set_swt_info : SwtInfo → Element → Element
set_swt_info info e = record e { payload = record (e.payload) { sw_trace_info = info } }

unfoldable pub set_extended_data : List ℕ → Element → Element
set_extended_data bytes e = record e { extended_data = true; extended_data_bytes = bytes }

unfoldable pub set_itm_info : SwtItmInfo → Element → Element
set_itm_info info e = record e { payload = record (e.payload) { swt_itm = info } }

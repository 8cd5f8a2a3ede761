-- ===== src/Errors.antt =====
-- protocol_errors.go and memacc_mapper.go: the sentinel errors. The texts that wrap them are left out.

pub data Error : Type 0 where
  not_init invalid_param_val data_decode_fatal dfrmtr_bad_fhsync dfrmtr_unaligned : Error
  dfrmtr_bad_fsync_reset dfrmtr_bad_hsync dfrmtr_bad_fsync_start dfrmtr_odd_byte : Error
  dfrmtr_not_configured bad_packet_seq invalid_pckt_hdr pkt_interp_fail unsupported_isa : Error
  hw_cfg_unsupp mem_nacc ret_stack_overflow mem_acc_overlap mem_acc_range_invalid : Error
  mem_acc_bad_len dcd_interface_unused invalid_opcode i_range_limit_overrun : Error
  dfrmtr_incomplete_tail nil_byte_sink invalid_trace_id duplicate_trace_id : Error
  multiple_routes_non_framed no_accessor : Error

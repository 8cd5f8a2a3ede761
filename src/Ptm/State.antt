-- ===== src/Ptm/State.antt =====
-- ptm_parser.go: the type of a packet by its header, and the parse context.
use coresight.Idec.Info.{Isa, isa_unknown}
use coresight.ByteReader.{reset as reset_reader}
use coresight.ByteStream.{ByteStream}
use coresight.Prelude.{ℕ, Bool, false, bit_and, if◌then◌else◌, ◌==◌, ◌||◌}
use coresight.Ptm.Packet.{
  PtmPacket, PtmPacketType, clear, reset_state, branch_address, async, isync, trigger,
  wpoint_update, ignore, context_id, vmid, atom, timestamp, exception_ret, reserved,
}

-- headerToPacketType
unfoldable pub header_to_packet_type : ℕ → PtmPacketType
header_to_packet_type hdr =
    if bit_and hdr 0x01 == 0x01
    then branch_address
    else if bit_and hdr 0x81 == 0x80
    then atom
    else if hdr == 0x00
    then async
    else if hdr == 0x08
    then isync
    else if hdr == 0x72
    then wpoint_update
    else if hdr == 0x0c
    then trigger
    else if hdr == 0x6e
    then context_id
    else if hdr == 0x3c
    then vmid
    else if hdr == 0x42 || hdr == 0x46
    then timestamp
    else if hdr == 0x76
    then exception_ret
    else if hdr == 0x66
    then ignore
    else reserved

-- ptmProcessState
pub data PtmProcessState : Type 0 where
  wait_sync proc_hdr proc_data send_pkt : PtmProcessState

-- ptmParseContext
pub record PtmParseContext : Type 0 where
  pub stream : ByteStream
  pub process_state : PtmProcessState
  pub curr_packet : PtmPacket
  pub curr_packet_index : ℕ
  pub wait_async_so_packet : Bool
  pub async_raw_op : Bool
  pub op_not_sync_packet : Bool
  pub async0 : ℕ
  pub num_packet_bytes_req : ℕ
  pub need_cycle_count : Bool
  pub got_cycle_count : Bool
  pub got_cc_bytes : ℕ
  pub num_ctxt_id_bytes : ℕ
  pub got_ctxt_id_bytes : ℕ
  pub got_ts_bytes : Bool
  pub ts_byte_max : ℕ
  pub got_addr_bytes : Bool
  pub num_addr_bytes : ℕ
  pub got_excep_bytes : Bool
  pub num_excep_bytes : ℕ
  pub addr_packet_isa : Isa
  pub excep_alt_isa : ℕ

unfoldable pub reset_packet_state : PtmParseContext → PtmParseContext
unfolding clear
reset_packet_state c = record c {
  curr_packet = clear c.curr_packet;
  stream = record (c.stream) { reader = reset_reader c.stream.reader };
  num_packet_bytes_req = 0;
  need_cycle_count = false;
  got_cycle_count = false;
  got_cc_bytes = 0;
  num_ctxt_id_bytes = 0;
  got_ctxt_id_bytes = 0;
  got_ts_bytes = false;
  ts_byte_max = 0;
  got_addr_bytes = false;
  num_addr_bytes = 0;
  got_excep_bytes = false;
  num_excep_bytes = 0;
  addr_packet_isa = isa_unknown;
  excep_alt_isa = 0;
}

unfoldable pub reset_processor_state : PtmParseContext → PtmParseContext
unfolding reset_state reset_packet_state
reset_processor_state c = reset_packet_state (record c {
  curr_packet = reset_state c.curr_packet;
  process_state = wait_sync;
  async0 = 0;
  wait_async_so_packet = false;
  async_raw_op = false;
  op_not_sync_packet = false;
  excep_alt_isa = 0;
})

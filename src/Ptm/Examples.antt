-- ===== src/Ptm/Examples.antt =====
-- The theorem on compressed addresses at a packet.
use coresight.Idec.Info.{isa_arm}
use coresight.Ptm.Address.{address_in, received, arm_bytes, received-arm_bytes}
use coresight.Ptm.Packet.{PtmPacket, branch_address, no_error}
use coresight.Prelude.{arith, ◌≡◌, true, false, refl}

abbrev before : PtmPacket
before = record {
  index = 0;
  typ = branch_address;
  err_type = no_error;
  curr_isa = isa_arm;
  prev_isa = isa_arm;
  addr_bits = 32;
  addr_valid = true;
  addr_valid_bits = 32;
  addr_val = 0x80001234;
  context = record {
    curr_alt_isa = false;
    curr_ns = false;
    curr_hyp = false;
    updated = false;
    updated_c = false;
    updated_v = false;
    ctxt_id = 0;
    vmid_value = 0;
  };
  atoms = record { en_bits = 0; num = 0 };
  isync_reason = 0;
  cycle_count = 0;
  cc_valid = false;
  ts_value = 0;
  ts_update_bits = 0;
  exception = record { excep_type = 0; number = 0; present = false };
}

received-arm_bytes_example : address_in (received 2 (arm_bytes 2 0x80001fec) before) ≡ 0x80001fec
received-arm_bytes_example =
    received-arm_bytes 2 0x80001fec before (omega arith) (omega arith) refl (omega arith)
      (omega arith) refl

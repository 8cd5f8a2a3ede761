-- ===== src/Ptm/Packet.antt =====
-- ptm_config.go and ptm_packet.go: the configuration and the packet.
use Prim.Native.Nat.{zero}
use coresight.Idec.Info.{Isa, isa_unknown}
use coresight.Prelude.{
  [], ◌∷◌, ℕ, List, Bool, false, bit_and, shr, if◌then◌else◌, bit_or, ltb, true, suc, ◌^◌, ◌/=◌,
  leb, not64, ◌==◌, u8, ◌&&◌, ◌-◌, shl, get_or, u32,
}

-- ptmConfig
pub record PtmConfig : Type 0 where
  pub trace_id : ℕ
  pub arch_ver : ℕ
  pub core_prof : ℕ
  pub ena_branch_bcast : Bool
  pub ena_cycle_acc : Bool
  pub ena_ret_stack : Bool
  pub has_ret_stack : Bool
  pub has_ts : Bool
  pub ena_ts : Bool
  pub ts_packet64 : Bool
  pub ts_bin_enc : Bool
  pub ctxt_id_bytes : ℕ
  pub has_virt_ext : Bool
  pub ena_vmid : Bool
  pub dmsb_gen_ts : Bool
  pub dmsb_way_pt : Bool

abbrev bit_set : ℕ → ℕ → Bool
bit_set v k = bit_and v (2 ^ k) /= 0

-- ctxtIDByteSizes
abbrev ctxt_id_byte_sizes : List ℕ
ctxt_id_byte_sizes = 0 ∷ 1 ∷ 2 ∷ 4 ∷ []

-- ptmParseConfig
unfoldable pub ptm_parse_config : (trace_id idr ctrl ccer arch prof : ℕ) → PtmConfig
ptm_parse_config trace_id idr ctrl ccer arch prof =
    let post_minor0 = shr (bit_and idr 0xf0) 4 /= 0 in
    record {
      trace_id = bit_and trace_id 0x7f;
      arch_ver = arch;
      core_prof = prof;
      ena_branch_bcast = bit_set ctrl 8;
      ena_cycle_acc = bit_set ctrl 12;
      ena_ret_stack = bit_set ctrl 29;
      has_ret_stack = bit_set ccer 23;
      has_ts = bit_set ccer 22;
      ena_ts = bit_set ctrl 28;
      ts_packet64 = post_minor0 && bit_set ccer 29;
      ts_bin_enc = post_minor0 && bit_set ccer 28;
      ctxt_id_bytes = get_or ctxt_id_byte_sizes (bit_and (shr ctrl 14) 0x3) 0;
      has_virt_ext = bit_set ccer 26;
      ena_vmid = bit_set ctrl 30;
      dmsb_gen_ts = bit_set ccer 25;
      dmsb_way_pt = bit_set ccer 24;
    }

-- ptmPacketType
pub data PtmPacketType : Type 0 where
  not_sync incomplete_eot no_error branch_address async isync trigger wpoint_update : PtmPacketType
  ignore context_id vmid atom timestamp exception_ret branch_or_bypass_eot : PtmPacketType
  tpiu_pad_eob bad_sequence reserved : PtmPacketType

-- ptmContext
pub record PtmContext : Type 0 where
  pub curr_alt_isa : Bool
  pub curr_ns : Bool
  pub curr_hyp : Bool
  pub updated : Bool
  pub updated_c : Bool
  pub updated_v : Bool
  pub ctxt_id : ℕ
  pub vmid_value : ℕ

-- ptmExcep; an exception's type is its number in armV7Exception.
pub record PtmExcep : Type 0 where
  pub excep_type : ℕ
  pub number : ℕ
  pub present : Bool

-- ptmAtomPkt
pub record PtmAtom : Type 0 where
  pub en_bits : ℕ
  pub num : ℕ

-- ptmPacket
pub record PtmPacket : Type 0 where
  pub index : ℕ
  pub typ : PtmPacketType
  pub err_type : PtmPacketType
  pub curr_isa : Isa
  pub prev_isa : Isa
  pub addr_bits : ℕ
  pub addr_valid : Bool
  pub addr_valid_bits : ℕ
  pub addr_val : ℕ
  pub context : PtmContext
  pub atoms : PtmAtom
  pub isync_reason : ℕ
  pub cycle_count : ℕ
  pub cc_valid : Bool
  pub ts_value : ℕ
  pub ts_update_bits : ℕ
  pub exception : PtmExcep

unfoldable pub clear : PtmPacket → PtmPacket
clear p = record p {
  err_type = no_error;
  cycle_count = 0;
  cc_valid = false;
  context = record (p.context) { updated = false; updated_c = false; updated_v = false };
  ts_update_bits = 0;
  atoms = record (p.atoms) { en_bits = 0 };
  exception = record (p.exception) { present = false };
  prev_isa = p.curr_isa;
}

unfoldable pub reset_state : PtmPacket → PtmPacket
unfolding clear
reset_state p = clear (record p {
  typ = not_sync;
  context = record (p.context) {
    ctxt_id = 0;
    vmid_value = 0;
    curr_alt_isa = false;
    curr_hyp = false;
    curr_ns = false;
  };
  addr_bits = 0;
  addr_valid = false;
  addr_valid_bits = 0;
  addr_val = 0;
  prev_isa = isa_unknown;
  curr_isa = isa_unknown;
  ts_value = 0;
})

unfoldable pub set_err_type : PtmPacketType → PtmPacket → PtmPacket
set_err_type t p = record p { err_type = p.typ; typ = t }

unfoldable pub ptm_mask_bits64 : ℕ → ℕ
ptm_mask_bits64 bits = if leb 64 bits then 2 ^ 64 - 1 else 2 ^ bits - 1

-- A value whose bits under a mask are replaced
unfoldable pub merge_bits : (mask old part : ℕ) → ℕ
merge_bits mask old part = bit_or (bit_and old (not64 mask)) (bit_and part mask)

unfoldable pub update_address : (part update_bits : ℕ) → PtmPacket → PtmPacket
unfolding ptm_mask_bits64 merge_bits
update_address part update_bits p = record p {
  addr_bits = update_bits;
  addr_val = merge_bits (ptm_mask_bits64 update_bits) p.addr_val part;
  addr_valid = ltb 0 update_bits;
  addr_valid_bits = if ltb p.addr_valid_bits update_bits then update_bits else p.addr_valid_bits;
}

unfoldable pub update_context_id : ℕ → PtmPacket → PtmPacket
update_context_id v p = record p { context = record (p.context) { ctxt_id = v; updated_c = true } }

unfoldable pub update_vmid : ℕ → PtmPacket → PtmPacket
update_vmid v p = record p { context = record (p.context) { vmid_value = v; updated_v = true } }

unfoldable pub update_isa : Isa → PtmPacket → PtmPacket
update_isa i p = record p { prev_isa = p.curr_isa; curr_isa = i }

unfoldable pub set_exception : (ex_type ex_num : ℕ) → PtmPacket → PtmPacket
set_exception ex_type ex_num p = record p {
  exception = record { excep_type = ex_type; number = ex_num; present = true };
}

unfoldable pub update_timestamp : (ts_val update_bits : ℕ) → PtmPacket → PtmPacket
unfolding ptm_mask_bits64 merge_bits
update_timestamp ts_val update_bits p = record p {
  ts_value = merge_bits (ptm_mask_bits64 update_bits) p.ts_value ts_val;
  ts_update_bits = update_bits;
}

unfoldable pub set_cycle_acc_atom_from_p_hdr : ℕ → PtmPacket → PtmPacket
set_cycle_acc_atom_from_p_hdr hdr p = record p {
  atoms = record { num = 1; en_bits = if bit_and hdr 0x2 /= 0 then 0 else 1 };
}

-- The number of atoms in a header
unfoldable pub atom_count : ℕ → ℕ
atom_count hdr =
    if bit_and hdr 0xf0 == 0x80
    then if bit_and hdr 0x08 == 0x08 then 2 else 1
    else if bit_and hdr 0xf0 == 0x90
    then 3
    else if bit_and hdr 0xe0 == 0xa0
    then 4
    else 5

-- The loop over the atoms; the first one becomes the highest bit.
unfoldable pub atom_bits : (rounds mask bits hdr : ℕ) → ℕ
atom_bits zero mask bits hdr = bits
atom_bits (suc n) mask bits hdr =
    atom_bits n (u8 (shl mask 1))
      (bit_or (u32 (shl bits 1)) (if bit_and mask hdr == 0 then 1 else 0)) hdr

unfoldable pub set_atom_from_p_hdr : ℕ → PtmPacket → PtmPacket
unfolding atom_count atom_bits
set_atom_from_p_hdr hdr p = record p {
  atoms = record { num = atom_count hdr; en_bits = atom_bits (atom_count hdr) 0x2 0 hdr };
}

unfoldable pub is_bad_packet : PtmPacketType → Bool
is_bad_packet bad_sequence = true
is_bad_packet reserved = true
is_bad_packet _ = false

-- ===== src/Idec/Info.antt =====
-- protocol_types.go, types.go and idec_arminst.go: the description of an instruction that the
-- decoder reads and fills in, and the machine arithmetic of branch offsets.
use coresight.Prelude.{ℕ, ◌+◌, ◌-◌, ◌^◌, Bool, false, leb, ltb, shr, if◌then◌else◌}

-- ISA
pub data Isa : Type 0 where
  isa_arm isa_thumb2 isa_aarch64 isa_tee isa_jazelle isa_custom isa_unknown : Isa

-- InstrType
pub data InstrType : Type 0 where
  instr_other instr_br instr_br_indirect instr_isb instr_dsb_dmb instr_wfi_wfe instr_tstart :
      InstrType

-- InstrSubtype
pub data InstrSubtype : Type 0 where
  s_instr_none s_instr_br_link s_instr_v8_ret s_instr_v8_eret s_instr_v7_implied_ret : InstrSubtype

abbrev pub arch_v8r3 : ℕ
arch_v8r3 = 0x0803

abbrev pub arch_aa64 : ℕ
arch_aa64 = 0x0864

-- archProfile
pub record ArchProfile : Type 0 where
  pub arch : ℕ
  pub profile : ℕ

unfoldable pub is_arch_min_ver : ℕ → ℕ → Bool
is_arch_min_ver arch min_arch = leb min_arch arch

-- instrInfo. Fields: `typ` is `Type`.
pub record InstrInfo : Type 0 where
  pub pe_type : ArchProfile
  pub isa : Isa
  pub instr_addr : ℕ
  pub opcode : ℕ  -- uint32
  pub dsb_dmb_waypoints : ℕ
  pub wfi_wfe_branch : ℕ
  pub track_it_block : ℕ
  pub typ : InstrType
  pub branch_addr : ℕ
  pub next_isa : Isa
  pub instr_size : ℕ
  pub is_conditional : Bool
  pub is_link : Bool
  pub thumb_it_conditions : ℕ
  pub subtype : InstrSubtype

-- instrInfo{}
abbrev pub zero_instr_info : InstrInfo
zero_instr_info = record {
  pe_type = record { arch = 0; profile = 0 };
  isa = isa_arm;
  instr_addr = 0;
  opcode = 0;
  dsb_dmb_waypoints = 0;
  wfi_wfe_branch = 0;
  track_it_block = 0;
  typ = instr_other;
  branch_addr = 0;
  next_isa = isa_arm;
  instr_size = 0;
  is_conditional = false;
  is_link = false;
  thumb_it_conditions = 0;
  subtype = s_instr_none;
}

-- decodeInfo
pub record DecodeInfo : Type 0 where
  pub arch_version : ℕ
  pub instr_sub_type : InstrSubtype

abbrev pub with_sub_type : InstrSubtype → DecodeInfo → DecodeInfo
with_sub_type s info = record info { instr_sub_type = s }

-- uint32(int32(v) >> k) for a uint32 v and k below 32
unfoldable pub sar32 : ℕ → ℕ → ℕ
sar32 v k = if ltb v (2 ^ 31) then shr v k else shr v k + (2 ^ 32 - 2 ^ (32 - k))

-- uint64(int64(int32(v))) for a uint32 v
unfoldable pub sign_extend64 : ℕ → ℕ
sign_extend64 v = if ltb v (2 ^ 31) then v else v + (2 ^ 64 - 2 ^ 32)

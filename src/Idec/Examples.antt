-- ===== src/Idec/Examples.antt =====
-- idec_decoder.go and idec_arminst.go: the theorems at single opcodes.
use coresight.Idec.Links.{is_call, is_branch, decode_instruction-link}
use coresight.Idec.Branches.{is_some, direct_branch-destination}
use coresight.Prelude.{◌≡◌, some, false, refl}
use coresight.Idec.A64.{inst_a64_branch_destination, inst_a64_is_direct_branch_link}
use coresight.Idec.T32.{inst_thumb_is_direct_branch_link, inst_thumb_branch_destination}
use coresight.Idec.Decode.{decode_instruction}
use coresight.Idec.A32.{inst_arm_is_direct_branch, inst_arm_branch_destination}
use coresight.Idec.Targets.{a64_offset_field, inst_a64_branch_destination-target}
use coresight.Idec.Info.{
  DecodeInfo, InstrInfo, s_instr_none, zero_instr_info, isa_aarch64, isa_thumb2,
}

abbrev no_info : DecodeInfo
no_info = record { arch_version = 0x0800; instr_sub_type = s_instr_none }

-- b .-4 at 0x1000
inst_a64_branch_destination-target_example :
    inst_a64_branch_destination 0x1000 0x17ffffff ≡ some 0xffc
unfolding a64_offset_field
inst_a64_branch_destination-target_example = inst_a64_branch_destination-target 0x1000 0x17ffffff

-- The opcode of bl .-8 in A32, which is none of T32's or A64's direct branches
direct_branch-destination_example :
    (inst_arm_is_direct_branch 0xebfffffc ≡ (inst_arm_branch_destination 0x8000 0xebfffffc).1)
    × ((inst_thumb_is_direct_branch_link 0xebfffffc no_info).0
        ≡ (inst_thumb_branch_destination 0x8000 0xebfffffc).1)
    × ((inst_a64_is_direct_branch_link 0xebfffffc no_info).0
        ≡ is_some (inst_a64_branch_destination 0x8000 0xebfffffc))
direct_branch-destination_example = direct_branch-destination 0x8000 0xebfffffc no_info

-- bl .+4 in A64
abbrev call : InstrInfo
call = record zero_instr_info { isa = isa_aarch64; instr_addr = 0x1000; opcode = 0x94000001 }

decode_instruction-link_example :
    ((decode_instruction call).0.is_link ≡ is_call (decode_instruction call).0.subtype)
    × (is_branch (decode_instruction call).0.typ ≡ false
        → (decode_instruction call).0.is_link ≡ false)
unfolding decode_instruction
decode_instruction-link_example = decode_instruction-link call refl

-- ittt eq, then three instructions of which the last is bx lr
abbrev thumb : InstrInfo
thumb = record zero_instr_info { isa = isa_thumb2; track_it_block = 1 }

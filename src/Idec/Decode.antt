-- ===== src/Idec/Decode.antt =====
-- idec_decoder.go: the decoding of an instruction.
use coresight.Prelude.{
  ℕ, ◌-◌, Bool, true, false, ◌&&◌, Option, none, some, bit_and, bit_or, ◌==◌, ◌/=◌, ltb, shr, shl,
  u8, u16, u32, if◌then◌else◌,
}
use coresight.Errors.{Error, unsupported_isa}
use coresight.Idec.Info.{
  arch_aa64, is_arch_min_ver, InstrInfo, DecodeInfo, isa_arm, isa_thumb2, isa_aarch64, instr_other,
  instr_br, instr_br_indirect, instr_isb, instr_dsb_dmb, instr_wfi_wfe, instr_tstart, s_instr_none,
}
use coresight.Idec.Barriers.{
  ArmBarrier, inst_arm_barrier, inst_thumb_barrier, inst_a64_barrier, barrier_none, barrier_isb,
  barrier_dmb, barrier_dsb,
}
use coresight.Idec.A32.{
  inst_arm_is_direct_branch, inst_arm_wfi_wfe, inst_arm_is_indirect_branch,
  inst_arm_branch_destination, inst_arm_is_branch_and_link, inst_arm_is_conditional,
}
use coresight.Idec.T32.{
  is_wide_thumb, inst_thumb_is_direct_branch_link, inst_thumb_wfi_wfe,
  inst_thumb_is_indirect_branch_link, inst_thumb_branch_destination, inst_thumb_is_conditional,
  inst_thumb_is_it,
}
use coresight.Idec.A64.{
  inst_a64_is_direct_branch_link, inst_a64_wfi_wfe, inst_a64_tstart,
  inst_a64_is_indirect_branch_link, inst_a64_branch_destination, inst_a64_is_conditional,
}

-- What is decoded, with the additional information
abbrev pub Decoding : Type 0
Decoding = InstrInfo × DecodeInfo

unfoldable pub reset_instr_info : InstrInfo → InstrInfo
reset_instr_info d = record d {
  typ = instr_other;
  next_isa = d.isa;
  is_link = false;
  is_conditional = false;
}

-- The result tells whether there was a barrier.
unfoldable pub apply_barrier : InstrInfo → ArmBarrier → InstrInfo × Bool
apply_barrier d barrier_isb = (record d { typ = instr_isb }, true)
apply_barrier d barrier_dsb =
    (if d.dsb_dmb_waypoints /= 0 then record d { typ = instr_dsb_dmb } else d, true)
apply_barrier d barrier_dmb =
    (if d.dsb_dmb_waypoints /= 0 then record d { typ = instr_dsb_dmb } else d, true)
apply_barrier d barrier_none = (d, false)

unfoldable pub canonical_thumb_opcode : ℕ → ℕ
canonical_thumb_opcode opcode =
    bit_or (bit_and (shr opcode 16) 0xffff) (u32 (shl (bit_and opcode 0xffff) 16))

unfoldable pub set_thumb_instr_size : InstrInfo → InstrInfo
set_thumb_instr_size d = record d {
  instr_size = if is_wide_thumb (u16 (shr d.opcode 16)) then 4 else 2;
}

-- The next cases of a switch, if the first one does not apply
abbrev pub or_else : Decoding × Bool → (Decoding → Decoding) → Decoding
or_else (r, true) f = r
or_else (r, false) f = f r

-- The cases of the switches behind the branches: barriers, then WFI and WFE
abbrev pub barrier_or : ArmBarrier → (InstrInfo → InstrInfo) → InstrInfo → InstrInfo
barrier_or b f d = let (d', found) = apply_barrier d b in if found then d' else f d

abbrev pub wfi_wfe_or : Bool → (InstrInfo → InstrInfo) → InstrInfo → InstrInfo
wfi_wfe_or b f d = if d.wfi_wfe_branch /= 0 && b then record d { typ = instr_wfi_wfe } else f d

-- decodeA32 and decodeA64 begin so.
abbrev pub start_wide : InstrInfo → InstrInfo
start_wide d = record (reset_instr_info d) { instr_size = 4; thumb_it_conditions = 0 }

unfoldable pub a32_indirect : InstrInfo → DecodeInfo → Decoding
a32_indirect d info =
    let (link, i) = inst_arm_is_branch_and_link d.opcode info in
    (record d { typ = instr_br_indirect; is_link = link }, i)

unfoldable pub a32_direct : InstrInfo → DecodeInfo → Decoding
a32_direct d info =
    let dest = (inst_arm_branch_destination (u32 d.instr_addr) d.opcode).0 in
    let (link, i) = inst_arm_is_branch_and_link d.opcode info in
    let thumb = bit_and dest 0x1 /= 0 in
    (
      record d {
        typ = instr_br;
        next_isa = if thumb then isa_thumb2 else d.next_isa;
        branch_addr = if thumb then bit_and dest 0xfffffffe else dest;
        is_link = link;
      },
      i,
    )

-- The cases of decodeA32 behind the indirect branches
unfoldable pub a32_other : Decoding → Decoding
a32_other (d, info) = if inst_arm_is_direct_branch d.opcode then a32_direct d info else (
  barrier_or (inst_arm_barrier d.opcode) (wfi_wfe_or (inst_arm_wfi_wfe d.opcode) (λ x. x)) d,
  info,
)

unfoldable pub a32_switch : InstrInfo → DecodeInfo → Decoding
a32_switch d info =
    let (indirect, i) = inst_arm_is_indirect_branch d.opcode info in
    if indirect then a32_indirect d i else a32_other (d, i)

unfoldable pub decode_a32 : InstrInfo → DecodeInfo → Decoding
decode_a32 d info =
    let (r, i) = a32_switch (start_wide d) info in
    (record r { is_conditional = inst_arm_is_conditional r.opcode }, i)

unfoldable pub decode_a64_indirect_branch : InstrInfo → DecodeInfo → Decoding × Bool
decode_a64_indirect_branch d info =
    let (branch, link, i) = inst_a64_is_indirect_branch_link d.opcode info in
    if branch
    then ((record d { typ = instr_br_indirect; is_link = link }, i), true)
    else ((d, i), false)

-- branchAddr keeps its value 0 when there is no destination.
abbrev pub dest_or_zero : Option ℕ → ℕ
dest_or_zero none = 0
dest_or_zero (some a) = a

unfoldable pub decode_a64_direct_branch : InstrInfo → DecodeInfo → Decoding × Bool
decode_a64_direct_branch d info =
    let (branch, link, i) = inst_a64_is_direct_branch_link d.opcode info in
    let dest = dest_or_zero (inst_a64_branch_destination d.instr_addr d.opcode) in
    if branch
    then ((record d { typ = instr_br; branch_addr = dest; is_link = link }, i), true)
    else ((d, i), false)

abbrev pub tstart_if : Bool → InstrInfo → InstrInfo
tstart_if b d = if b then record d { typ = instr_tstart } else d

-- The cases of decodeA64 behind the branches
unfoldable pub a64_other : Decoding → Decoding
a64_other (d, info) = (
  barrier_or (inst_a64_barrier d.opcode)
      (wfi_wfe_or (inst_a64_wfi_wfe d.opcode info)
        (tstart_if (is_arch_min_ver info.arch_version arch_aa64 && inst_a64_tstart d.opcode)))
      d,
  info,
)

unfoldable pub a64_switch : InstrInfo → DecodeInfo → Decoding
a64_switch d info =
    or_else (decode_a64_indirect_branch d info)
      (λ r. or_else (decode_a64_direct_branch r.0 r.1) a64_other)

unfoldable pub decode_a64 : InstrInfo → DecodeInfo → Decoding
decode_a64 d info =
    let (r, i) = a64_switch (start_wide d) info in
    (record r { is_conditional = inst_a64_is_conditional r.opcode }, i)

unfoldable pub decode_t32_direct_branch : InstrInfo → DecodeInfo → Decoding × Bool
decode_t32_direct_branch d info =
    let (branch, link, cond, i) = inst_thumb_is_direct_branch_link d.opcode info in
    let dest = (inst_thumb_branch_destination (u32 d.instr_addr) d.opcode).0 in
    if branch
    then (
      (
        record d {
          typ = instr_br;
          branch_addr = bit_and dest 0xfffffffe;
          is_link = link;
          is_conditional = cond;
          next_isa = if bit_and dest 0x1 == 0 then isa_arm else d.next_isa;
        },
        i,
      ),
      true,
    )
    else ((d, i), false)

unfoldable pub decode_t32_indirect_branch : InstrInfo → DecodeInfo → Decoding × Bool
decode_t32_indirect_branch d info =
    let (branch, link, i) = inst_thumb_is_indirect_branch_link d.opcode info in
    if branch
    then ((record d { typ = instr_br_indirect; is_link = link }, i), true)
    else ((d, i), false)

-- updateThumbITBlock
unfoldable pub update_thumb_it_block : InstrInfo → InstrInfo
update_thumb_it_block d =
    if d.track_it_block == 0
    then d
    else if ltb 0 d.thumb_it_conditions
    then record d { is_conditional = true; thumb_it_conditions = d.thumb_it_conditions - 1 }
    else elim d.typ [
      | instr_other ↦ record d { thumb_it_conditions = u8 (inst_thumb_is_it d.opcode) }
      | _ ↦ d
    ]

-- The beginning of decodeT32
unfoldable pub start_thumb : InstrInfo → InstrInfo
start_thumb d =
    set_thumb_instr_size (reset_instr_info (record d { opcode = canonical_thumb_opcode d.opcode }))

-- The cases of decodeT32 behind the branches
unfoldable pub t32_other : Decoding → Decoding
t32_other (d, info) = (
  barrier_or (inst_thumb_barrier d.opcode) (wfi_wfe_or (inst_thumb_wfi_wfe d.opcode) (λ x. x)) d,
  info,
)

unfoldable pub t32_switch : InstrInfo → DecodeInfo → Decoding
t32_switch d info =
    or_else (decode_t32_direct_branch d info)
      (λ r. or_else (decode_t32_indirect_branch r.0 r.1) t32_other)

-- decodeT32 up to the update of the IT block
unfoldable pub classify_t32 : InstrInfo → DecodeInfo → Decoding
classify_t32 d info =
    let (r, i) = t32_switch (start_thumb d) info in
    (if inst_thumb_is_conditional r.opcode then record r { is_conditional = true } else r, i)

unfoldable pub decode_t32 : InstrInfo → DecodeInfo → Decoding
decode_t32 d info = let (r, k) = classify_t32 d info in (update_thumb_it_block r, k)

-- The error, if there is one
unfoldable pub decode_instruction : InstrInfo → InstrInfo × Option Error
decode_instruction d =
    let info : DecodeInfo = record {
      arch_version = d.pe_type.arch;
      instr_sub_type = s_instr_none;
    } in
    let finish : Decoding → InstrInfo × Option Error =
      λ r. (record (r.0) { subtype = r.1.instr_sub_type }, none) in
    elim d.isa [
      | isa_arm ↦ finish (decode_a32 d info)
      | isa_thumb2 ↦ finish (decode_t32 d info)
      | isa_aarch64 ↦ finish (decode_a64 d info)
      | _ ↦ (record d { subtype = s_instr_none }, some unsupported_isa)
    ]

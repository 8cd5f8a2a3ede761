-- ===== src/Idec/Links.antt =====
-- idec_decoder.go: the link flag and the subtype that the decoder reports.
use coresight.Idec.Barriers.{
  ArmBarrier, barrier_none, barrier_isb, inst_a64_barrier, inst_thumb_barrier, barrier_dmb,
  inst_arm_barrier, barrier_dsb,
}
use coresight.Idec.Decode.{
  Decoding, apply_barrier, decode_a64_indirect_branch, or_else, barrier_or, wfi_wfe_or,
  decode_a64_direct_branch, decode_t32_direct_branch, decode_t32_indirect_branch, a64_other,
  a64_switch, t32_other, t32_switch, a32_other, a32_switch, a32_direct, a32_indirect, tstart_if,
  decode_a32, decode_a64, update_thumb_it_block, decode_t32, decode_instruction, reset_instr_info,
  classify_t32, start_wide, start_thumb, set_thumb_instr_size,
}
use coresight.Prelude.{Bool, ℕ, true, false, ◌≡◌, arith, refl, none, ◌&&◌}
use coresight.Idec.A64.{
  inst_a64_is_direct_branch_link, inst_a64_is_indirect_branch_link, pointer_auth_branch,
  inst_a64_wfi_wfe, inst_a64_tstart,
}
use coresight.Idec.T32.{
  inst_thumb_is_direct_branch_link, inst_thumb_is_indirect_branch_link, inst_thumb_wfi_wfe,
}
use coresight.Idec.A32.{inst_arm_is_branch_and_link, inst_arm_is_indirect_branch, inst_arm_wfi_wfe}
use coresight.Idec.Info.{
  InstrSubtype, DecodeInfo, s_instr_br_link, InstrType, instr_br, InstrInfo, instr_br_indirect,
  is_arch_min_ver, arch_aa64, s_instr_none,
}

-- What a branch test leaves: the flag of a link is set exactly with the subtype of a call.
abbrev pub is_call : InstrSubtype → Bool
is_call s_instr_br_link = true
is_call _ = false

a32_link :
    (inst : ℕ) (info : DecodeInfo)
    → is_call info.instr_sub_type ≡ false
    → (inst_arm_is_branch_and_link inst info).0
      ≡ is_call (inst_arm_is_branch_and_link inst info).1.instr_sub_type
unfolding inst_arm_is_branch_and_link
a32_link inst info h = ground arith

a32_indirect_no_call :
    (inst : ℕ) (info : DecodeInfo)
    → is_call info.instr_sub_type ≡ false
    → is_call (inst_arm_is_indirect_branch inst info).1.instr_sub_type ≡ false
unfolding inst_arm_is_indirect_branch
a32_indirect_no_call inst info h = ground arith

t32_direct_link :
    (inst : ℕ) (info : DecodeInfo)
    → is_call info.instr_sub_type ≡ false
    → let r = inst_thumb_is_direct_branch_link inst info in
      (r.1 ≡ is_call r.3.instr_sub_type) × (r.0 ≡ false → r.1 ≡ false)
unfolding inst_thumb_is_direct_branch_link
t32_direct_link inst info h = ground arith

t32_indirect_link :
    (inst : ℕ) (info : DecodeInfo)
    → is_call info.instr_sub_type ≡ false
    → let r = inst_thumb_is_indirect_branch_link inst info in
      (r.1 ≡ is_call r.2.instr_sub_type) × (r.0 ≡ false → r.1 ≡ false)
unfolding inst_thumb_is_indirect_branch_link
t32_indirect_link inst info h = ground arith

a64_direct_link :
    (inst : ℕ) (info : DecodeInfo)
    → is_call info.instr_sub_type ≡ false
    → let r = inst_a64_is_direct_branch_link inst info in
      (r.1 ≡ is_call r.2.instr_sub_type) × (r.0 ≡ false → r.1 ≡ false)
unfolding inst_a64_is_direct_branch_link
a64_direct_link inst info h = ground arith

a64_indirect_link :
    (inst : ℕ) (info : DecodeInfo)
    → is_call info.instr_sub_type ≡ false
    → let r = inst_a64_is_indirect_branch_link inst info in
      (r.1 ≡ is_call r.2.instr_sub_type) × (r.0 ≡ false → r.1 ≡ false)
unfolding inst_a64_is_indirect_branch_link pointer_auth_branch
a64_indirect_link inst info h = ground arith

abbrev pub is_branch : InstrType → Bool
is_branch instr_br = true
is_branch instr_br_indirect = true
is_branch _ = false

-- A link is a branch with the subtype of a call, and nothing else has that subtype.
abbrev Linked : Decoding → Type 0
Linked (d, info) =
    (d.is_link ≡ is_call info.instr_sub_type) × (is_branch d.typ ≡ false → d.is_link ≡ false)

abbrev Unlinked : Decoding → Type 0
Unlinked (d, info) = (d.is_link ≡ false) × (is_call info.instr_sub_type ≡ false)

or_else-Linked :
    (r : Decoding × Bool) (f : Decoding → Decoding)
    → Linked r.0 × (r.1 ≡ false → Unlinked r.0)
    → ((s : Decoding) → Unlinked s → Linked (f s))
    → Linked (or_else r f)
or_else-Linked (s, true) f h k = h.0
or_else-Linked (s, false) f h k = k s (h.1 refl)

other-Linked :
    (b : ArmBarrier) (w : Bool) (f : InstrInfo → InstrInfo) (d : InstrInfo) (info : DecodeInfo)
    → Unlinked (d, info)
    → (f d).is_link ≡ false
    → Linked (barrier_or b (wfi_wfe_or w f) d, info)
unfolding apply_barrier
other-Linked barrier_none w f d info h k = ground arith
other-Linked barrier_isb w f d info h k = ground arith
other-Linked barrier_dmb w f d info h k = ground arith
other-Linked barrier_dsb w f d info h k = ground arith

a64_indirect-Linked :
    (d : InstrInfo) (info : DecodeInfo)
    → Unlinked (d, info)
    → let r = decode_a64_indirect_branch d info in Linked r.0 × (r.1 ≡ false → Unlinked r.0)
unfolding decode_a64_indirect_branch
a64_indirect-Linked d info h = ground (arith, a64_indirect_link d.opcode info h.1)

a64_direct-Linked :
    (d : InstrInfo) (info : DecodeInfo)
    → Unlinked (d, info)
    → let r = decode_a64_direct_branch d info in Linked r.0 × (r.1 ≡ false → Unlinked r.0)
unfolding decode_a64_direct_branch
a64_direct-Linked d info h = ground (arith, a64_direct_link d.opcode info h.1)

t32_direct-Linked :
    (d : InstrInfo) (info : DecodeInfo)
    → Unlinked (d, info)
    → let r = decode_t32_direct_branch d info in Linked r.0 × (r.1 ≡ false → Unlinked r.0)
unfolding decode_t32_direct_branch
t32_direct-Linked d info h = ground (arith, t32_direct_link d.opcode info h.1)

t32_indirect-Linked :
    (d : InstrInfo) (info : DecodeInfo)
    → Unlinked (d, info)
    → let r = decode_t32_indirect_branch d info in Linked r.0 × (r.1 ≡ false → Unlinked r.0)
unfolding decode_t32_indirect_branch
t32_indirect-Linked d info h = ground (arith, t32_indirect_link d.opcode info h.1)

a64_other-Linked : (s : Decoding) → Unlinked s → Linked (a64_other s)
unfolding a64_other
a64_other-Linked (d, info) h =
    other-Linked (inst_a64_barrier d.opcode) (inst_a64_wfi_wfe d.opcode info)
      (λ x. tstart_if (is_arch_min_ver info.arch_version arch_aa64 && inst_a64_tstart d.opcode) x) d
      info h (ground arith)

a64_switch-Linked :
    (d : InstrInfo) (info : DecodeInfo) → Unlinked (d, info) → Linked (a64_switch d info)
unfolding a64_switch
a64_switch-Linked d info h =
    or_else-Linked (decode_a64_indirect_branch d info)
      (λ r. or_else (decode_a64_direct_branch r.0 r.1) a64_other) (a64_indirect-Linked d info h)
      (λ r u.
        or_else-Linked (decode_a64_direct_branch r.0 r.1) a64_other (a64_direct-Linked r.0 r.1 u)
          a64_other-Linked)

t32_other-Linked : (s : Decoding) → Unlinked s → Linked (t32_other s)
unfolding t32_other
t32_other-Linked (d, info) h =
    other-Linked (inst_thumb_barrier d.opcode) (inst_thumb_wfi_wfe d.opcode) (λ x. x) d info h h.0

t32_switch-Linked :
    (d : InstrInfo) (info : DecodeInfo) → Unlinked (d, info) → Linked (t32_switch d info)
unfolding t32_switch
t32_switch-Linked d info h =
    or_else-Linked (decode_t32_direct_branch d info)
      (λ r. or_else (decode_t32_indirect_branch r.0 r.1) t32_other) (t32_direct-Linked d info h)
      (λ r u.
        or_else-Linked (decode_t32_indirect_branch r.0 r.1) t32_other
          (t32_indirect-Linked r.0 r.1 u) t32_other-Linked)

a32_other-Linked : (s : Decoding) → Unlinked s → Linked (a32_other s)
unfolding a32_other a32_direct
a32_other-Linked (d, info) h = ground (
  arith,
  a32_link d.opcode info h.1,
  other-Linked (inst_arm_barrier d.opcode) (inst_arm_wfi_wfe d.opcode) (λ x. x) d info h h.0,
)

a32_switch-Linked :
    (d : InstrInfo) (info : DecodeInfo) → Unlinked (d, info) → Linked (a32_switch d info)
unfolding a32_switch a32_indirect
a32_switch-Linked d info h =
    let i = (inst_arm_is_indirect_branch d.opcode info).1 in
    let n = a32_indirect_no_call d.opcode info h.1 in
    ground (arith, a32_link d.opcode i n, a32_other-Linked (d, i) (h.0, n))

decode_a32-Linked :
    (d : InstrInfo) (info : DecodeInfo)
    → is_call info.instr_sub_type ≡ false
    → Linked (decode_a32 d info)
unfolding decode_a32 reset_instr_info
decode_a32-Linked d info h = a32_switch-Linked (start_wide d) info (refl, h)

decode_a64-Linked :
    (d : InstrInfo) (info : DecodeInfo)
    → is_call info.instr_sub_type ≡ false
    → Linked (decode_a64 d info)
unfolding decode_a64 reset_instr_info
decode_a64-Linked d info h = a64_switch-Linked (start_wide d) info (refl, h)

update-is_link :
    (d : InstrInfo)
    → ((update_thumb_it_block d).is_link ≡ d.is_link) × ((update_thumb_it_block d).typ ≡ d.typ)
unfolding update_thumb_it_block
update-is_link d = ground arith

decode_t32-Linked :
    (d : InstrInfo) (info : DecodeInfo)
    → is_call info.instr_sub_type ≡ false
    → Linked (decode_t32 d info)
unfolding decode_t32 classify_t32 start_thumb set_thumb_instr_size reset_instr_info
decode_t32-Linked d info h = ground (
  arith,
  t32_switch-Linked (start_thumb d) info (refl, h),
  update-is_link (classify_t32 d info).0,
)

-- What is reported for an instruction that is decoded without an error: it is a link exactly when its
-- subtype is that of a call, and only a direct or indirect branch is a link.
pub decode_instruction-link :
    (d : InstrInfo)
    → (decode_instruction d).1 ≡ none
    → ((decode_instruction d).0.is_link ≡ is_call (decode_instruction d).0.subtype)
      × (is_branch (decode_instruction d).0.typ ≡ false → (decode_instruction d).0.is_link ≡ false)
unfolding decode_instruction
decode_instruction-link d h =
    let info : DecodeInfo = record {
      arch_version = d.pe_type.arch;
      instr_sub_type = s_instr_none;
    } in
    ground (
      arith,
      decode_a32-Linked d info refl,
      decode_t32-Linked d info refl,
      decode_a64-Linked d info refl,
    )

-- ===== src/Idec/Branches.antt =====
-- idec_arminst.go: what is a direct branch has a destination.
use coresight.Idec.Info.{DecodeInfo}
use coresight.Idec.A64.{inst_a64_is_direct_branch_link, inst_a64_branch_destination}
use coresight.Prelude.{Option, ℕ, ◌≡◌, Bool, bit_and, arith, false, ◌==◌, some, true, none}
use coresight.Idec.T32.{inst_thumb_is_direct_branch_link, inst_thumb_branch_destination}
use coresight.Idec.A32.{inst_arm_is_direct_branch, inst_arm_branch_destination}
use coresight.Idec.Fields.{field, masked_eq}

a32_has_destination :
    (addr inst : ℕ) → inst_arm_is_direct_branch inst ≡ (inst_arm_branch_destination addr inst).1
unfolding inst_arm_is_direct_branch inst_arm_branch_destination
a32_has_destination addr inst =
    let t1 : (bit_and inst 0xf0000000 == 0xf0000000) ≡ (field 28 4 inst == 0xf) =
      masked_eq 28 4 0xf inst in
    let t2 : (bit_and inst 0xfe000000 == 0xfa000000) ≡ (field 25 7 inst == 0x7d) =
      masked_eq 25 7 0x7d inst in
    let t3 : (bit_and inst 0x0e000000 == 0x0a000000) ≡ (field 25 3 inst == 0x5) =
      masked_eq 25 3 0x5 inst in
    rw (t1, t2, t3) (ground arith)

t32_has_destination :
    (addr inst : ℕ) (info : DecodeInfo)
    → (inst_thumb_is_direct_branch_link inst info).0 ≡ (inst_thumb_branch_destination addr inst).1
unfolding inst_thumb_is_direct_branch_link inst_thumb_branch_destination
t32_has_destination addr inst info = ground arith

abbrev pub is_some : Option ℕ → Bool
is_some none = false
is_some (some a) = true

a64_has_destination :
    (addr inst : ℕ) (info : DecodeInfo)
    → (inst_a64_is_direct_branch_link inst info).0 ≡ is_some (inst_a64_branch_destination addr inst)
unfolding inst_a64_is_direct_branch_link inst_a64_branch_destination
a64_has_destination addr inst info =
    let t1 : (bit_and inst 0x7c000000 == 0x34000000) ≡ (field 26 5 inst == 0x0d) =
      masked_eq 26 5 0x0d inst in
    let t2 : (bit_and inst 0xff000000 == 0x54000000) ≡ (field 24 8 inst == 0x54) =
      masked_eq 24 8 0x54 inst in
    let t3 : (bit_and inst 0x7c000000 == 0x14000000) ≡ (field 26 5 inst == 0x05) =
      masked_eq 26 5 0x05 inst in
    let t4 : (bit_and inst 0x7e000000 == 0x34000000) ≡ (field 25 6 inst == 0x1a) =
      masked_eq 25 6 0x1a inst in
    let t5 : (bit_and inst 0x7e000000 == 0x36000000) ≡ (field 25 6 inst == 0x1b) =
      masked_eq 25 6 0x1b inst in
    rw (t1, t2, t3, t4, t5) (ground arith)

-- In each of the three instruction sets an instruction is a direct branch exactly when the function
-- of destinations gives one; the decoder may drop that function's answer.
pub direct_branch-destination :
    (addr inst : ℕ) (info : DecodeInfo)
    → (inst_arm_is_direct_branch inst ≡ (inst_arm_branch_destination addr inst).1)
      × ((inst_thumb_is_direct_branch_link inst info).0
          ≡ (inst_thumb_branch_destination addr inst).1)
      × ((inst_a64_is_direct_branch_link inst info).0
          ≡ is_some (inst_a64_branch_destination addr inst))
direct_branch-destination addr inst info = (
  a32_has_destination addr inst,
  t32_has_destination addr inst info,
  a64_has_destination addr inst info,
)

-- ===== src/Idec/Targets.antt =====
-- idec_arminst.go: the destinations of A64 branches, against the fields of the architecture.
use coresight.Prelude.Bits.{bit_and_middle}
use coresight.Idec.Info.{sar32, sign_extend64}
use coresight.Idec.A64.{
  inst_a64_is_cmp_br, branch_offset64, inst_a64_branch_destination, inst_a64_cmp_br_destination,
}
use coresight.Prelude.{
  ℕ, Option, u64, if◌then◌else◌, ◌+◌, ◌==◌, suc, some, ◌*◌, arith, none, ◌≡◌, bit_and,
}
use coresight.Idec.Fields.{field, sign_extended, masked_eq}

-- The field of the offset in an A64 branch: its lowest bit and its width
unfoldable pub a64_offset_field : ℕ → Option (ℕ × ℕ)
a64_offset_field inst =
    if field 24 8 inst == 0x54
    then some (5, 19)
    else if field 26 5 inst == 0x05
    then some (0, 26)
    else if field 25 6 inst == 0x1a
    then some (5, 19)
    else if field 25 6 inst == 0x1b
    then some (5, 14)
    else if inst_a64_is_cmp_br inst
    then some (5, 9)
    else none

-- The target of a branch whose offset is the field, in words, with its sign
abbrev pub target : (addr inst : ℕ) → ℕ × ℕ → ℕ
target addr inst (lsb, width) =
    u64 (addr + sign_extended (suc (suc width)) (4 * field lsb width inst))

abbrev pub target_of : (addr inst : ℕ) → Option (ℕ × ℕ) → Option ℕ
target_of addr inst none = none
target_of addr inst (some f) = some (target addr inst f)

pub offset-b_cond :
    (inst : ℕ) → branch_offset64 inst 0x00ffffe0 8 11 ≡ sign_extended 21 (4 * field 5 19 inst)
unfolding branch_offset64 sar32 sign_extend64
offset-b_cond inst = ground (arith, bit_and_middle 5 19 inst)

pub offset-b :
    (inst : ℕ) → branch_offset64 inst 0x03ffffff 6 4 ≡ sign_extended 28 (4 * field 0 26 inst)
unfolding branch_offset64 sar32 sign_extend64
offset-b inst = ground (arith, bit_and_middle 0 26 inst)

pub offset-tb :
    (inst : ℕ) → branch_offset64 inst 0x0007ffe0 13 16 ≡ sign_extended 16 (4 * field 5 14 inst)
unfolding branch_offset64 sar32 sign_extend64
offset-tb inst = ground (arith, bit_and_middle 5 14 inst)

pub offset-cmp_br :
    (inst : ℕ) → branch_offset64 inst 0x00003fe0 18 21 ≡ sign_extended 11 (4 * field 5 9 inst)
unfolding branch_offset64 sar32 sign_extend64
offset-cmp_br inst = ground (arith, bit_and_middle 5 9 inst)

-- The destination of an A64 instruction is that of its field: the address and four times the field,
-- taken with its sign, modulo 2 ^ 64; what has no such field has no destination.
pub inst_a64_branch_destination-target :
    (addr inst : ℕ)
    → inst_a64_branch_destination addr inst ≡ target_of addr inst (a64_offset_field inst)
unfolding inst_a64_branch_destination inst_a64_cmp_br_destination a64_offset_field
inst_a64_branch_destination-target addr inst =
    let t1 : (bit_and inst 0xff000000 == 0x54000000) ≡ (field 24 8 inst == 0x54) =
      masked_eq 24 8 0x54 inst in
    let t2 : (bit_and inst 0x7c000000 == 0x14000000) ≡ (field 26 5 inst == 0x05) =
      masked_eq 26 5 0x05 inst in
    let t3 : (bit_and inst 0x7e000000 == 0x34000000) ≡ (field 25 6 inst == 0x1a) =
      masked_eq 25 6 0x1a inst in
    let t4 : (bit_and inst 0x7e000000 == 0x36000000) ≡ (field 25 6 inst == 0x1b) =
      masked_eq 25 6 0x1b inst in
    rw (t1, t2, t3, t4, offset-b_cond inst, offset-b inst, offset-tb inst, offset-cmp_br inst)
      (ground arith)

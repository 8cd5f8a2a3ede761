-- ===== src/Idec/A64.antt =====
-- idec_arminst.go: the classes of A64 instructions and the destinations of their branches.
use coresight.Prelude.{
  ℕ, ◌+◌, Bool, true, false, ◌&&◌, ◌||◌, Option, none, some, bit_and, ◌==◌, ◌/=◌, shl, u32, u64,
  if◌then◌else◌,
}
use coresight.Idec.Info.{
  DecodeInfo, with_sub_type, s_instr_br_link, s_instr_v8_ret, s_instr_v8_eret, sar32, sign_extend64,
  is_arch_min_ver, arch_v8r3, arch_aa64,
}

unfoldable pub inst_a64_is_cmp_br : ℕ → Bool
inst_a64_is_cmp_br inst =
    let op = bit_and inst 0xff000000 in
    let desc = bit_and inst 0x0000c000 in
    if op == 0x74000000
    then desc /= 0x4000
    else if op == 0xf4000000
    then desc == 0
    else if op == 0x75000000 || op == 0xf5000000
    then bit_and desc 0x4000 == 0
    else false

-- The offset of a branch: the field of the opcode, moved to the top and shifted back with its sign
unfoldable pub branch_offset64 : (inst mask left right : ℕ) → ℕ
unfolding sar32 sign_extend64
branch_offset64 inst mask left right =
    sign_extend64 (sar32 (u32 (shl (bit_and inst mask) left)) right)

unfoldable pub inst_a64_cmp_br_destination : ℕ → ℕ → ℕ
unfolding branch_offset64
inst_a64_cmp_br_destination inst addr64 = u64 (addr64 + branch_offset64 inst 0x00003fe0 18 21)

-- Whether it is a branch, and with link
unfoldable pub inst_a64_is_direct_branch_link : ℕ → DecodeInfo → Bool × Bool × DecodeInfo
unfolding inst_a64_is_cmp_br
inst_a64_is_direct_branch_link inst info =
    if bit_and inst 0x7c000000 == 0x34000000 || bit_and inst 0xff000000 == 0x54000000
    then (true, false, info)
    else if bit_and inst 0x7c000000 == 0x14000000
    then if bit_and inst 0x80000000 /= 0
      then (true, true, with_sub_type s_instr_br_link info)
      else (true, false, info)
    else (inst_a64_is_cmp_br inst, false, info)

unfoldable pub inst_a64_wfi_wfe : ℕ → DecodeInfo → Bool
unfolding is_arch_min_ver
inst_a64_wfi_wfe inst info =
    if bit_and inst 0xffffffdf == 0xd503205f
    then true
    else is_arch_min_ver info.arch_version arch_aa64 && bit_and inst 0xffffffc0 == 0xd5031000

unfoldable pub inst_a64_tstart : ℕ → Bool
inst_a64_tstart inst = bit_and inst 0xffffffe0 == 0xd5233060

-- BR and BLR and their forms with pointer authentication
abbrev branch_or_link : ℕ → DecodeInfo → Bool × Bool × DecodeInfo
branch_or_link inst info =
    if bit_and inst 0x00200000 /= 0
    then (true, true, with_sub_type s_instr_br_link info)
    else (true, false, info)

-- The pointer authentication instructions of architecture 8.3
unfoldable pub pointer_auth_branch : ℕ → DecodeInfo → Bool × Bool × DecodeInfo
pointer_auth_branch inst info =
    if bit_and inst 0xffdff800 == 0xd71f0800
    then branch_or_link inst info
    else if bit_and inst 0xffdff81f == 0xd61f081f
    then branch_or_link inst info
    else if bit_and inst 0xfffffbff == 0xd69f0bff
    then (true, false, with_sub_type s_instr_v8_eret info)
    else if bit_and inst 0xfffffbff == 0xd65f0bff
    then (true, false, with_sub_type s_instr_v8_ret info)
    else if bit_and inst 0xffc0001f == 0x5500001f
    then (true, false, with_sub_type s_instr_v8_ret info)
    else if bit_and inst 0xfffffbe0 == 0xd65f0be0 && bit_and inst 0x1f /= 0x1f
    then (true, false, with_sub_type s_instr_v8_ret info)
    else if inst == 0xd6ff03e0 || inst == 0xd6ff07e0
    then (true, false, with_sub_type s_instr_v8_eret info)
    else (false, false, info)

unfoldable pub inst_a64_is_indirect_branch_link : ℕ → DecodeInfo → Bool × Bool × DecodeInfo
unfolding pointer_auth_branch is_arch_min_ver
inst_a64_is_indirect_branch_link inst info =
    if bit_and inst 0xffdffc1f == 0xd61f0000
    then branch_or_link inst info
    else if bit_and inst 0xfffffc1f == 0xd65f0000
    then (true, false, with_sub_type s_instr_v8_ret info)
    else if bit_and inst 0xffffffff == 0xd69f03e0
    then (true, false, with_sub_type s_instr_v8_eret info)
    else if is_arch_min_ver info.arch_version arch_v8r3
    then pointer_auth_branch inst info
    else (false, false, info)

-- The destination: none where the code returns false.
unfoldable pub inst_a64_branch_destination : ℕ → ℕ → Option ℕ
unfolding branch_offset64 inst_a64_is_cmp_br inst_a64_cmp_br_destination
inst_a64_branch_destination addr inst =
    if bit_and inst 0xff000000 == 0x54000000
    then some (u64 (addr + branch_offset64 inst 0x00ffffe0 8 11))
    else if bit_and inst 0x7c000000 == 0x14000000
    then some (u64 (addr + branch_offset64 inst 0x03ffffff 6 4))
    else if bit_and inst 0x7e000000 == 0x34000000
    then some (u64 (addr + branch_offset64 inst 0x00ffffe0 8 11))
    else if bit_and inst 0x7e000000 == 0x36000000
    then some (u64 (addr + branch_offset64 inst 0x0007ffe0 13 16))
    else if inst_a64_is_cmp_br inst
    then some (inst_a64_cmp_br_destination inst addr)
    else none

unfoldable pub inst_a64_is_conditional : ℕ → Bool
inst_a64_is_conditional inst =
    bit_and inst 0x7c000000 == 0x34000000 || bit_and inst 0xff000000 == 0x54000000

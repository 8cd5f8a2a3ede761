-- ===== src/Idec/A32.antt =====
-- idec_arminst.go: the classes of A32 instructions and the destinations of their branches.
use coresight.Prelude.{
  ℕ, ◌+◌, Bool, true, false, ◌&&◌, ◌||◌, bit_and, bit_or, ◌==◌, ◌/=◌, shr, shl, u32, if◌then◌else◌,
}
use coresight.Idec.Info.{DecodeInfo, with_sub_type, s_instr_br_link, s_instr_v7_implied_ret, sar32}

unfoldable pub inst_arm_is_direct_branch : ℕ → Bool
inst_arm_is_direct_branch inst =
    if bit_and inst 0xf0000000 == 0xf0000000
    then bit_and inst 0xfe000000 == 0xfa000000
    else bit_and inst 0x0e000000 == 0x0a000000

unfoldable pub inst_arm_wfi_wfe : ℕ → Bool
inst_arm_wfi_wfe inst =
    bit_and inst 0xf0000000 /= 0xf0000000 && bit_and inst 0x0ffffffe == 0x0320f002

-- A branch that is a return if the condition holds
abbrev pub implied_ret_if : Bool → DecodeInfo → DecodeInfo
implied_ret_if b info = if b then with_sub_type s_instr_v7_implied_ret info else info

unfoldable pub inst_arm_is_indirect_branch : ℕ → DecodeInfo → Bool × DecodeInfo
inst_arm_is_indirect_branch inst info =
    if bit_and inst 0xf0000000 == 0xf0000000
    then (bit_and inst 0xfe500000 == 0xf8100000, info)
    else if bit_and inst 0x0ff000d0 == 0x01200010
    then (true, implied_ret_if (bit_and inst 0xff == 0x1e) info)
    else if bit_and inst 0x0ff000f0 == 0x01200020
    then (true, info)
    else if bit_and inst 0x0e108000 == 0x08108000
    then (true, implied_ret_if (bit_and inst 0x0fffa000 == 0x08bd8000) info)
    else if bit_and inst 0x0e50f000 == 0x0410f000
    then (true, implied_ret_if (bit_and inst 0x01ff0000 == 0x009d0000) info)
    else if bit_and inst 0x0e50f010 == 0x0610f000
    then (true, info)
    else if bit_and inst 0x0fe0f000 == 0x01a0f000
    then (true, implied_ret_if (bit_and inst 0x00100fff == 0x00e) info)
    else if bit_and inst 0x0f900080 == 0x01000000
    then (false, info)
    else if bit_and inst 0x0f9000f0 == 0x01800090
    then (false, info)
    else if bit_and inst 0x0fb0f000 == 0x0320f000
    then (false, info)
    else if bit_and inst 0x0e00f000 == 0x0200f000
    then (bit_and inst 0x0f90f000 /= 0x0310f000, info)
    else (bit_and inst 0x0e00f000 == 0x0000f000, info)

-- The destination, if the instruction is a direct branch; its lowest bit asks for Thumb.
unfoldable pub inst_arm_branch_destination : ℕ → ℕ → ℕ × Bool
unfolding sar32
inst_arm_branch_destination addr inst =
    let pnpc = u32 (addr + 8 + sar32 (u32 (shl (bit_and inst 0xffffff) 8)) 6) in
    if bit_and inst 0x0e000000 == 0x0a000000
    then if bit_and inst 0xf0000000 == 0xf0000000
      then (bit_or (bit_or pnpc 1) (bit_and (shr inst 23) 2), true)
      else (pnpc, true)
    else (0, false)

unfoldable pub inst_arm_is_branch_and_link : ℕ → DecodeInfo → Bool × DecodeInfo
inst_arm_is_branch_and_link inst info =
    if (bit_and inst 0xf0000000 == 0xf0000000 && bit_and inst 0xfe000000 == 0xfa000000)
      || bit_and inst 0x0f000000 == 0x0b000000
      || bit_and inst 0x0ff000f0 == 0x01200030
    then (true, with_sub_type s_instr_br_link info)
    else (false, info)

unfoldable pub inst_arm_is_conditional : ℕ → Bool
inst_arm_is_conditional inst = bit_and inst 0xe0000000 /= 0xe0000000

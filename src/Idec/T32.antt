-- ===== src/Idec/T32.antt =====
-- idec_arminst.go: the classes of T32 instructions and the destinations of their branches. A 16-bit
-- instruction stands in the upper half of the opcode.
use coresight.Prelude.{
  ℕ, ◌+◌, ◌-◌, ◌^◌, Bool, true, false, ◌&&◌, ◌||◌, bit_and, bit_or, bit_xor, ◌==◌, ◌/=◌, leb, shr,
  shl, u32, if◌then◌else◌,
}
use coresight.Idec.Info.{DecodeInfo, with_sub_type, s_instr_br_link, s_instr_v7_implied_ret, sar32}
use coresight.Idec.A32.{implied_ret_if}

-- isWideThumb, of the first halfword
unfoldable pub is_wide_thumb : ℕ → Bool
is_wide_thumb insthw = leb 0xe800 (bit_and insthw 0xf800)

-- B<c> (encoding T1)
abbrev pub is_b_t1 : ℕ → Bool
is_b_t1 inst = bit_and inst 0xf0000000 == 0xd0000000 && bit_and inst 0x0e000000 /= 0x0e000000

-- B (encoding T3)
abbrev pub is_b_t3 : ℕ → Bool
is_b_t3 inst = bit_and inst 0xf800d000 == 0xf0008000 && bit_and inst 0x03800000 /= 0x03800000

-- LE (encodings T1 and T2), LETP (encoding T3)
abbrev pub is_loop_end : ℕ → Bool
is_loop_end inst =
    bit_and inst 0xfffff001 == 0xf00fc001
    || bit_and inst 0xfffff001 == 0xf02fc001
    || bit_and inst 0xfffff001 == 0xf01fc001

-- WLS (encoding T1), WLSTP (encoding T3)
abbrev pub is_loop_start : ℕ → Bool
is_loop_start inst = bit_and inst 0xfff0f001 == 0xf040c001 || bit_and inst 0xffc0f001 == 0xf000c001

-- isBranch, isLink and isCond
unfoldable pub inst_thumb_is_direct_branch_link : ℕ → DecodeInfo → Bool × Bool × Bool × DecodeInfo
inst_thumb_is_direct_branch_link inst info =
    if is_b_t1 inst
    then (true, false, true, info)
    else if bit_and inst 0xf8000000 == 0xe0000000
    then (true, false, false, info)
    else if is_b_t3 inst
    then (true, false, true, info)
    else if bit_and inst 0xf8009000 == 0xf0009000
    then if bit_and inst 0x00004000 /= 0
      then (true, true, false, with_sub_type s_instr_br_link info)
      else (true, false, false, info)
    else if bit_and inst 0xf800d001 == 0xf000c000
    then (true, true, false, with_sub_type s_instr_br_link info)
    else if bit_and inst 0xf5000000 == 0xb1000000
    then (true, false, true, info)
    else if is_loop_end inst || is_loop_start inst
    then (true, false, false, info)
    else (false, false, false, info)

unfoldable pub inst_thumb_wfi_wfe : ℕ → Bool
inst_thumb_wfi_wfe inst =
    bit_and inst 0xfffffffe == 0xf3af8002 || bit_and inst 0xffef0000 == 0xbf200000

-- isBranch and isLink
unfoldable pub inst_thumb_is_indirect_branch_link : ℕ → DecodeInfo → Bool × Bool × DecodeInfo
inst_thumb_is_indirect_branch_link inst info =
    if bit_and inst 0xff000000 == 0x47000000
    then if bit_and inst 0x00800000 /= 0
      then (true, true, with_sub_type s_instr_br_link info)
      else (true, false, implied_ret_if (bit_and inst 0x00780000 == 0x00700000) info)
    else if bit_and inst 0xfff0d000 == 0xf3c08000
    then (true, false, info)
    else if bit_and inst 0xff000000 == 0xbd000000
    then (true, false, with_sub_type s_instr_v7_implied_ret info)
    else if bit_and inst 0xfd870000 == 0x44870000
    then (true, false, implied_ret_if (bit_and inst 0xffff0000 == 0x46f70000) info)
    else if bit_and inst 0xfff0ffe0 == 0xe8d0f000
    then (true, false, info)
    else if bit_and inst 0xffd00000 == 0xe8100000
    then (true, false, info)
    else if bit_and inst 0xffd00000 == 0xe9900000
    then (true, false, info)
    else if bit_and inst 0xfff0d000 == 0xf3d08000
    then (true, false, info)
    else if bit_and inst 0xfff0f000 == 0xf8d0f000
    then (true, false, info)
    else if bit_and inst 0xff7ff000 == 0xf85ff000
    then (true, false, info)
    else if bit_and inst 0xfff0f800 == 0xf850f800
    then (true, false, implied_ret_if (bit_and inst 0x000f0f00 == 0x000d0b00) info)
    else if bit_and inst 0xfff0ffc0 == 0xf850f000
    then (true, false, info)
    else if bit_and inst 0xfe508000 == 0xe8108000
    then (true, false, implied_ret_if (bit_and inst 0x0fff0000 == 0x08bd0000) info)
    else (false, false, info)

-- The offset of B (T4), BL (T1) and BLX (T2), whose two upper bits are sent xor-ed with the sign;
-- `low` is the mask of the lowest field. The subtraction wraps.
unfoldable pub wide_offset : (inst low : ℕ) → ℕ
wide_offset inst low =
    let s = u32 (shr (bit_and inst 0x04000000) 26 + (2 ^ 32 - 1)) in
    u32 (
      bit_or
        (bit_or
          (bit_or
            (bit_or (shl (bit_and inst 0x04000000) 5) (shl (bit_and (bit_xor inst s) 0x2000) 17))
            (shl (bit_and (bit_xor inst s) 0x0800) 18))
          (shl (bit_and inst 0x03ff0000) 3))
        (shl (bit_and inst low) 8))

-- The offset of B (T3)
unfoldable pub cond_offset : ℕ → ℕ
cond_offset inst = u32 (
    bit_or
      (bit_or
        (bit_or (bit_or (shl (bit_and inst 0x04000000) 5) (shl (bit_and inst 0x0800) 19))
          (shl (bit_and inst 0x2000) 16))
        (shl (bit_and inst 0x003f0000) 7))
      (shl (bit_and inst 0x000007ff) 12))

-- The distance of the low overhead loops
unfoldable pub loop_offset : ℕ → ℕ
loop_offset inst = bit_or (shl (bit_and inst 0x000007fe) 1) (shr (bit_and inst 0x00000800) 10)

unfoldable pub inst_thumb_branch_destination : ℕ → ℕ → ℕ × Bool
unfolding sar32 wide_offset cond_offset loop_offset
inst_thumb_branch_destination addr inst =
    if is_b_t1 inst
    then (bit_or (u32 (addr + 4 + sar32 (u32 (shl (bit_and inst 0x00ff0000) 8)) 23)) 1, true)
    else if bit_and inst 0xf8000000 == 0xe0000000
    then (bit_or (u32 (addr + 4 + sar32 (u32 (shl (bit_and inst 0x07ff0000) 5)) 20)) 1, true)
    else if is_b_t3 inst
    then (bit_or (u32 (addr + 4 + sar32 (cond_offset inst) 11)) 1, true)
    else if bit_and inst 0xf8009000 == 0xf0009000
    then (bit_or (u32 (addr + 4 + sar32 (wide_offset inst 0x000007ff) 7)) 1, true)
    else if bit_and inst 0xf800d001 == 0xf000c000
    then (u32 (bit_and addr 0xfffffffc + 4 + sar32 (wide_offset inst 0x000007fe) 7), true)
    else if bit_and inst 0xf5000000 == 0xb1000000
    then (
      bit_or
          (u32 (
            addr
            + 4
            + shr (u32 (bit_or (shl (bit_and inst 0x02000000) 6) (shl (bit_and inst 0x00f80000) 7)))
                25))
          1,
      true,
    )
    else if is_loop_end inst
    then (bit_or (u32 (addr + 4 + (2 ^ 32 - loop_offset inst))) 1, true)
    else if is_loop_start inst
    then (bit_or (u32 (addr + 4 + loop_offset inst)) 1, true)
    else (0, false)

unfoldable pub inst_thumb_is_conditional : ℕ → Bool
inst_thumb_is_conditional inst =
    if is_b_t1 inst
    then true
    else if is_b_t3 inst
    then true
    else bit_and inst 0xf5000000 == 0xb1000000

-- The number of instructions that an IT instruction covers; 0 for another instruction
unfoldable pub inst_thumb_is_it : ℕ → ℕ
inst_thumb_is_it inst =
    if bit_and inst 0xff000000 /= 0xbf000000 || bit_and inst 0x000f0000 == 0
    then 0
    else if bit_and inst 0x00010000 /= 0
    then 4
    else if bit_and inst 0x00020000 /= 0
    then 3
    else if bit_and inst 0x00040000 /= 0
    then 2
    else if bit_and inst 0x00080000 /= 0
    then 1
    else 0

-- ===== src/Idec/Masks.antt =====
-- idec_arminst.go: what the masks of two classes of opcodes say about each other.
use coresight.Prelude.Bits.{bit_and_assoc, bit_and_comm}
use coresight.Idec.Info.{DecodeInfo}
use coresight.Idec.Barriers.{inst_thumb_barrier, barrier_none}
use coresight.Idec.T32.{
  inst_thumb_is_direct_branch_link, inst_thumb_is_indirect_branch_link, inst_thumb_is_conditional,
  inst_thumb_wfi_wfe,
}
use coresight.Prelude.{
  ℕ, bit_and, ◌==◌, ◌≡◌, false, refl, Bool-cases, inr, inl, ==_iff, ap, sym, ◌∙◌, arith,
}

-- Two tests that disagree on the bits that they share do not hold of one number.
pub excluded :
    (m v m' v' inst : ℕ)
    → bit_and inst m ≡ v
    → (bit_and v m' == bit_and v' m) ≡ false
    → (bit_and inst m' == v') ≡ false
excluded m v m' v' inst h differ = elim (Bool-cases (bit_and inst m' == v')) [
  | inr e ↦ e
  | inl e ↦
      let e' : bit_and inst m' ≡ v' = (==_iff (bit_and inst m') v').0 e in
      let l : bit_and v m' ≡ bit_and inst (bit_and m m') =
        ap (λ t. bit_and t m') (sym h) ∙ bit_and_assoc inst m m' in
      let r : bit_and v' m ≡ bit_and inst (bit_and m m') =
        ap (λ t. bit_and t m) (sym e')
        ∙ bit_and_assoc inst m' m
        ∙ ap (λ t. bit_and inst t) (bit_and_comm m' m) in
      absurd (ground (arith, l, r, differ))
]

bf_excluded :
    (inst : ℕ)
    → bit_and inst 0xff000000 ≡ 0xbf000000
    → (m v : ℕ) → (bit_and 0xbf000000 m == bit_and v 0xff000000) ≡ false
    → (bit_and inst m == v) ≡ false
bf_excluded inst h m v = excluded 0xff000000 0xbf000000 m v inst h

-- An opcode that begins with 0xbf is no branch.
pub bf-direct :
    (inst : ℕ) (info : DecodeInfo)
    → bit_and inst 0xff000000 ≡ 0xbf000000
    → inst_thumb_is_direct_branch_link inst info ≡ (false, false, false, info)
unfolding inst_thumb_is_direct_branch_link
bf-direct inst info h =
    let c = bf_excluded inst h in
    rw
      (
        c 0xf0000000 0xd0000000 refl,
        c 0xf8000000 0xe0000000 refl,
        c 0xf800d000 0xf0008000 refl,
        c 0xf8009000 0xf0009000 refl,
        c 0xf800d001 0xf000c000 refl,
        c 0xf5000000 0xb1000000 refl,
        c 0xfffff001 0xf00fc001 refl,
        c 0xfffff001 0xf02fc001 refl,
        c 0xfffff001 0xf01fc001 refl,
        c 0xfff0f001 0xf040c001 refl,
        c 0xffc0f001 0xf000c001 refl,
      )
      refl

pub bf-indirect :
    (inst : ℕ) (info : DecodeInfo)
    → bit_and inst 0xff000000 ≡ 0xbf000000
    → inst_thumb_is_indirect_branch_link inst info ≡ (false, false, info)
unfolding inst_thumb_is_indirect_branch_link
bf-indirect inst info h =
    let c = bf_excluded inst h in
    rw
      (
        c 0xff000000 0x47000000 refl,
        c 0xfff0d000 0xf3c08000 refl,
        c 0xff000000 0xbd000000 refl,
        c 0xfd870000 0x44870000 refl,
        c 0xfff0ffe0 0xe8d0f000 refl,
        c 0xffd00000 0xe8100000 refl,
        c 0xffd00000 0xe9900000 refl,
        c 0xfff0d000 0xf3d08000 refl,
        c 0xfff0f000 0xf8d0f000 refl,
        c 0xff7ff000 0xf85ff000 refl,
        c 0xfff0f800 0xf850f800 refl,
        c 0xfff0ffc0 0xf850f000 refl,
        c 0xfe508000 0xe8108000 refl,
      )
      refl

pub bf-conditional :
    (inst : ℕ) → bit_and inst 0xff000000 ≡ 0xbf000000 → inst_thumb_is_conditional inst ≡ false
unfolding inst_thumb_is_conditional
bf-conditional inst h =
    let c = bf_excluded inst h in
    rw (c 0xf0000000 0xd0000000 refl, c 0xf800d000 0xf0008000 refl, c 0xf5000000 0xb1000000 refl)
      refl

pub bf-barrier :
    (inst : ℕ) → bit_and inst 0xff000000 ≡ 0xbf000000 → inst_thumb_barrier inst ≡ barrier_none
unfolding inst_thumb_barrier
bf-barrier inst h =
    let c = bf_excluded inst h in
    rw (c 0xffffff00 0xf3bf8f00 refl, c 0xffff0f00 0xee070f00 refl) refl

pub it-wfi_wfe :
    (inst : ℕ)
    → bit_and inst 0xff000000 ≡ 0xbf000000
    → (bit_and inst 0x000f0000 == 0) ≡ false
    → inst_thumb_wfi_wfe inst ≡ false
unfolding inst_thumb_wfi_wfe
it-wfi_wfe inst h k =
    let c = bf_excluded inst h in
    let w : (bit_and inst 0xffef0000 == 0xbf200000) ≡ false =
      elim (Bool-cases (bit_and inst 0xffef0000 == 0xbf200000)) [
        | inr e ↦ e
        | inl e ↦
            let l : bit_and inst 0x000f0000 ≡ 0 =
              sym (bit_and_assoc inst 0xffef0000 0x000f0000)
              ∙ ap (λ t. bit_and t 0x000f0000)
                  ((==_iff (bit_and inst 0xffef0000) 0xbf200000).0 e) in
            absurd (ground (arith, l, k))
      ] in
    rw (c 0xfffffffe 0xf3af8002 refl, w) refl

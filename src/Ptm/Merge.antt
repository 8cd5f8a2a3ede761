-- ===== src/Ptm/Merge.antt =====
-- ptm_packet.go: an address whose lowest bits are replaced.
use coresight.Prelude.Bits.{pow2_add, bit_and_high, div_pow2-lt, bit_and_low, bit_or_fields}
use native.Mathlib.Nat.{one-le-pow, mul_comm, mul-sub}
use coresight.Ptm.Packet.{merge_bits, update_address, ptm_mask_bits64, PtmPacket}
use coresight.Prelude.{
  ℕ, ◌+◌, ◌≡◌, ◌≤◌, ◌^◌, ◌<◌, ◌-◌, ◌/◌, ◌*◌, ap, ◌%◌, sym, arith, leb, ◌∙◌, false, bit_and,
}
use mathlib.Core.Path.{subst}

high_mask : (m k : ℕ) → m + k ≡ 64 → 2 ^ 64 - 2 ^ k ≡ (2 ^ m - 1) * 2 ^ k
high_mask m k e =
    let whole : 2 ^ 64 ≡ 2 ^ m * 2 ^ k = ap (λ (t : ℕ). 2 ^ t) (sym e) ∙ pow2_add m k in
    omega (
      arith,
      whole,
      mul_comm (2 ^ m - 1) (2 ^ k),
      mul-sub (2 ^ k) (2 ^ m) 1,
      mul_comm (2 ^ k) (2 ^ m),
      one-le-pow m 2 (omega arith),
    )

-- A value whose lowest bits are replaced
merge_bits-low :
    (k old part : ℕ)
    → k ≤ 64
    → old < 2 ^ 64
    → merge_bits (2 ^ k - 1) old part ≡ old / 2 ^ k * 2 ^ k + part % 2 ^ k
unfolding merge_bits
merge_bits-low k old part h w =
    let m = 64 - k in
    let e : m + k ≡ 64 = omega arith in
    let pos = one-le-pow k 2 (omega arith) in
    let mask : 2 ^ 64 - 1 - (2 ^ k - 1) ≡ (2 ^ m - 1) * 2 ^ k =
      omega (arith, high_mask m k e, pos) in
    let old_fits : old < 2 ^ (m + k) = subst (λ (t : ℕ). old < 2 ^ t) (sym e) w in
    let high : bit_and old (2 ^ 64 - 1 - (2 ^ k - 1)) ≡ old / 2 ^ k * 2 ^ k =
      ap (λ (t : ℕ). bit_and old t) mask ∙ bit_and_high k m old (div_pow2-lt k m old old_fits) in
    rw (high, bit_and_low k part)
      (bit_or_fields k (old / 2 ^ k) (part % 2 ^ k) (omega (arith, pos)))

pub update_address-low :
    (k part : ℕ) (p : PtmPacket)
    → k ≤ 32
    → p.addr_val < 2 ^ 64
    → (update_address part k p).addr_val ≡ p.addr_val / 2 ^ k * 2 ^ k + part % 2 ^ k
unfolding update_address ptm_mask_bits64
update_address-low k part p h w =
    let small : leb 64 k ≡ false = ground arith in
    rw small (merge_bits-low k p.addr_val part (omega arith) w)

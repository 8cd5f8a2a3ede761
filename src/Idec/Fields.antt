-- ===== src/Idec/Fields.antt =====
-- A mask of an opcode as a field: the description of A64 branches that the architecture gives.
use coresight.Prelude.{
  ℕ, ◌+◌, ◌*◌, ◌-◌, ◌/◌, ◌%◌, ◌^◌, ◌<◌, ltb, ◌==◌, bit_and, if◌then◌else◌, ◌≡◌, ap, arith,
}
use native.Mathlib.Nat.{one-le-pow, eq_of_mul-eq-mul_right}
use coresight.Prelude.Bits.{bit_and_middle}

-- The field of `width` bits that begins at bit `lsb`
abbrev pub field : (lsb width inst : ℕ) → ℕ
field lsb width inst = inst / 2 ^ lsb % 2 ^ width

-- SignExtend(v, 64) of the architecture, for `v` of `width` bits
abbrev pub sign_extended : (width v : ℕ) → ℕ
sign_extended width v = if ltb v (2 ^ (width - 1)) then v else v + (2 ^ 64 - 2 ^ width)

scaled_eq : (p a b : ℕ) → 0 < p → (a * p == b * p) ≡ (a == b)
scaled_eq p a b h =
    let scaled : a ≡ b → a * p ≡ b * p = λ e. ap (λ (t : ℕ). t * p) e in
    ground (arith, scaled, eq_of_mul-eq-mul_right p h a b)

pub masked_eq :
    (k m v inst : ℕ) → (bit_and inst ((2 ^ m - 1) * 2 ^ k) == v * 2 ^ k) ≡ (field k m inst == v)
masked_eq k m v inst =
    rw bit_and_middle (scaled_eq (2 ^ k) (field k m inst) v (one-le-pow k 2 (omega arith)))

-- ===== src/Itm/Continued.antt =====
-- itm_parser.go: extractContField32 and extractContField64 against the encoding of a number in groups
-- of seven bits, the lowest first, with a bit that is set in every byte but the last.
use coresight.Prelude.{
  ℕ, zero, suc, ◌+◌, ◌-◌, ◌*◌, ◌/◌, ◌%◌, ◌^◌, ◌≤◌, ◌<◌, ◌≡◌, refl, ap, ◌∙◌, arith, List, [], ◌∷◌,
  some, bit_and, bit_or, shl, ltb, leb, false, ◌&&◌,
}
use native.Mathlib.Nat.{add-mul, mul-le-mul_right}
use coresight.Prelude.Bits.{pow2_add, bit_and_low, bit_or_fields, bit_or_comm}
use coresight.Itm.Reads.{cont_field}

-- v in n + 1 groups
abbrev pub groups : ℕ → ℕ → List ℕ
groups zero v = v % 128 ∷ []
groups (suc n) v = (v % 128 + 128) ∷ groups n (v / 128)

low_group : (v : ℕ) → (bit_and (v % 128) 0x7f ≡ v % 128) × (bit_and (v % 128 + 128) 0x7f ≡ v % 128)
low_group v = omega (arith, bit_and_low 7 (v % 128), bit_and_low 7 (v % 128 + 128))

-- A group goes above the digits that are there.
put_group :
    (shift val part : ℕ) → val < 2 ^ shift → bit_or val (shl part shift) ≡ val + part * 2 ^ shift
put_group shift val part h =
    omega (arith, bit_or_comm val (part * 2 ^ shift), bit_or_fields shift part val h)

-- The digits with one group more
group_bound :
    (shift val part : ℕ) → val < 2 ^ shift → part < 128 → val + part * 2 ^ shift < 2 ^ (shift + 7)
group_bound shift val part h k =
    let top : part * 2 ^ shift ≤ 127 * 2 ^ shift =
      mul-le-mul_right (2 ^ shift) (omega (arith, k)) in
    omega (arith, h, top, pow2_add shift 7)

group_sum :
    (shift val v : ℕ) → val + v % 128 * 2 ^ shift + v / 128 * 2 ^ (shift + 7) ≡ val + v * 2 ^ shift
group_sum shift val v =
    let q = v / 128 in
    let above : q * 2 ^ (shift + 7) ≡ q * 128 * 2 ^ shift =
      ap (λ (p : ℕ). q * p) (pow2_add shift 7) ∙ grind arith in
    let both : v * 2 ^ shift ≡ q * 128 * 2 ^ shift + v % 128 * 2 ^ shift =
      ap (λ (t : ℕ). t * 2 ^ shift) (omega arith) ∙ add-mul (q * 128) (v % 128) (2 ^ shift) in
    omega (arith, above, both)

-- A group that is within the width is not refused.
not_refused :
    (width shift v : ℕ)
    → shift < width
    → v < 2 ^ (width - shift)
    → (leb width shift ≡ false)
      × ((ltb (width - 7) shift && ltb (2 ^ (width - shift) - 1) (v % 128)) ≡ false)
not_refused width shift v h k = ground (arith, h, k)

field_from :
    (width n shift val v : ℕ)
    → val < 2 ^ shift
    → shift + 7 * n < width
    → v < 2 ^ (7 * suc n)
    → v < 2 ^ (width - shift)
    → cont_field width shift val (groups n v) ≡ some (val + v * 2 ^ shift)
unfolding cont_field
field_from width zero shift val v a b c d =
    let (w, fits) = not_refused width shift v (omega (arith, b)) d in
    let low : v % 128 ≡ v = omega (arith, c) in
    let sum = put_group shift val (v % 128) a in
    let all : val + v % 128 * 2 ^ shift ≡ val + v * 2 ^ shift =
      ap (λ (t : ℕ). val + t * 2 ^ shift) low in
    rw (w, (low_group v).0, fits, sum, all) refl
field_from width (suc n) shift val v a b c d =
    let (w, fits) = not_refused width shift v (omega (arith, b)) d in
    let sum = put_group shift val (v % 128) a in
    let room : 7 * suc (suc n) ≡ 7 * suc n + 7 = omega arith in
    let left : width - shift ≡ width - (shift + 7) + 7 = omega (arith, b) in
    let c' : v < 2 ^ (7 * suc n) * 2 ^ 7 =
      omega (arith, c, ap (λ (t : ℕ). 2 ^ t) room, pow2_add (7 * suc n) 7) in
    let d' : v < 2 ^ (width - (shift + 7)) * 2 ^ 7 =
      omega (arith, d, ap (λ (t : ℕ). 2 ^ t) left, pow2_add (width - (shift + 7)) 7) in
    let ih =
      field_from width n (shift + 7) (val + v % 128 * 2 ^ shift) (v / 128)
        (group_bound shift val (v % 128) a (omega arith)) (omega (arith, b)) (omega (arith, c'))
        (omega (arith, d')) in
    let all = group_sum shift val v in
    rw (w, (low_group v).1, fits, sum) (ih ∙ ap (λ (t : ℕ). some t) all)

-- A number below the width that is encoded in groups of seven bits is read back.
pub cont_field-groups :
    (width n v : ℕ)
    → 7 * n < width
    → v < 2 ^ (7 * suc n)
    → v < 2 ^ width
    → cont_field width 0 0 (groups n v) ≡ some v
cont_field-groups width n v a b c =
    let all : 0 + v * 2 ^ 0 ≡ v = omega arith in
    let whole : width - 0 ≡ width = omega arith in
    field_from width n 0 0 v (omega arith) (omega (arith, a)) b
      (omega (arith, c, ap (λ (t : ℕ). 2 ^ t) whole))
    ∙ ap (λ (t : ℕ). some t) all

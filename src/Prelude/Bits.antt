-- ===== src/Prelude/Bits.antt =====
-- Laws of the bit operations at variables: masks and fields as arithmetic, and the group of `^`.
pub mod Digits
use Digits.{bit_and_step, bit_or_step, bit_xor_step, halving}
use Prim.Native.Nat.{ℕ, zero, suc, ◌+◌, ◌-◌, ◌*◌, ◌/◌, ◌%◌, ◌^◌, ◌<◌, min, bit_and, bit_or, bit_xor}
use mathlib.Core.Path.{◌≡◌, refl, sym, ap, ◌∙◌}
use native.Mathlib.Nat.{pow-suc, one-le-pow}
use native.Mathlib.Omega.{arith}

pub bit_and-zero : (a : ℕ) → bit_and a 0 ≡ 0
bit_and-zero = halving (λ a. bit_and a 0 ≡ 0) refl (λ n ih. omega (arith, bit_and_step (suc n) 0))

pub bit_or-zero : (a : ℕ) → bit_or a 0 ≡ a
bit_or-zero = halving (λ a. bit_or a 0 ≡ a) refl (λ n ih. omega (arith, bit_or_step (suc n) 0))

pub bit_xor-zero : (a : ℕ) → bit_xor a 0 ≡ a
bit_xor-zero = halving (λ a. bit_xor a 0 ≡ a) refl (λ n ih. omega (arith, bit_xor_step (suc n) 0))

pub bit_and_self : (a : ℕ) → bit_and a a ≡ a
bit_and_self =
    halving (λ a. bit_and a a ≡ a) refl (λ n ih. omega (arith, bit_and_step (suc n) (suc n)))

zero-bit_and : (b : ℕ) → bit_and 0 b ≡ 0
zero-bit_and =
    halving (λ b. bit_and 0 b ≡ 0) refl (λ n ih. omega (arith, ih, bit_and_step 0 (suc n)))

pub bit_and_comm : (a b : ℕ) → bit_and a b ≡ bit_and b a
bit_and_comm =
    halving (λ a. (b : ℕ) → bit_and a b ≡ bit_and b a) (λ b. zero-bit_and b ∙ sym (bit_and-zero b))
      (λ n ih b. omega (arith, ih (b / 2), bit_and_step (suc n) b, bit_and_step b (suc n)))

pub bit_xor_self : (a : ℕ) → bit_xor a a ≡ 0
bit_xor_self =
    halving (λ a. bit_xor a a ≡ 0) refl (λ n ih. omega (arith, bit_xor_step (suc n) (suc n)))

pub zero-bit_xor : (b : ℕ) → bit_xor 0 b ≡ b
zero-bit_xor = halving (λ b. bit_xor 0 b ≡ b) refl (λ n ih. omega (arith, bit_xor_step 0 (suc n)))

pub bit_xor_parts :
    (a b : ℕ)
    → (bit_xor a b / 2 ≡ bit_xor (a / 2) (b / 2)) × (bit_xor a b % 2 ≡ (a % 2 + b % 2) % 2)
bit_xor_parts a b = omega (arith, bit_xor_step a b)

bit_xor_assoc_halves :
    (a b c : ℕ)
    → bit_xor (bit_xor (a / 2) (b / 2)) (c / 2) ≡ bit_xor (a / 2) (bit_xor (b / 2) (c / 2))
    → bit_xor (bit_xor a b) c ≡ bit_xor a (bit_xor b c)
bit_xor_assoc_halves a b c ih =
    let l = bit_xor_parts a b in
    let r = bit_xor_parts b c in
    let hl = ap (λ (t : ℕ). bit_xor t (c / 2)) l.0 in
    let hr = ap (λ (t : ℕ). bit_xor (a / 2) t) r.0 in
    omega (arith, bit_xor_step (bit_xor a b) c, bit_xor_step a (bit_xor b c), l.1, r.1, hl, hr, ih)

pub bit_xor_assoc : (a b c : ℕ) → bit_xor (bit_xor a b) c ≡ bit_xor a (bit_xor b c)
bit_xor_assoc a =
    halving (λ a. (b c : ℕ) → bit_xor (bit_xor a b) c ≡ bit_xor a (bit_xor b c))
      (λ b c. ap (λ t. bit_xor t c) (zero-bit_xor b) ∙ zero_right b c)
      (λ n ih b c. bit_xor_assoc_halves (suc n) b c (ih (b / 2) (c / 2))) a
  where
    zero_right : (b c : ℕ) → bit_xor b c ≡ bit_xor 0 (bit_xor b c)
    zero_right b c = omega (arith, zero-bit_xor (bit_xor b c))

-- `q * 2 ^ k + r` has `q` above the lowest `k` digits. One step of a proof by digits doubles it.
double_field : (q k : ℕ) → q * 2 ^ suc k ≡ q * 2 ^ k * 2
double_field q k = omega (arith, ap (λ (t : ℕ). q * t) (pow-suc 2 k))

bit_and_fields : (k q r : ℕ) → r < 2 ^ k → bit_and (q * 2 ^ k + r) (2 ^ k - 1) ≡ r
bit_and_fields zero q r h = omega (arith, bit_and-zero (q * 2 ^ 0 + r))
bit_and_fields (suc k) q r h = ground (
  arith,
  double_field q k,
  pow-suc 2 k,
  one-le-pow k 2,
  bit_and_step (q * 2 ^ suc k + r) (2 ^ suc k - 1),
  bit_and_fields k q (r / 2) (omega (arith, pow-suc 2 k)),
)

pub bit_or_fields : (k q r : ℕ) → r < 2 ^ k → bit_or (q * 2 ^ k) r ≡ q * 2 ^ k + r
bit_or_fields zero q r h = ground (arith, bit_or-zero (q * 2 ^ 0))
bit_or_fields (suc k) q r h = ground (
  arith,
  double_field q k,
  bit_or_step (q * 2 ^ suc k) r,
  bit_or_fields k q (r / 2) (omega (arith, pow-suc 2 k)),
)

bit_and_high_fields :
    (k m q r : ℕ)
    → q < 2 ^ m
    → r < 2 ^ k
    → bit_and (q * 2 ^ k + r) ((2 ^ m - 1) * 2 ^ k) ≡ q * 2 ^ k
bit_and_high_fields zero m q r hq hr = ground (arith, bit_and_fields m 0 q hq)
bit_and_high_fields (suc k) m q r hq hr = ground (
  arith,
  double_field q k,
  double_field (2 ^ m - 1) k,
  bit_and_step (q * 2 ^ suc k + r) ((2 ^ m - 1) * 2 ^ suc k),
  bit_and_high_fields k m q (r / 2) hq (omega (arith, pow-suc 2 k)),
)

-- A mask of `k` ones keeps the remainder by `2 ^ k`.
pub bit_and_low : (k a : ℕ) → bit_and a (2 ^ k - 1) ≡ a % 2 ^ k
bit_and_low k a = ground (arith, one-le-pow k 2, bit_and_fields k (a / 2 ^ k) (a % 2 ^ k))

-- A mask of `m` ones above `k` zeros clears the lowest `k` digits.
pub bit_and_high :
    (k m a : ℕ) → a / 2 ^ k < 2 ^ m → bit_and a ((2 ^ m - 1) * 2 ^ k) ≡ a / 2 ^ k * 2 ^ k
bit_and_high k m a h =
    ground (arith, one-le-pow k 2, bit_and_high_fields k m (a / 2 ^ k) (a % 2 ^ k) h)

pub pow2_add : (m k : ℕ) → 2 ^ (m + k) ≡ 2 ^ m * 2 ^ k
pow2_add zero k = let e : zero + k ≡ k = omega arith in rw e (omega arith)
pow2_add (suc m) k =
    let e : suc m + k ≡ suc (m + k) = omega arith in
    rw e (
      omega (
        arith,
        pow-suc 2 (m + k),
        pow-suc 2 m,
        pow2_add m k,
        ap (λ (t : ℕ). t * 2 ^ k) (pow-suc 2 m),
      ))

-- The quotient of a w-bit number by `2 ^ k` has the other `m` digits.
pub div_pow2-lt : (k m a : ℕ) → a < 2 ^ (m + k) → a / 2 ^ k < 2 ^ m
div_pow2-lt k m a h = quotient (2 ^ k) (2 ^ m) (rw (← pow2_add) h)
  where
    quotient : (p q : ℕ) → a < q * p → a / p < q
    quotient p q h = grind arith

pub bit_xor-lt : (k a b : ℕ) → a < 2 ^ k → b < 2 ^ k → bit_xor a b < 2 ^ k
bit_xor-lt zero a b ha hb =
    let ea : a ≡ 0 = omega arith in let eb : b ≡ 0 = omega arith in rw (ea, eb) (omega arith)
bit_xor-lt (suc k) a b ha hb = omega (
  arith,
  bit_xor_parts a b,
  pow-suc 2 k,
  bit_xor-lt k (a / 2) (b / 2) (omega (arith, pow-suc 2 k)) (omega (arith, pow-suc 2 k)),
)

pub zero-bit_or : (b : ℕ) → bit_or 0 b ≡ b
zero-bit_or = halving (λ b. bit_or 0 b ≡ b) refl (λ n ih. omega (arith, bit_or_step 0 (suc n)))

pub bit_or_comm : (a b : ℕ) → bit_or a b ≡ bit_or b a
bit_or_comm =
    halving (λ a. (b : ℕ) → bit_or a b ≡ bit_or b a) (λ b. zero-bit_or b ∙ sym (bit_or-zero b))
      (λ n ih b. omega (arith, ih (b / 2), bit_or_step (suc n) b, bit_or_step b (suc n)))

bit_and_assoc_halves :
    (a b c : ℕ)
    → bit_and (bit_and (a / 2) (b / 2)) (c / 2) ≡ bit_and (a / 2) (bit_and (b / 2) (c / 2))
    → bit_and (bit_and a b) c ≡ bit_and a (bit_and b c)
bit_and_assoc_halves a b c ih =
    let l = bit_and_parts a b in
    let r = bit_and_parts b c in
    let hl = ap (λ (t : ℕ). bit_and t (c / 2)) l.0 in
    let hr = ap (λ (t : ℕ). bit_and (a / 2) t) r.0 in
    omega (arith, bit_and_step (bit_and a b) c, bit_and_step a (bit_and b c), l.1, r.1, hl, hr, ih)
  where
    bit_and_parts :
        (a b : ℕ)
        → (bit_and a b / 2 ≡ bit_and (a / 2) (b / 2)) × (bit_and a b % 2 ≡ min (a % 2) (b % 2))
    bit_and_parts a b = omega (arith, bit_and_step a b)

pub bit_and_assoc : (a b c : ℕ) → bit_and (bit_and a b) c ≡ bit_and a (bit_and b c)
bit_and_assoc a =
    halving (λ a. (b c : ℕ) → bit_and (bit_and a b) c ≡ bit_and a (bit_and b c))
      (λ b c.
        ap (λ t. bit_and t c) (zero-bit_and b) ∙ zero-bit_and c ∙ sym (zero-bit_and (bit_and b c)))
      (λ n ih b c. bit_and_assoc_halves (suc n) b c (ih (b / 2) (c / 2))) a

bit_and_middle_fields :
    (k m q r : ℕ) → r < 2 ^ k → bit_and (q * 2 ^ k + r) ((2 ^ m - 1) * 2 ^ k) ≡ q % 2 ^ m * 2 ^ k
bit_and_middle_fields zero m q r h = ground (arith, bit_and_low m q)
bit_and_middle_fields (suc k) m q r h = ground (
  arith,
  double_field q k,
  double_field (q % 2 ^ m) k,
  double_field (2 ^ m - 1) k,
  bit_and_step (q * 2 ^ suc k + r) ((2 ^ m - 1) * 2 ^ suc k),
  bit_and_middle_fields k m q (r / 2) (omega (arith, pow-suc 2 k)),
)

-- A mask of `m` ones above `k` zeros keeps a field.
pub bit_and_middle : (k m a : ℕ) → bit_and a ((2 ^ m - 1) * 2 ^ k) ≡ a / 2 ^ k % 2 ^ m * 2 ^ k
bit_and_middle k m a =
    ground (arith, one-le-pow k 2, bit_and_middle_fields k m (a / 2 ^ k) (a % 2 ^ k))

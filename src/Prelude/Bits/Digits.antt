-- ===== src/Prelude/Bits/Digits.antt =====
-- Each native bit operation is a recursion on binary digits. Here is its equation for the lowest
-- digit, with no count of digits left in it, and the induction that goes with such equations.
use Prim.Native.Nat.{
  ℕ, zero, suc, ◌+◌, ◌*◌, ◌/◌, ◌%◌, ◌≤◌, ◌<◌, min, max, digits, differ, bit_and, bit_or, bit_xor,
  bit_and-bitwise, bit_or-bitwise, bit_xor-bitwise,
}
use mathlib.Core.Path.{◌≡◌, refl, ap}
use native.Mathlib.Omega.{arith}

module _ {κ} (P : ℕ → Type κ) (base : P zero) (step : (n : ℕ) → P (suc n / 2) → P (suc n)) where
  halving_below : (bound n : ℕ) → n ≤ bound → P n
  halving_below bound zero h = base
  halving_below zero (suc n) h = absurd (omega arith)
  halving_below (suc bound) (suc n) h = step n (halving_below bound (suc n / 2) (omega arith))

  -- What holds of 0, and of a number when it holds of its half, holds of every number.
  pub halving : (n : ℕ) → P n
  halving n = halving_below n n (omega arith)

module _ (z : ℕ → ℕ) (f : ℕ → ℕ → ℕ) where
  -- A count of digits that is large enough may be replaced by another.
  digits_count : (a i j b : ℕ) → a ≤ i → a ≤ j → digits z f i a b ≡ digits z f j a b
  digits_count zero zero zero b hi hj = refl
  digits_count zero (suc i) zero b hi hj = refl
  digits_count zero zero (suc j) b hi hj = refl
  digits_count zero (suc i) (suc j) b hi hj = refl
  digits_count (suc a) zero j b hi hj = absurd (omega arith)
  digits_count (suc a) (suc i) zero b hi hj = absurd (omega arith)
  digits_count (suc a) (suc i) (suc j) b hi hj =
      ap (λ t. t * 2 + f (suc a % 2) (b % 2))
        (digits_count (suc a / 2) i j (b / 2) (omega arith) (omega arith))

  digits_lowest :
      (a b : ℕ)
      → digits z f (suc a) (suc a) b
        ≡ digits z f (suc a / 2) (suc a / 2) (b / 2) * 2 + f (suc a % 2) (b % 2)
  digits_lowest a b =
      ap (λ t. t * 2 + f (suc a % 2) (b % 2))
        (digits_count (suc a / 2) a (suc a / 2) (b / 2) (omega arith) (omega arith))

pub bit_or_step : (x y : ℕ) → bit_or x y ≡ max (x % 2) (y % 2) + 2 * bit_or (x / 2) (y / 2)
bit_or_step zero y = simp bit_or-bitwise (omega arith)
bit_or_step (suc x) y = simp bit_or-bitwise (omega (arith, digits_lowest (λ d. d) max x y))

pub bit_and_step : (x y : ℕ) → bit_and x y ≡ min (x % 2) (y % 2) + 2 * bit_and (x / 2) (y / 2)
bit_and_step zero y = simp bit_and-bitwise (omega arith)
bit_and_step (suc x) y = simp bit_and-bitwise (omega (arith, digits_lowest (λ d. 0) min x y))

differ_digits : (x y : ℕ) → x < 2 → y < 2 → differ x y ≡ (x + y) % 2
differ_digits zero y hx hy = omega arith
differ_digits (suc zero) zero hx hy = refl
differ_digits (suc zero) (suc zero) hx hy = refl
differ_digits (suc zero) (suc (suc y)) hx hy = absurd (omega arith)
differ_digits (suc (suc x)) y hx hy = absurd (omega arith)

bit_xor_digits : (a b : ℕ) → bit_xor a b ≡ bit_xor (a / 2) (b / 2) * 2 + differ (a % 2) (b % 2)
bit_xor_digits zero b = simp bit_xor-bitwise (omega arith)
bit_xor_digits (suc a) b = simp bit_xor-bitwise (digits_lowest (λ b. b) differ a b)

pub bit_xor_step : (a b : ℕ) → bit_xor a b ≡ bit_xor (a / 2) (b / 2) * 2 + (a % 2 + b % 2) % 2
bit_xor_step a b =
    omega (arith, bit_xor_digits a b, differ_digits (a % 2) (b % 2) (omega arith) (omega arith))

-- ===== src/Stm/Gray.antt =====
-- stm_parser.go: binToGray and grayToBin, the code in which STM version 4 sends timestamps.
mod Examples
use coresight.Prelude.{
  ℕ, zero, suc, ◌+◌, ◌*◌, ◌/◌, ◌^◌, ◌<◌, ◌≤◌, ◌≡◌, refl, ap, ◌∙◌, sym, arith, Bool, true, false,
  Bool-cases, inl, inr, bit_xor, shr, ◌==◌, if◌then◌else◌, IsU64,
}
use coresight.Prelude.Bits.{
  bit_xor_assoc, bit_xor_self, bit_xor-zero, zero-bit_xor, bit_xor_parts, bit_xor-lt,
}
use native.Mathlib.Nat.{pow-suc}

unfoldable pub bin_to_gray : ℕ → ℕ
bin_to_gray bin = bit_xor bin (shr bin 1)

-- `for ; gray != 0; gray >>= 1 { bin ^= gray }` with the rounds that are left.
pub gray_loop : ℕ → ℕ → ℕ → ℕ
gray_loop zero gray bin = bin
gray_loop (suc rounds) gray bin =
    let rest = gray_loop rounds (shr gray 1) (bit_xor bin gray) in if gray == 0 then bin else rest

-- A uint64 is 0 after 64 shifts.
unfoldable pub gray_to_bin : ℕ → ℕ
unfolding gray_loop
gray_to_bin gray = gray_loop 64 gray 0

-- A round may be made also when the code is 0 already: it changes nothing.
gray_loop_zero : (n bin : ℕ) → gray_loop n 0 bin ≡ bin
unfolding gray_loop
gray_loop_zero zero bin = refl
gray_loop_zero (suc n) bin = refl

gray_loop_round :
    (n gray bin : ℕ) → gray_loop (suc n) gray bin ≡ gray_loop n (shr gray 1) (bit_xor bin gray)
unfolding gray_loop
gray_loop_round n gray bin = elim (Bool-cases (gray == 0)) [
  | inl z ↦
      let e : gray ≡ 0 = ground arith in rw e (sym (gray_loop_zero n _) ∙ rw (bit_xor-zero bin))
  | inr p ↦ rw p
]

-- With as many rounds as the code has digits the loop ends, and more rounds change nothing.
gray_loop_enough :
    (n more gray bin : ℕ) → gray < 2 ^ n → gray_loop (n + more) gray bin ≡ gray_loop n gray bin
gray_loop_enough zero more gray bin h =
    let e : gray ≡ 0 = omega arith in
    rw e (gray_loop_zero (zero + more) bin ∙ sym (gray_loop_zero zero bin))
gray_loop_enough (suc n) more gray bin h =
    let e : suc n + more ≡ suc (n + more) = omega arith in
    rw (e, gray_loop_round (n + more) gray bin, gray_loop_round n gray bin)
      (gray_loop_enough n more (shr gray 1) (bit_xor bin gray) (omega (arith, pow-suc 2 n)))

xor_cancel : (acc b c : ℕ) → bit_xor (bit_xor acc (bit_xor b c)) c ≡ bit_xor acc b
xor_cancel acc b c = simp (bit_xor_assoc, bit_xor_self, bit_xor-zero)

gray_loop-code : (n b acc : ℕ) → b < 2 ^ n → gray_loop n (bin_to_gray b) acc ≡ bit_xor acc b
unfolding bin_to_gray
gray_loop-code zero b acc h =
    let e : b ≡ 0 = omega arith in rw e (unfold gray_loop in sym (bit_xor-zero acc))
gray_loop-code (suc n) b acc h =
    gray_loop_round n (bin_to_gray b) acc
    ∙ ap (λ g. gray_loop n g (bit_xor acc (bin_to_gray b))) (bit_xor_parts b (b / 2)).0
    ∙ gray_loop-code n (b / 2) (bit_xor acc (bin_to_gray b)) (omega (arith, pow-suc 2 n))
    ∙ xor_cancel acc b (b / 2)

-- Decoding the Gray code of a uint64 gives the number back, and 64 rounds of the loop are enough
-- for every uint64: any larger bound gives the same result.
pub gray_to_bin-bin_to_gray :
    (b more : ℕ)
    → IsU64 b
    → (gray_to_bin (bin_to_gray b) ≡ b)
      × (gray_loop (64 + more) (bin_to_gray b) 0 ≡ gray_to_bin (bin_to_gray b))
unfolding gray_to_bin
gray_to_bin-bin_to_gray b more h =
    (gray_loop-code 64 b 0 h ∙ zero-bit_xor b, gray_loop_enough 64 more (bin_to_gray b) 0 coded)
  where
    coded : bin_to_gray b < 2 ^ 64
    coded = unfold bin_to_gray in bit_xor-lt 64 b (b / 2) h (omega arith)

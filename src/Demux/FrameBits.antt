-- ===== src/Demux/FrameBits.antt =====
-- The bits that unpacking a frame tests, as arithmetic on bytes.
use coresight.Prelude.{
  ℕ, zero, suc, ◌+◌, ◌/◌, ◌%◌, ◌^◌, ◌≡◌, arith, ◌/=◌, bit_and, bit_or, shr, sym, ap, ◌∙◌,
}
use coresight.Prelude.Bits.{bit_and_low, bit_and_comm, bit_or-zero}
use native.Mathlib.Nat.{pow-suc, div-div-eq-div-mul}
use coresight.Prelude.Bits.Digits.{bit_and_step, bit_or_step}
use coresight.Demux.State.{Demuxer}
use coresight.Demux.Unpack.{has_flag, frame_byte}
use coresight.Demux.Tags.{is_odd}

pub odd_bit : (b : ℕ) → (bit_and b 1 /= 0) ≡ is_odd b
odd_bit b = ground (arith, bit_and_low 1 b)

pub id_bits : (b : ℕ) → bit_and (shr b 1) 0x7f ≡ b / 2 % 128
id_bits b = ground (arith, bit_and_low 7 (b / 2))

pub set_low_bit : (b : ℕ) → b % 2 ≡ 0 → bit_or b 1 ≡ b + 1
set_low_bit b h = omega (arith, bit_or_step b 1, bit_or-zero (b / 2), h)

pub flag_test : (k x : ℕ) → (bit_and (2 ^ k) x /= 0) ≡ is_odd (x / 2 ^ k)
flag_test zero x = ground (arith, bit_and_comm 1 x, bit_and_low 1 x)
flag_test (suc k) x =
    ground (arith, pow-suc 2 k, bit_and_step (2 ^ suc k) x, flag_test k (x / 2), halved k x)
  where
    halved : (k x : ℕ) → x / 2 ^ suc k ≡ x / 2 / 2 ^ k
    halved k x =
        ap (λ (p : ℕ). x / p) (omega (arith, pow-suc 2 k)) ∙ sym (div-div-eq-div-mul x 2 (2 ^ k))

pub has_flag-odd : (k : ℕ) (d : Demuxer) → has_flag (2 ^ k) d ≡ is_odd (frame_byte d 15 / 2 ^ k)
unfolding has_flag
has_flag-odd k d = flag_test k (frame_byte d 15)

-- ===== src/Stm/Packet/Timestamps.antt =====
-- What `setTimestamp` does to the Timestamp field, in plain arithmetic.
use coresight.Prelude.{
  ℕ, ◌+◌, ◌-◌, ◌*◌, ◌/◌, ◌%◌, ◌^◌, ◌≤◌, ◌≡◌, arith, IsU64, not64, bit_and, bit_or, refl, ap, true,
  false, Bool-cases, inl, inr, ◌⊎◌, ◌==◌, leb,
}
use coresight.Prelude.Bits.{bit_and_low, bit_and_high, bit_or_fields, pow2_add, div_pow2-lt}
use coresight.Stm.Packet.{bit_mask, updated_timestamp, set_timestamp, StmPacket}
use native.Mathlib.Nat.{one-le-pow}

bit_mask-pow : (k : ℕ) → k ≤ 64 → bit_mask k ≡ 2 ^ k - 1
unfolding bit_mask
bit_mask-pow k h = elim (Bool-cases (k == 0)) [
  | inl z ↦ let e : k ≡ 0 = ground arith in rw e
  | inr z ↦ elim (Bool-cases (leb 64 k)) [
    | inl big ↦ let e : k ≡ 64 = ground arith in rw e
    | inr small ↦ rw (z, small)
  ]
]

-- The new value keeps the old digits from `k` on, and takes the lowest `k` digits of `ts`.
updated-fields :
    (k m old ts : ℕ)
    → m + k ≡ 64
    → IsU64 old
    → bit_or (bit_and old (not64 (2 ^ k - 1))) (bit_and ts (2 ^ k - 1))
      ≡ old / 2 ^ k * 2 ^ k + ts % 2 ^ k
updated-fields k m old ts h ho =
    rw (mask, bit_and_high k m old (div_pow2-lt k m old (rw h ho)), bit_and_low k ts)
      (bit_or_fields k (old / 2 ^ k) (ts % 2 ^ k) (omega (arith, one-le-pow k 2)))
  where
    h64 : 2 ^ 64 ≡ 2 ^ m * 2 ^ k
    h64 = rw (← pow2_add, h) refl

    pred_pow : 2 ^ m ≡ 2 ^ m - 1 + 1
    pred_pow = omega (arith, one-le-pow m 2)

    mask : not64 (2 ^ k - 1) ≡ (2 ^ m - 1) * 2 ^ k
    mask = omega (arith, h64, one-le-pow k 2, ap (λ (t : ℕ). t * 2 ^ k) pred_pow)

-- On uint64 values `setTimestamp` with `bits` new bits, at most 64, keeps the digits of the old timestamp above them and takes
-- the rest from the new value. It marks the packet as timestamped and changes nothing else.
pub set_timestamp-splice :
    (p : StmPacket) (ts bits : ℕ)
    → bits ≤ 64
    → IsU64 p.timestamp
    → IsU64 ts
    → set_timestamp ts bits p ≡ record p {
      timestamp = p.timestamp / 2 ^ bits * 2 ^ bits + ts % 2 ^ bits;
      pkt_ts_bits = bits;
      has_ts = true;
    }
unfolding set_timestamp
set_timestamp-splice p ts bits h ho ht =
    ap (λ t. record p { timestamp = t; pkt_ts_bits = bits; has_ts = true })
      (splice (Bool-cases (bits == 64)))
  where
    splice :
        ((bits == 64) ≡ true) ⊎ ((bits == 64) ≡ false)
        → updated_timestamp p.timestamp ts bits ≡ p.timestamp / 2 ^ bits * 2 ^ bits + ts % 2 ^ bits
    splice (inl e) = let b : bits ≡ 64 = ground arith in rw (e, b) (omega arith)
    splice (inr e) =
        rw (e, bit_mask-pow bits h)
          (updated-fields bits (64 - bits) p.timestamp ts (omega arith) ho)

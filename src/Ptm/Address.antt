-- ===== src/Ptm/Address.antt =====
-- ptm_packet.go and ptm_parser.go: the compressed addresses of the A32 instruction set.
use native.Mathlib.Nat.{one-le-pow}
use coresight.Ptm.Merge.{update_address-low}
use coresight.Idec.Info.{isa_arm}
use Prim.Native.Nat.{zero}
use coresight.Prelude.{
  [], ◌∷◌, ℕ, List, suc, ◌<◌, bit_and, ◌+◌, ◌^◌, ◌≡◌, ◌*◌, bit_or, ◌/◌, ◌%◌, arith, some, ◌-◌, u32,
  shl, ap, ◌∙◌, ltb, ◌≤◌, false, Option, none, u8, refl,
}
use coresight.Prelude.Bits.{bit_and_low, bit_or_fields, bit_or_comm, bit_and_middle, zero-bit_or}
use coresight.Ptm.Packet.{PtmPacket, update_address}
use coresight.Ptm.Extract.{address_of, addr_loop, addr_part, addr_field}

-- What the trace sends of an address in `n` bytes, and how many bits that are: six of the address in
-- the first byte, seven in each that is followed by another, six in the last one, three in a fifth.
abbrev pub arm_bytes : ℕ → ℕ → List ℕ
arm_bytes zero a = []
arm_bytes (suc zero) a = (1 + 2 * (a / 2 ^ 2 % 2 ^ 6)) ∷ []
arm_bytes (suc (suc zero)) a = (129 + 2 * (a / 2 ^ 2 % 2 ^ 6)) ∷ (a / 2 ^ 8 % 2 ^ 6) ∷ []
arm_bytes (suc (suc (suc zero))) a =
    (129 + 2 * (a / 2 ^ 2 % 2 ^ 6)) ∷ (128 + a / 2 ^ 8 % 2 ^ 7) ∷ (a / 2 ^ 15 % 2 ^ 6) ∷ []
arm_bytes (suc (suc (suc (suc zero)))) a =
    (129 + 2 * (a / 2 ^ 2 % 2 ^ 6))
    ∷ (128 + a / 2 ^ 8 % 2 ^ 7)
    ∷ (128 + a / 2 ^ 15 % 2 ^ 7)
    ∷ (a / 2 ^ 22 % 2 ^ 6)
    ∷ []
arm_bytes _ a =
    (129 + 2 * (a / 2 ^ 2 % 2 ^ 6))
    ∷ (128 + a / 2 ^ 8 % 2 ^ 7)
    ∷ (128 + a / 2 ^ 15 % 2 ^ 7)
    ∷ (128 + a / 2 ^ 22 % 2 ^ 7)
    ∷ (a / 2 ^ 29 % 2 ^ 3)
    ∷ []

abbrev pub arm_width : ℕ → ℕ
arm_width zero = 0
arm_width (suc zero) = 8
arm_width (suc (suc zero)) = 14
arm_width (suc (suc (suc zero))) = 21
arm_width (suc (suc (suc (suc zero)))) = 28
arm_width _ = 32

-- A byte whose field goes above those that are there
above :
    (k m v b : ℕ)
    → v < 2 ^ k
    → bit_and b (2 ^ m - 1) * 2 ^ k < 2 ^ 32
    → bit_or v (u32 (shl (bit_and b (2 ^ m - 1)) k)) ≡ v + b % 2 ^ m * 2 ^ k
above k m v b h fits =
    let q = bit_and b (2 ^ m - 1) in
    let e : u32 (shl q k) ≡ q * 2 ^ k = omega arith in
    let f : q * 2 ^ k ≡ b % 2 ^ m * 2 ^ k = ap (λ t. t * 2 ^ k) (bit_and_low m b) in
    rw e (bit_or_comm v (q * 2 ^ k) ∙ bit_or_fields k q v h ∙ omega (arith, f))

lowest : (b : ℕ) → bit_or 0 (u32 (shl (bit_and b 0x7e) 0)) ≡ b / 2 % 2 ^ 6 * 2
lowest b = omega (arith, zero-bit_or (u32 (shl (bit_and b 0x7e) 0)), bit_and_middle 1 6 b)

one_byte : (b0 : ℕ) → address_of isa_arm 1 (b0 ∷ []) ≡ some (2 * (b0 / 2 % 2 ^ 6 * 2), 8)
unfolding address_of addr_loop addr_part addr_field
one_byte b0 = rw (lowest b0) (ap (λ (v : ℕ). some (v, 8)) (omega arith))

two_bytes :
    (b0 b1 : ℕ)
    → address_of isa_arm 2 (b0 ∷ b1 ∷ []) ≡ some (2 * (b0 / 2 % 2 ^ 6 * 2 + b1 % 2 ^ 6 * 2 ^ 7), 14)
unfolding address_of addr_loop addr_part addr_field
two_bytes b0 b1 =
    rw
      (lowest b0, above 7 6 (b0 / 2 % 2 ^ 6 * 2) b1 (omega arith) (omega (arith, bit_and_low 6 b1)))
      (ap (λ (v : ℕ). some (v, 14)) (omega arith))

three_bytes :
    (b0 b1 b2 : ℕ)
    → address_of isa_arm 3 (b0 ∷ b1 ∷ b2 ∷ [])
      ≡ some (2 * (b0 / 2 % 2 ^ 6 * 2 + b1 % 2 ^ 7 * 2 ^ 7 + b2 % 2 ^ 6 * 2 ^ 14), 21)
unfolding address_of addr_loop addr_part addr_field
three_bytes b0 b1 b2 =
    rw
      (
        lowest b0,
        above 7 7 (b0 / 2 % 2 ^ 6 * 2) b1 (omega arith) (omega (arith, bit_and_low 7 b1)),
        above 14 6 (b0 / 2 % 2 ^ 6 * 2 + b1 % 2 ^ 7 * 2 ^ 7) b2 (omega arith)
            (omega (arith, bit_and_low 6 b2)),
      )
      (ap (λ (v : ℕ). some (v, 21)) (omega arith))

four_bytes :
    (b0 b1 b2 b3 : ℕ)
    → address_of isa_arm 4 (b0 ∷ b1 ∷ b2 ∷ b3 ∷ [])
      ≡ some (
        2 * (b0 / 2 % 2 ^ 6 * 2 + b1 % 2 ^ 7 * 2 ^ 7 + b2 % 2 ^ 7 * 2 ^ 14 + b3 % 2 ^ 6 * 2 ^ 21),
        28,
      )
unfolding address_of addr_loop addr_part addr_field
four_bytes b0 b1 b2 b3 =
    rw
      (
        lowest b0,
        above 7 7 (b0 / 2 % 2 ^ 6 * 2) b1 (omega arith) (omega (arith, bit_and_low 7 b1)),
        above 14 7 (b0 / 2 % 2 ^ 6 * 2 + b1 % 2 ^ 7 * 2 ^ 7) b2 (omega arith)
            (omega (arith, bit_and_low 7 b2)),
        above 21 6 (b0 / 2 % 2 ^ 6 * 2 + b1 % 2 ^ 7 * 2 ^ 7 + b2 % 2 ^ 7 * 2 ^ 14) b3 (omega arith)
            (omega (arith, bit_and_low 6 b3)),
      )
      (ap (λ (v : ℕ). some (v, 28)) (omega arith))

-- The fifth byte always fits.
fifth_byte :
    (v b : ℕ)
    → addr_loop isa_arm 5 4 28 v 28 (b ∷ []) ≡ some (bit_or v (u32 (shl (bit_and b 0x7) 28)), 31)
unfolding addr_loop addr_part addr_field
fifth_byte v b =
    let fits : ltb 15 (bit_and b 0x7) ≡ false = ground (arith, bit_and_low 3 b) in
    ground (arith, fits)

address_of-loop :
    (n : ℕ) (bs : List ℕ) (v bits : ℕ)
    → addr_loop isa_arm n 0 0 0 0 bs ≡ some (v, bits)
    → address_of isa_arm n bs ≡ some (u32 (shl v 1), u8 (suc bits))
unfolding address_of
address_of-loop n bs v bits h = rw (h, address_of) refl

five_bytes :
    (b0 b1 b2 b3 b4 : ℕ)
    → address_of isa_arm 5 (b0 ∷ b1 ∷ b2 ∷ b3 ∷ b4 ∷ [])
      ≡ some (
        2
            * (b0 / 2 % 2 ^ 6 * 2
                + b1 % 2 ^ 7 * 2 ^ 7
                + b2 % 2 ^ 7 * 2 ^ 14
                + b3 % 2 ^ 7 * 2 ^ 21
                + b4 % 2 ^ 3 * 2 ^ 28),
        32,
      )
unfolding addr_loop addr_part addr_field
five_bytes b0 b1 b2 b3 b4 =
    let v =
      bit_or
        (bit_or (bit_or (bit_or 0 (u32 (shl (bit_and b0 0x7e) 0))) (u32 (shl (bit_and b1 0x7f) 7)))
          (u32 (shl (bit_and b2 0x7f) 14)))
        (u32 (shl (bit_and b3 0x7f) 21)) in
    address_of-loop 5 (b0 ∷ b1 ∷ b2 ∷ b3 ∷ b4 ∷ []) (bit_or v (u32 (shl (bit_and b4 0x7) 28))) 31
      (fifth_byte v b4)
    ∙ rw
        (
          lowest b0,
          above 7 7 (b0 / 2 % 2 ^ 6 * 2) b1 (omega arith) (omega (arith, bit_and_low 7 b1)),
          above 14 7 (b0 / 2 % 2 ^ 6 * 2 + b1 % 2 ^ 7 * 2 ^ 7) b2 (omega arith)
              (omega (arith, bit_and_low 7 b2)),
          above 21 7 (b0 / 2 % 2 ^ 6 * 2 + b1 % 2 ^ 7 * 2 ^ 7 + b2 % 2 ^ 7 * 2 ^ 14) b3
              (omega arith) (omega (arith, bit_and_low 7 b3)),
          above 28 3
              (b0 / 2 % 2 ^ 6 * 2 + b1 % 2 ^ 7 * 2 ^ 7 + b2 % 2 ^ 7 * 2 ^ 14 + b3 % 2 ^ 7 * 2 ^ 21)
              b4 (omega arith) (omega (arith, bit_and_low 3 b4)),
        )
        (ap (λ (v : ℕ). some (v, 32)) (omega arith))

-- The bytes of an address give its lowest bits.
address_of-arm_bytes :
    (n a : ℕ)
    → 0 < n
    → n < 6
    → a % 4 ≡ 0
    → a < 2 ^ 32
    → address_of isa_arm n (arm_bytes n a) ≡ some (a % 2 ^ arm_width n, arm_width n)
address_of-arm_bytes zero a pos max h w = absurd (omega arith)
address_of-arm_bytes (suc zero) a pos max h w =
    one_byte (1 + 2 * (a / 2 ^ 2 % 2 ^ 6)) ∙ ap (λ (v : ℕ). some (v, 8)) (omega arith)
address_of-arm_bytes (suc (suc zero)) a pos max h w =
    two_bytes (129 + 2 * (a / 2 ^ 2 % 2 ^ 6)) (a / 2 ^ 8 % 2 ^ 6)
    ∙ ap (λ (v : ℕ). some (v, 14)) (omega arith)
address_of-arm_bytes (suc (suc (suc zero))) a pos max h w =
    three_bytes (129 + 2 * (a / 2 ^ 2 % 2 ^ 6)) (128 + a / 2 ^ 8 % 2 ^ 7) (a / 2 ^ 15 % 2 ^ 6)
    ∙ ap (λ (v : ℕ). some (v, 21)) (omega arith)
address_of-arm_bytes (suc (suc (suc (suc zero)))) a pos max h w =
    four_bytes (129 + 2 * (a / 2 ^ 2 % 2 ^ 6)) (128 + a / 2 ^ 8 % 2 ^ 7) (128 + a / 2 ^ 15 % 2 ^ 7)
      (a / 2 ^ 22 % 2 ^ 6)
    ∙ ap (λ (v : ℕ). some (v, 28)) (omega arith)
address_of-arm_bytes (suc (suc (suc (suc (suc zero))))) a pos max h w =
    five_bytes (129 + 2 * (a / 2 ^ 2 % 2 ^ 6)) (128 + a / 2 ^ 8 % 2 ^ 7) (128 + a / 2 ^ 15 % 2 ^ 7)
      (128 + a / 2 ^ 22 % 2 ^ 7) (a / 2 ^ 29 % 2 ^ 3)
    ∙ ap (λ (v : ℕ). some (v, 32)) (omega arith)
address_of-arm_bytes (suc (suc (suc (suc (suc (suc n)))))) a pos max h w = absurd (omega arith)

arm_width-le : (n : ℕ) → arm_width n ≤ 32
arm_width-le zero = omega arith
arm_width-le (suc zero) = omega arith
arm_width-le (suc (suc zero)) = omega arith
arm_width-le (suc (suc (suc zero))) = omega arith
arm_width-le (suc (suc (suc (suc zero)))) = omega arith
arm_width-le (suc (suc (suc (suc (suc n))))) = omega arith

-- What a packet takes from the bytes of an address
abbrev pub received : ℕ → List ℕ → PtmPacket → Option PtmPacket
received n bs p = elim (address_of isa_arm n bs) [
  | none ↦ none
  | some (v, bits) ↦ some (update_address v bits p)
]

abbrev pub address_in : Option PtmPacket → ℕ
address_in none = 0
address_in (some p) = p.addr_val

-- An A32 address that is sent in one to five bytes, and that agrees with the address of the packet
-- before above the bits of those bytes, is the address that the packet then has.
pub received-arm_bytes :
    (n a : ℕ) (p : PtmPacket)
    → 0 < n
    → n < 6
    → a % 4 ≡ 0
    → a < 2 ^ 32
    → p.addr_val < 2 ^ 64
    → a / 2 ^ arm_width n ≡ p.addr_val / 2 ^ arm_width n
    → address_in (received n (arm_bytes n a) p) ≡ a
received-arm_bytes n a p pos max h w old same =
    let bits = arm_width n in
    let q = ap (λ (t : ℕ). t * 2 ^ bits) same in
    let m = update_address-low bits (a % 2 ^ bits) p (arm_width-le n) old in
    rw (address_of-arm_bytes n a pos max h w, address_in)
      (m ∙ ground (arith, q, one-le-pow bits 2 (omega arith)))

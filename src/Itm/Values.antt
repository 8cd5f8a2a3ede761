-- ===== src/Itm/Values.antt =====
-- itm_packet.go: the value of 40 bits and more of a global timestamp packet.
use coresight.Prelude.{ℕ, ◌/◌, ◌%◌, ◌^◌, ◌*◌, ◌<◌, ◌≡◌, arith}
use coresight.Prelude.Bits.{bit_and_low, bit_or_fields, bit_or_comm}
use coresight.Itm.Packet.{ItmPacket, set_ext_value, ext_value}

-- A value of at most 40 bits is kept by SetExtValue and given back by ExtValue.
pub ext_value-set_ext_value :
    (v : ℕ) (p : ItmPacket) → v < 2 ^ 40 → ext_value (set_ext_value v p) ≡ v
unfolding ext_value set_ext_value
ext_value-set_ext_value v p h =
    let low = bit_and_low 32 v in
    let high = bit_and_low 8 (v / 2 ^ 32) in
    let q = v / 2 ^ 32 in
    let r = v % 2 ^ 32 in
    ground (arith, h, low, high, bit_or_comm r (q * 2 ^ 32), bit_or_fields 32 q r (omega arith))

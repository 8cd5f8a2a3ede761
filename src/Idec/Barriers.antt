-- ===== src/Idec/Barriers.antt =====
-- idec_arminst.go: barriers, in the three instruction sets.
use coresight.Prelude.{ℕ, bit_and, ◌==◌, ◌/=◌, if◌then◌else◌}

-- armBarrierT
pub data ArmBarrier : Type 0 where
  barrier_none barrier_isb barrier_dmb barrier_dsb : ArmBarrier

unfoldable pub decode_system_barrier : ℕ → ArmBarrier
decode_system_barrier value =
    if value == 0x40
    then barrier_dsb
    else if value == 0x50
    then barrier_dmb
    else if value == 0x60
    then barrier_isb
    else barrier_none

unfoldable pub decode_cp15_barrier : ℕ → ArmBarrier
decode_cp15_barrier value =
    if value == 0x9a
    then barrier_dsb
    else if value == 0xba
    then barrier_dmb
    else if value == 0x95
    then barrier_isb
    else barrier_none

unfoldable pub inst_arm_barrier : ℕ → ArmBarrier
unfolding decode_system_barrier decode_cp15_barrier
inst_arm_barrier inst =
    if bit_and inst 0xfff00000 == 0xf5700000
    then decode_system_barrier (bit_and inst 0xf0)
    else if bit_and inst 0x0fff0f00 == 0x0e070f00
    then decode_cp15_barrier (bit_and inst 0xff)
    else barrier_none

unfoldable pub inst_thumb_barrier : ℕ → ArmBarrier
unfolding decode_system_barrier decode_cp15_barrier
inst_thumb_barrier inst =
    if bit_and inst 0xffffff00 == 0xf3bf8f00
    then decode_system_barrier (bit_and inst 0xf0)
    else if bit_and inst 0xffff0f00 == 0xee070f00
    then decode_cp15_barrier (bit_and inst 0xff)
    else barrier_none

unfoldable pub inst_a64_barrier : ℕ → ArmBarrier
inst_a64_barrier inst =
    if bit_and inst 0xfffff09f /= 0xd503309f
    then barrier_none
    else if bit_and inst 0x60 == 0x0
    then barrier_dsb
    else if bit_and inst 0x60 == 0x20
    then barrier_dmb
    else if bit_and inst 0x60 == 0x40
    then barrier_isb
    else barrier_none

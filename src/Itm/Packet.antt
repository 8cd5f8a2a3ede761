-- ===== src/Itm/Packet.antt =====
-- itm_packet.go and itm_config.go: the ITM packet and the configuration.
use coresight.Prelude.{
  ℕ, zero, suc, ◌-◌, ◌*◌, ◌^◌, Bool, true, false, ◌||◌, ltb, ◌==◌, bit_and, bit_or, shr, shl, u8,
  u32, if◌then◌else◌,
}

-- itmPktType
pub data ItmPktType : Type 0 where
  not_sync incomplete_eot no_err_type async overflow swit dwt : ItmPktType
  ts_local ts_global1 ts_global2 extension bad_sequence reserved : ItmPktType

pub record ItmPacket : Type 0 where
  pub index : ℕ
  pub typ : ItmPktType
  pub src_id : ℕ  -- uint8
  pub value : ℕ  -- uint32
  pub val_sz : ℕ  -- uint8
  pub val_ext : ℕ  -- uint8
  pub err_type : ItmPktType

-- Clear leaves the index.
unfoldable pub clear : ItmPacket → ItmPacket
clear p = record p {
  typ = reserved;
  src_id = 0;
  value = 0;
  val_sz = 0;
  val_ext = 0;
  err_type = no_err_type;
}

unfoldable pub update_err_type : ItmPktType → ItmPacket → ItmPacket
update_err_type t p = record p { err_type = p.typ; typ = t }

-- Type >= itmPktBadSequence
unfoldable pub is_bad_packet : ItmPacket → Bool
is_bad_packet p = elim p.typ [ bad_sequence ↦ true | reserved ↦ true | _ ↦ false ]

-- SetValue: valMasks[n - 1] is 2 ^ (8 * n) - 1.
unfoldable pub set_value : ℕ → ℕ → ItmPacket → ItmPacket
set_value val sz p =
    let n = if ltb sz 1 || ltb 4 sz then 4 else sz in
    record p { val_sz = n; value = bit_and val (2 ^ (8 * n) - 1) }

unfoldable pub set_ext_value : ℕ → ItmPacket → ItmPacket
set_ext_value v p = record p {
  value = u32 (bit_and v 0xffffffff);
  val_ext = u8 (bit_and (shr v 32) 0xff);
  val_sz = 5;
}

unfoldable pub ext_value : ItmPacket → ℕ
ext_value p = if ltb p.val_sz 5 then p.value else bit_or p.value (shl p.val_ext 32)

-- itmConfig
pub record ItmConfig : Type 0 where
  pub reg_tcr : ℕ  -- uint32

unfoldable pub trace_id : ItmConfig → ℕ
trace_id c = u8 (shr (bit_and c.reg_tcr 0x007f_0000) 16)

-- tsPrescaleValues
abbrev ts_prescale_values : ℕ → ℕ
ts_prescale_values zero = 1
ts_prescale_values (suc zero) = 4
ts_prescale_values (suc (suc zero)) = 16
ts_prescale_values _ = 64

unfoldable pub ts_prescale_value : ItmConfig → ℕ
ts_prescale_value c =
    if bit_and c.reg_tcr 0x10 == 0
    then ts_prescale_values 0
    else ts_prescale_values (bit_and (shr c.reg_tcr 8) 0x3)

unfoldable pub set_trace_id : ℕ → ItmConfig → ItmConfig
set_trace_id id c = record c {
  reg_tcr =
      bit_or (bit_and c.reg_tcr (2 ^ 32 - 1 - 0x007f_0000)) (bit_and (u32 (shl id 16)) 0x007f_0000);
}

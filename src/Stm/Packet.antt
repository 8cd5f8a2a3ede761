-- ===== src/Stm/Packet.antt =====
-- stm_packet.go: an STM packet and the methods that fill it. Printing is left out.
mod Timestamps
mod Examples
use coresight.Prelude.{
  ℕ, ◌+◌, ◌-◌, ◌^◌, Bool, true, false, bit_and, bit_or, ◌==◌, leb, if◌then◌else◌, u16, not64,
}

-- stmPktType
pub data StmPktType : Type 0 where
  not_sync incomplete_eot no_err_type async : StmPktType
  version freq null trig gerr merr m8 c8 c16 flag d4 d8 d16 d32 d64 : StmPktType
  bad_sequence reserved : StmPktType

pub data TsType : Type 0 where
  ts_unknown ts_nat_binary ts_grey : TsType

pub record StmPacket : Type 0 where
  pub index : ℕ
  pub typ : StmPktType
  pub master : ℕ  -- uint8
  pub channel : ℕ  -- uint16
  pub timestamp : ℕ  -- uint64
  pub pkt_ts_bits : ℕ  -- uint8
  pub has_ts : Bool
  pub ts_type : TsType
  pub has_marker : Bool
  pub payload : ℕ  -- uint64
  pub err_type : StmPktType
  pub ts_update : ℕ  -- uint64

-- bitMask of protocol_types.go, for the bit counts of a uint8
unfoldable pub bit_mask : ℕ → ℕ
bit_mask bits = if bits == 0 then 0 else if leb 64 bits then 2 ^ 64 - 1 else 2 ^ bits - 1

unfoldable pub init_next_packet : StmPacket → StmPacket
init_next_packet p = record p {
  err_type = no_err_type;
  pkt_ts_bits = 0;
  has_ts = false;
  has_marker = false;
  payload = 0;
  ts_update = 0;
}

unfoldable pub init_start_state : StmPacket → StmPacket
unfolding init_next_packet
init_start_state p =
    init_next_packet
      (record p { master = 0; channel = 0; timestamp = 0; ts_type = ts_unknown; typ = not_sync })

unfoldable pub set_type : StmPktType → Bool → StmPacket → StmPacket
set_type t marker p =
    let q = record p { typ = t } in if marker then record q { has_marker = true } else q

unfoldable pub update_err_type : StmPktType → StmPacket → StmPacket
update_err_type t p = record p { err_type = p.typ; typ = t }

unfoldable pub set_master : ℕ → StmPacket → StmPacket
set_master m p = record p { master = m; channel = 0 }

unfoldable pub set_channel : ℕ → Bool → StmPacket → StmPacket
set_channel ch low8 p =
    if low8
    then record p { channel = bit_or (bit_and p.channel 0xff00) (bit_and ch 0x00ff) }
    else record p { channel = ch }

unfoldable pub on_version_pkt : TsType → StmPacket → StmPacket
on_version_pkt t p = record p { ts_type = t; master = 0; channel = 0 }

-- The value of the Timestamp field after `setTimestamp`.
unfoldable pub updated_timestamp : ℕ → ℕ → ℕ → ℕ
unfolding bit_mask
updated_timestamp old ts updated_bits =
    if updated_bits == 64
    then ts
    else let mask = bit_mask updated_bits in bit_or (bit_and old (not64 mask)) (bit_and ts mask)

unfoldable pub set_timestamp : ℕ → ℕ → StmPacket → StmPacket
unfolding updated_timestamp
set_timestamp ts updated_bits p = record p {
  timestamp = updated_timestamp p.timestamp ts updated_bits;
  pkt_ts_bits = updated_bits;
  has_ts = true;
}

unfoldable pub is_bad_packet : StmPktType → Bool
is_bad_packet bad_sequence = true
is_bad_packet reserved = true
is_bad_packet _ = false

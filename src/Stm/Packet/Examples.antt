-- ===== src/Stm/Packet/Examples.antt =====
-- The update of a timestamp at a concrete packet.
use coresight.Prelude.{◌≡◌, ◌+◌, ◌*◌, ◌/◌, ◌%◌, ◌^◌, true, arith}
use coresight.Stm.Packet.{StmPacket, set_timestamp}
use coresight.Stm.Packet.Timestamps.{set_timestamp-splice}
use coresight.Stm.Block.{zero_ctx}

abbrev stamped : StmPacket
stamped = record (zero_ctx.curr_packet) { timestamp = 0x1234_5678 }

set_timestamp-splice_example : set_timestamp 0xabc 8 stamped ≡ record stamped {
  timestamp = 0x1234_5678 / 2 ^ 8 * 2 ^ 8 + 0xabc % 2 ^ 8;
  pkt_ts_bits = 8;
  has_ts = true;
}
set_timestamp-splice_example =
    set_timestamp-splice stamped 0xabc 8 (omega arith) (omega arith) (omega arith)

-- ===== src/Stm/Block/Examples.antt =====
-- Runs of the STM decoder on concrete blocks.
use coresight.Prelude.{◌≡◌, ℕ, true, some, List, [], ◌∷◌, ◌++◌, replicate}
use coresight.Emitter.{Emitter}
use coresight.Stm.Packet.{StmPacket}
use coresight.Stm.Decoder.{StmDecoder}
use coresight.Stm.Block.Total.{write_all, write_all-returns}
use coresight.Stm.Block.{new_decoder}

abbrev observed : Emitter StmPacket
observed = record {
  element_sink = true;
  packet_observer = true;
  trace_end_observer = true;
  log = [];
}

abbrev fresh : StmDecoder
fresh = new_decoder (record { reg_tcsr = 0x0010_0000 }) observed

-- ASYNC, VERSION 3, master 0x12, a marked byte 0xa5 with no timestamp
abbrev trace : List ℕ
trace = replicate 10 0xff ++ 0x0f ∷ 0x0f ∷ 0x30 ∷ 0x11 ∷ 0x42 ∷ 0x5a ∷ []

-- ASYNC and the packets behind it, then the same trace cut in the middle of ASYNC.
write_all-returns_example :
    (d : StmDecoder) × (write_all
        ((0, trace) ∷ (16, trace) ∷ (32, 0xff ∷ 0xff ∷ []) ∷ [])
        (new_decoder (record { reg_tcsr = 0x0010_0000 }) observed)
      ≡ some d)
write_all-returns_example =
    write_all-returns (record { reg_tcsr = 0x0010_0000 }) observed
      ((0, trace) ∷ (16, trace) ∷ (32, 0xff ∷ 0xff ∷ []) ∷ [])

-- ===== src/Stm/Packets/Examples.antt =====
-- The theorems on data packets at a concrete D16 packet, whole and cut.
use coresight.Prelude.{refl, arith, true, [], ◌∷◌}
use coresight.Stm.State.{StmParseContext, proc_data}
use coresight.Stm.Fields.Registers.{w16}
use coresight.Stm.Packets.Payload.{Complete, method, method-Complete}
use coresight.Stm.Block.{zero_ctx}

-- The header nibble was the low half of a byte. The value 0xa5c3 follows, and then the nibble 8.
abbrev whole : StmParseContext
whole = record zero_ctx {
  process_state = proc_data;
  stream_sync = true;
  num_nibbles = 1;
  nibble_second = 0xa;
  nibble_second_valid = true;
  block = 0xc5 ∷ 0x83 ∷ [];
}

-- The block ends behind the first two nibbles of the value.
abbrev cut : StmParseContext
cut = record whole { block = 0x05 ∷ []; offset = 1 }

method-Complete_example : Complete w16 0xa5c3 (8 ∷ []) (method w16 whole)
method-Complete_example =
    method-Complete w16 0xa5c3 (8 ∷ []) whole
      (record { header_read = refl; no_timestamp = refl; empty_register = refl }) (omega arith) refl

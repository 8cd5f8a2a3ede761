-- ===== src/Stm/Packets/Split.antt =====
-- A data packet that is cut by the end of a trace block: the method waits, and goes on with the next
-- block as if there had been no cut.
use coresight.Prelude.{ℕ, ◌≡◌, none, List, []}
use coresight.Stm.State.{StmParseContext}
use coresight.Stm.Nibbles.Stream.{pending}
use coresight.Stm.Fields.{Outcome}
use coresight.Stm.Fields.Registers.{Width}
use coresight.Stm.Packets.Payload.{Started}

-- The start of `processData` on the next block.
abbrev pub feed : ℕ → List ℕ → StmParseContext → StmParseContext
feed index block c = record c { block = block; block_base = index; offset = 0 }

-- All of the block is read, and the packet is not complete.
pub record Waits (c : StmParseContext) (out : Outcome) : Type 0 where
  pub same_state : out.0.process_state ≡ c.process_state
  pub all_read : pending out.0 ≡ []
  pub no_error : out.1 ≡ none

-- The first call, on a block that ends in the packet.
record Cut (w : Width) (u n : ℕ) (c : StmParseContext) (out : Outcome) : Type 0 where
  waits : Waits c out
  started : Started w [] u out.0
  counted : out.0.num_nibbles ≡ n

-- ===== src/Stm/Parser/Examples.antt =====
-- The wait for ASYNC on a concrete block.
use coresight.Prelude.{◌≡◌, ◌+◌, [], ◌∷◌}
use coresight.Stm.State.{StmParseContext}
use coresight.Stm.Parser.{sync_loop, nibble_bound}
use coresight.Stm.Parser.Sync.{Ended, sync_loop-Ended}
use coresight.Stm.Block.{zero_ctx}

abbrev noise : StmParseContext
noise = record zero_ctx { block = 0xff ∷ 0x3f ∷ 0x12 ∷ [] }

sync_loop-Ended_example :
    Ended (sync_loop (nibble_bound noise) noise)
    × (sync_loop (nibble_bound noise + 5) noise ≡ sync_loop (nibble_bound noise) noise)
sync_loop-Ended_example = sync_loop-Ended 5 noise

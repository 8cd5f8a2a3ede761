-- ===== src/Stm/Nibbles/Examples.antt =====
-- The theorems on the reading of nibbles at concrete contexts.
use coresight.Prelude.{◌≡◌, refl, ◌%◌, false, leb, [], ◌∷◌, if◌then◌else◌}
use coresight.Stm.State.{StmParseContext}
use coresight.Stm.Nibbles.{read_nibble}
use coresight.Stm.Nibbles.Stream.{pending, read_nibble-pending}
use coresight.Stm.Nibbles.Sync.{see, see_run, IsClear, see-see_run}
use coresight.Stm.Block.{zero_ctx}

abbrev two_bytes : StmParseContext
two_bytes = record zero_ctx { block = 0x3f ∷ 0xa5 ∷ [] }

zero_ctx-IsClear : IsClear zero_ctx
zero_ctx-IsClear = record { no_start = refl; no_sync = refl; no_count = refl }

read_nibble-pending_example :
    let (c', done) = read_nibble two_bytes in
    (pending two_bytes ≡ (if done then c'.nibble ∷ pending c' else []))
    × (done ≡ false → c' ≡ two_bytes)
read_nibble-pending_example = read_nibble-pending two_bytes

see-see_run_example : (see 0 (see_run 22 zero_ctx)).is_sync ≡ leb 21 (22 % 256)
see-see_run_example = see-see_run 22 zero_ctx zero_ctx-IsClear

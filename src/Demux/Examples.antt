-- ===== src/Demux/Examples.antt =====
-- The theorems on the demultiplexer at concrete frames and blocks.
use coresight.Prelude.{
  ℕ, zero, suc, ◌<◌, ◌≢◌, arith, take, drop, ◌≡◌, refl, List, [], ◌∷◌, true, replicate, Option,
  none, some,
}
use coresight.Errors.{Error}
use coresight.Demux.State.{Demuxer, DemuxOptions, Call, new_demuxer, no_options}
use coresight.Demux.Sync.{check_for_sync}
use coresight.Demux.Write.{Written, write, write_block}
use coresight.Demux.Loop.{write-ends}
use coresight.Demux.Search.{sync_bytes, check_for_sync-StandsAt}
use coresight.Demux.Waits.{Waits, write_block-Waits}

-- Sinks that take everything
abbrev accept : List Call → Option Error
accept log = none

abbrev demuxer : Demuxer
demuxer = new_demuxer (replicate 128 true)

-- Ids 1 and 2, the second with its flag set, and data with and without a flag
abbrev frame : List ℕ
frame = 3 ∷ 10 ∷ 20 ∷ 30 ∷ 5 ∷ 40 ∷ 50 ∷ 60 ∷ 70 ∷ 80 ∷ 90 ∷ 100 ∷ 110 ∷ 120 ∷ 130 ∷ 0x86 ∷ []

abbrev framed : Demuxer
framed = record demuxer { ex_frm_data = frame; ex_frm_bytes = 16 }

abbrev fsync_options : DemuxOptions
fsync_options = record no_options { has_fsyncs = true }

abbrev waiting : Demuxer
waiting = record demuxer { opts = fsync_options; alignment = 4; in_block = 1 ∷ 0xff ∷ 0xff ∷ [] }

write-ends_example :
    (w : Written) × (write accept 0 (0xff ∷ 0xff ∷ 0xff ∷ 0x7f ∷ frame) waiting ≡ some w)
write-ends_example = write-ends accept 0 (0xff ∷ 0xff ∷ 0xff ∷ 0x7f ∷ frame) waiting

-- A byte before the pattern and one behind it
abbrev seen : Demuxer
seen = record waiting { in_block = 1 ∷ 0xff ∷ 0xff ∷ 0xff ∷ 0x7f ∷ 3 ∷ []; trc_curr_idx = 40 }

before_pattern : (j : ℕ) → j < 1 → take 4 (drop j seen.in_block) ≢ sync_bytes
before_pattern zero h = λ e. cc
before_pattern (suc j) h = absurd (omega arith)

check_for_sync-StandsAt_example :
    let (d', synced) = check_for_sync seen in
    (synced ≡ true)
    × (d'.frame_synced ≡ true)
    × (d'.in_block ≡ 0xff ∷ 0xff ∷ 0xff ∷ 0x7f ∷ 3 ∷ [])
    × (d'.trc_curr_idx ≡ 41)
    × (d'.log ≡ seen.log)
unfolding new_demuxer
check_for_sync-StandsAt_example =
    check_for_sync-StandsAt seen 1 refl refl refl (omega arith) (omega arith) refl before_pattern

no_pattern : (j : ℕ) → take 4 (drop j waiting.in_block) ≢ sync_bytes
no_pattern zero = λ e. cc
no_pattern (suc zero) = λ e. cc
no_pattern (suc (suc zero)) = λ e. cc
no_pattern (suc (suc (suc zero))) = λ e. cc
no_pattern (suc (suc (suc (suc j)))) = λ e. cc

write_block-Waits_example :
    (w : Written) × (n : ℕ) × (write_block accept 0 (1 ∷ 0xff ∷ 0xff ∷ []) waiting ≡ some w)
    × Waits waiting w n
unfolding new_demuxer
write_block-Waits_example =
    write_block-Waits accept 0 (1 ∷ 0xff ∷ 0xff ∷ []) waiting refl refl refl (omega arith)
      no_pattern

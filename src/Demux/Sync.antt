-- ===== src/Demux/Sync.antt =====
-- demux_frame_data.go: finding the first frame, and the frame synchronisation patterns.
use coresight.Prelude.{
  ℕ, suc, ◌+◌, ◌-◌, ◌*◌, ◌%◌, ◌^◌, Bool, true, false, ◌&&◌, not, List, [], ◌∷◌, Option, none, some,
  length, take, drop, ltb, leb, ◌==◌, u32, u64, if◌then◌else◌,
}
use coresight.Errors.{Error}
use coresight.Demux.State.{Demuxer, Call, bad_cs_src_id, bad_index}
use coresight.Demux.Output.{reset_all_ids}

-- fSyncPatternBytes, which are fSyncPattern in little endian
abbrev pub fsync_pattern_bytes : List ℕ
fsync_pattern_bytes = 0xff ∷ 0xff ∷ 0xff ∷ 0x7f ∷ []

unfoldable pub advance_input : ℕ → Demuxer → Demuxer
advance_input n d = record d {
  in_block = drop n d.in_block;
  trc_curr_idx = u64 (d.trc_curr_idx + n);
}

-- bytes.Equal
abbrev pub equal_bytes : List ℕ → List ℕ → Bool
equal_bytes [] [] = true
equal_bytes (x ∷ xs) (y ∷ ys) = x == y && equal_bytes xs ys
equal_bytes xs ys = false

abbrev pub starts_with_fsync : List ℕ → Bool
starts_with_fsync xs = equal_bytes (take 4 xs) fsync_pattern_bytes

-- bytes.Index(block, fSyncPatternBytes)
unfoldable pub index_of_fsync : List ℕ → Option ℕ
index_of_fsync [] = none
index_of_fsync (x ∷ xs) =
    let later = index_of_fsync xs in
    if starts_with_fsync (x ∷ xs)
    then some 0
    else elim later [ none ↦ none | some i ↦ some (suc i) ]

-- The last `s` bytes are the first `s` of the pattern.
unfoldable pub ends_with_fsync_part : ℕ → List ℕ → Bool
ends_with_fsync_part s xs =
    leb s (length xs) && equal_bytes (drop (length xs - s) xs) (take s fsync_pattern_bytes)

-- findfirstFSync, for a block that holds no whole pattern
unfoldable pub before_fsync_part : List ℕ → ℕ
unfolding ends_with_fsync_part
before_fsync_part xs =
    if ends_with_fsync_part 3 xs
    then u32 (length xs - 3)
    else if ends_with_fsync_part 2 xs
    then u32 (length xs - 2)
    else if ends_with_fsync_part 1 xs
    then u32 (length xs - 1)
    else u32 (length xs)

unfoldable pub find_first_fsync : Demuxer → Demuxer × ℕ
unfolding index_of_fsync before_fsync_part
find_first_fsync d = elim (index_of_fsync d.in_block) [
  | some i ↦ (record d { frame_synced = true }, u32 i)
  | none ↦ (d, before_fsync_part d.in_block)
]

unfoldable pub unsynced_prefix_len_for_forced_sync : Demuxer → Demuxer × ℕ
unsynced_prefix_len_for_forced_sync d =
    let start = d.trc_curr_idx in
    if leb start d.force_sync_idx && ltb d.force_sync_idx (u64 (start + length d.in_block))
    then (record d { frame_synced = true }, u32 (d.force_sync_idx + 2 ^ 32 - u32 start))
    else (d, u32 (length d.in_block))

unfoldable pub skip_unsynced : Demuxer × ℕ → Demuxer × Bool
unfolding advance_input
skip_unsynced (d, n) = let d' = if ltb 0 n then advance_input n d else d in (d', d'.frame_synced)

unfoldable pub check_for_sync : Demuxer → Demuxer × Bool
unfolding find_first_fsync unsynced_prefix_len_for_forced_sync skip_unsynced
check_for_sync d =
    if d.frame_synced
    then (d, true)
    else if d.use_force_sync
    then skip_unsynced (unsynced_prefix_len_for_forced_sync d)
    else if d.opts.has_fsyncs
    then skip_unsynced (find_first_fsync d)
    else (record d { frame_synced = true }, true)

-- countLeadingFSyncs
unfoldable pub count_leading_fsyncs : List ℕ → ℕ
count_leading_fsyncs (a ∷ b ∷ c ∷ e ∷ rest) =
    let more = count_leading_fsyncs rest in
    if starts_with_fsync (a ∷ b ∷ c ∷ e ∷ rest) then suc more else 0
count_leading_fsyncs xs = 0

module _ (answer : List Call → Option Error) where
  -- checkForResetFSyncPatterns: the number of bytes, and the error
  unfoldable pub check_for_reset_fsync_patterns : Demuxer → Demuxer × ℕ × Option Error
  unfolding reset_all_ids count_leading_fsyncs
  check_for_reset_fsync_patterns d =
      let num = count_leading_fsyncs d.in_block in
      let fsync_bytes = u32 (num * 4) in
      if num == 0
      then (d, 0, none)
      else if not (num % 4 == 0)
      then (d, fsync_bytes, some Error.dfrmtr_bad_fhsync)
      else let (d', err) = reset_all_ids answer d.trc_curr_idx d in
        (
          record d' { curr_src_id = bad_cs_src_id; ex_frm_bytes = 0; trc_curr_idx_sof = bad_index },
          fsync_bytes,
          err,
        )

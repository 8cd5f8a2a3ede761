-- ===== src/Demux/Write.antt =====
-- demux_demuxer.go: Write, which demultiplexes a block of the trace, and the other operations.
use coresight.Prelude.{
  ℕ, zero, suc, ◌+◌, ◌-◌, ◌%◌, ◌^◌, Bool, ◌&&◌, ◌||◌, not, List, [], ◌++◌, Option, none, some,
  length, take, drop, get_or, ltb, leb, ◌==◌, u32, u64, if◌then◌else◌,
}
use coresight.Errors.{Error}
use coresight.Demux.State.{Demuxer, DemuxOptions, Call, frame_size, reset_state_params}
use coresight.Demux.Output.{
  Outcome, update_raw_output_state, reset_all_ids, flush_all_ids, close_all_ids,
}
use coresight.Demux.Sync.{check_for_sync}
use coresight.Demux.Extract.{extract_frame}
use coresight.Demux.Unpack.{unpack_and_output_frame}

unfoldable pub validate_formatter_options : DemuxOptions → Option Error
validate_formatter_options o =
    if not o.has_fsyncs
      && not o.has_hsyncs
      && not o.frame_mem_align
      && not o.packed_raw_out
      && not o.unpacked_raw_out
      && not o.reset_on4x_fsync
    then some Error.invalid_param_val
    else if o.frame_mem_align && (o.has_fsyncs || o.has_hsyncs)
    then some Error.invalid_param_val
    else none

unfoldable pub alignment_for_options : DemuxOptions → ℕ
alignment_for_options o = if o.has_hsyncs then 2 else if o.has_fsyncs then 4 else frame_size

unfoldable pub configure : DemuxOptions → Demuxer → Outcome
unfolding validate_formatter_options alignment_for_options
configure o d = elim (validate_formatter_options o) [
  | some e ↦ (d, some e)
  | none ↦ (record d { opts = o; alignment = alignment_for_options o }, none)
]

-- The number of trailing 0xff bytes that may begin a synchronisation pattern
unfoldable pub partial_sync_len : Demuxer → ℕ
partial_sync_len d =
    let n = length d.in_block in
    let is_ff : ℕ → Bool = λ (k : ℕ). leb k n && get_or d.in_block (n - k) 0 == 0xff in
    if n == 0
    then 0
    else if d.opts.has_fsyncs && is_ff 3 && is_ff 2 && is_ff 1
    then 3
    else if d.opts.has_fsyncs && is_ff 2 && is_ff 1
    then 2
    else if (d.opts.has_fsyncs || d.opts.has_hsyncs) && is_ff 1
    then 1
    else 0

-- How much of the input the round may take, or none when the loop is left.
unfoldable pub round_limit : Demuxer → Option ℕ
unfolding partial_sync_len
round_limit d =
    let n = length d.in_block in
    let limit = if d.ex_frm_bytes == 0 then n - partial_sync_len d else n in
    let even = limit - limit % 2 in
    if d.opts.frame_mem_align
    then if ltb limit frame_size then none else some limit
    else if ltb even 2
    then none
    else some even

-- Bytes that were left of the last block stay only when this block follows it.
unfoldable pub drop_pending : ℕ → Demuxer → Demuxer
drop_pending index d =
    if ltb 0 (length d.pending)
    then if index == d.last_write_processed_end_index
      then record d { pending = [] }
      else if not (index == d.last_write_end_index)
      then record d { pending = [] }
      else d
    else d

-- The input of this call: the bytes left, and the block.
unfoldable pub combine : ℕ → List ℕ → Demuxer → Demuxer
combine index block d = record d {
  trc_curr_idx = u64 (index + 2 ^ 64 - length d.pending);
  in_block = d.pending ++ block;
}

-- max(int(d.trcCurrIdx-index), 0)
unfoldable pub processed_from : ℕ → Demuxer → ℕ
processed_from index d =
    let diff = u64 (d.trc_curr_idx + 2 ^ 64 - index) in if ltb diff (2 ^ 63) then diff else 0

-- The number of bytes processed, and the error
abbrev pub Written : Type 0
Written = Demuxer × ℕ × Option Error

unfoldable pub finish_write : ℕ → List ℕ → Outcome → Written
unfolding processed_from
finish_write index block (d, err) =
    let n = processed_from index d in
    (
      record d {
        pending = d.in_block;
        last_write_end_index = u64 (index + length block);
        last_write_processed_end_index = u64 (index + n);
      },
      u32 n,
      err,
    )

-- What a round of the loop does: leave the loop, or go on.
pub data Round : Type 0 where
  leave : Outcome → Round
  again : Demuxer → Round

abbrev pub unpacked : Outcome → Round
unpacked (d, none) = again d
unpacked (d, some e) = leave (d, some e)

abbrev pub finish_loop : ℕ → List ℕ → Option Outcome → Option Written
finish_loop index block none = none
finish_loop index block (some o) = some (finish_write index block o)

module _ (answer : List Call → Option Error) where
  -- The input gets back what the limit kept out.
  unfoldable pub after_extract : List ℕ → ℕ → Demuxer × Bool × Option Error → Round
  unfolding unpack_and_output_frame
  after_extract orig limit (d, processing, err) =
      let d' : Demuxer = record d { in_block = drop (limit - length d.in_block) orig } in
      elim err [
        | some e ↦ leave (d', some e)
        | none ↦
            if processing then unpacked (unpack_and_output_frame answer d') else leave (d', none)
      ]

  unfoldable pub write_round : Demuxer → Round
  unfolding after_extract
  write_round d = if length d.in_block == 0 then leave (d, none) else elim (round_limit d) [
    | none ↦ leave (d, none)
    | some limit ↦
        after_extract d.in_block limit
          (extract_frame answer (record d { in_block = take limit d.in_block }))
  ]

  -- The loop of Write, on a number of rounds; none when they do not suffice.
  unfoldable pub write_loop : ℕ → Round → Option Outcome
  unfolding write_round
  write_loop rounds (leave o) = some o
  write_loop zero (again d) = none
  write_loop (suc rounds) (again d) = write_loop rounds (write_round d)

  -- The block goes on behind the bytes left. Each round consumes a byte, or the frame that an
  -- error of a sink left behind.
  unfoldable pub write_block : ℕ → List ℕ → Demuxer → Option Written
  unfolding write_loop
  write_block index block d =
      let (d', synced) = check_for_sync d in
      if not synced
      then some (finish_write index block (d', none))
      else finish_loop index block (write_loop (length d'.in_block + 3) (again d'))

  unfoldable pub write : ℕ → List ℕ → Demuxer → Option Written
  unfolding update_raw_output_state drop_pending combine write_block
  write index block d =
      let d' = update_raw_output_state d in
      if length block == 0
      then some (d', 0, some Error.invalid_param_val)
      else if d'.alignment == 0
      then some (d', 0, some Error.dfrmtr_not_configured)
      else write_block index block (combine index block (drop_pending index d'))

  unfoldable pub reset : ℕ → Demuxer → Outcome
  unfolding reset_state_params reset_all_ids
  reset index d = reset_all_ids answer index (reset_state_params d)

  unfoldable pub flush : Demuxer → Outcome
  unfolding flush_all_ids
  flush d = flush_all_ids answer d

  unfoldable pub close : Demuxer → Outcome
  unfolding update_raw_output_state close_all_ids
  close d =
      let d' = update_raw_output_state d in
      if ltb 0 (length d'.pending)
      then (d', some Error.dfrmtr_incomplete_tail)
      else close_all_ids answer d'

-- ===== src/Demux/Extract.antt =====
-- demux_frame_data.go: taking the next frame of 16 bytes from the input.
use coresight.Prelude.{
  ℕ, ◌+◌, ◌*◌, ◌-◌, ◌^◌, Bool, true, false, ◌&&◌, ◌||◌, not, List, ◌∷◌, Option, none, some, length,
  take, get_or, set, ltb, leb, ◌==◌, u32, u64, if◌then◌else◌,
}
use coresight.Errors.{Error}
use coresight.Demux.State.{Demuxer, Call, RawframeElem, frame_size}
use coresight.Demux.Output.{Outcome, and_then, output_raw_mon_bytes}
use coresight.Demux.Sync.{advance_input, check_for_reset_fsync_patterns, starts_with_fsync}

abbrev pub hsync_pattern : ℕ
hsync_pattern = 0x7fff

abbrev pub fsync_start : ℕ
fsync_start = 0xffff

-- binary.LittleEndian.Uint16
abbrev pub le_uint16 : List ℕ → ℕ
le_uint16 xs = get_or xs 0 0 + 256 * get_or xs 1 0

-- errors.Is(err, errDfrmtrBadFhsync)
abbrev pub as_reset_error : Error → Error
as_reset_error Error.dfrmtr_bad_fhsync = Error.dfrmtr_bad_fsync_reset
as_reset_error e = e

unfoldable pub copy_frame_pair : Demuxer → Demuxer
copy_frame_pair d = record d {
  ex_frm_data =
      set (set d.ex_frm_data d.ex_frm_bytes (get_or d.in_block 0 0)) (d.ex_frm_bytes + 1)
        (get_or d.in_block 1 0);
  ex_frm_bytes = u32 (d.ex_frm_bytes + 2);
}

-- The loop over whole synchronisation patterns; the list is the input block.
unfoldable pub skip_fsyncs : List ℕ → Demuxer → Demuxer
unfolding advance_input
skip_fsyncs (a ∷ b ∷ c ∷ e ∷ rest) d =
    let later = skip_fsyncs rest (advance_input 4 d) in
    if starts_with_fsync (a ∷ b ∷ c ∷ e ∷ rest) then later else d
skip_fsyncs xs d = d

unfoldable pub skip_all_fsyncs : Demuxer → Demuxer
unfolding skip_fsyncs
skip_all_fsyncs d = skip_fsyncs d.in_block d

-- A pattern that the end of the block cuts in two.
unfoldable pub note_fsync_start : Demuxer → Demuxer
unfolding advance_input
note_fsync_start d =
    if length d.in_block == 2 && le_uint16 d.in_block == fsync_start
    then record (advance_input 2 d) { fsync_start_eob = true }
    else d

unfoldable pub consume_leading_unaligned_fsyncs : Demuxer → Outcome
unfolding skip_all_fsyncs note_fsync_start advance_input
consume_leading_unaligned_fsyncs d =
    if d.fsync_start_eob
    then if leb 2 (length d.in_block)
      then if not (le_uint16 d.in_block == hsync_pattern)
        then (d, some Error.dfrmtr_bad_fsync_start)
        else (
          note_fsync_start
              (skip_all_fsyncs (record (advance_input 2 d) { fsync_start_eob = false })),
          none,
        )
      else (note_fsync_start (skip_all_fsyncs (record d { fsync_start_eob = false })), none)
    else (note_fsync_start (skip_all_fsyncs d), none)

unfoldable pub note_start_of_frame : Demuxer → Demuxer
note_start_of_frame d =
    if d.ex_frm_bytes == 0 then record d { trc_curr_idx_sof = d.trc_curr_idx } else d

-- The loop over pairs of bytes; the list is the input block.
unfoldable pub extract_pairs : List ℕ → Demuxer → Outcome
unfolding note_start_of_frame copy_frame_pair advance_input
extract_pairs (a ∷ b ∷ rest) d =
    let s = note_start_of_frame d in
    let pair = a + 256 * b in
    let past = extract_pairs rest (advance_input 2 s) in
    let taken = extract_pairs rest (advance_input 2 (copy_frame_pair s)) in
    if not (ltb d.ex_frm_bytes frame_size)
    then (d, none)
    else if pair == hsync_pattern
    then if not d.opts.has_hsyncs then (s, some Error.dfrmtr_bad_hsync) else past
    else if pair == fsync_start
    then (s, some Error.dfrmtr_bad_fsync_start)
    else taken
extract_pairs xs d = (d, none)

unfoldable pub odd_byte_left : Demuxer → Outcome
odd_byte_left d =
    if length d.in_block == 1 && ltb d.ex_frm_bytes frame_size
    then (d, some Error.dfrmtr_odd_byte)
    else (d, none)

unfoldable pub extract_unaligned_frame : Demuxer → Outcome
unfolding consume_leading_unaligned_fsyncs extract_pairs odd_byte_left
extract_unaligned_frame d =
    and_then
      (if d.opts.has_fsyncs && d.ex_frm_bytes == 0
        then consume_leading_unaligned_fsyncs d
        else (d, none))
      (λ d1. and_then (extract_pairs d1.in_block d1) odd_byte_left)

unfoldable pub take_aligned_frame : Demuxer → Outcome
unfolding advance_input
take_aligned_frame d =
    if length d.in_block == 0
    then (d, none)
    else if ltb (length d.in_block) frame_size
    then (d, some Error.dfrmtr_unaligned)
    else let taken : Demuxer = record d {
      trc_curr_idx_sof = d.trc_curr_idx;
      ex_frm_data = take frame_size d.in_block;
      ex_frm_bytes = frame_size;
    } in
      (advance_input frame_size taken, none)

abbrev pub reset_result : Option Error → Demuxer → Outcome
reset_result none d = (d, none)
reset_result (some e) d = (d, some (as_reset_error e))

abbrev pub extracted : Outcome → Demuxer × Bool × Option Error
extracted (d, some e) = (d, false, some e)
extracted (d, none) = (d, d.ex_frm_bytes == frame_size, none)

module _ (answer : List Call → Option Error) where
  unfoldable pub output_fsyncs : ℕ → Demuxer → Outcome
  unfolding output_raw_mon_bytes
  output_fsyncs n d =
      if d.out_packed_raw || d.out_unpacked_raw
      then output_raw_mon_bytes answer d.trc_curr_idx RawframeElem.frm_fsync (take n d.in_block) 0 d
      else (d, none)

  unfoldable pub consume_reset_fsyncs : Demuxer → Outcome
  unfolding check_for_reset_fsync_patterns output_fsyncs advance_input
  consume_reset_fsyncs d =
      let (d1, n, err) = check_for_reset_fsync_patterns answer d in
      and_then
        (if ltb 0 n
          then and_then (output_fsyncs n d1) (λ d2. (advance_input n d2, none))
          else (d1, none))
        (reset_result err)

  unfoldable pub extract_aligned_frame : Demuxer → Outcome
  unfolding consume_reset_fsyncs take_aligned_frame
  extract_aligned_frame d =
      and_then (if d.opts.reset_on4x_fsync then consume_reset_fsyncs d else (d, none))
        take_aligned_frame

  -- What was consumed goes to the raw frame handler at the end of a frame or of the input.
  unfoldable pub output_packed : Demuxer → Demuxer → Outcome
  unfolding output_raw_mon_bytes
  output_packed before d =
      let total = u32 (u64 (d.trc_curr_idx + 2 ^ 64 - before.trc_curr_idx)) in
      if (d.ex_frm_bytes == frame_size || length d.in_block == 0) && d.out_packed_raw
      then output_raw_mon_bytes answer before.trc_curr_idx RawframeElem.frm_packed
          (take total before.in_block) 0 d
      else (d, none)

  -- extractFrame: whether there is a frame to process, and the error
  unfoldable pub extract_frame : Demuxer → Demuxer × Bool × Option Error
  unfolding extract_aligned_frame extract_unaligned_frame output_packed
  extract_frame d =
      if length d.in_block == 0
      then (d, false, none)
      else extracted (
          and_then
            (if d.opts.frame_mem_align then extract_aligned_frame d else extract_unaligned_frame d)
            (output_packed d))

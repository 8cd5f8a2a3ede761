-- ===== src/Demux/Consumed.antt =====
-- What extracting an aligned frame consumes, and what extractFrame does.
use coresight.Prelude.{
  ℕ, suc, ◌+◌, ◌-◌, ◌≡◌, refl, arith, List, [], ◌∷◌, Bool, true, false, Option, none, some,
  if◌then◌else◌, take, ◌++◌, ltb, u32, u64, ◌^◌,
}
use coresight.Errors.{Error}
use coresight.Demux.State.{Demuxer, Call, RawframeElem, frame_size}
use coresight.Demux.Output.{
  Outcome, and_then, output_raw_mon_bytes, call, control_all_ids, reset_all_ids, first_error,
}
use coresight.Demux.Sync.{advance_input, check_for_reset_fsync_patterns}
use coresight.Demux.Extract.{
  extract_unaligned_frame, take_aligned_frame, output_fsyncs, reset_result, consume_reset_fsyncs,
  extract_aligned_frame, output_packed, extracted, extract_frame,
}
use coresight.Demux.Progress.{
  Moves, Moves-Moves, stays, and_then-Moves, advance_input-Moves, extract_unaligned_frame-Moves,
  take_aligned_frame-Moves,
}

module _ (answer : List Call → Option Error) where
  output_raw_mon_bytes-Moves :
      (i : ℕ) (e : RawframeElem) (bytes : List ℕ) (id : ℕ) (d : Demuxer)
      → Moves d (output_raw_mon_bytes answer i e bytes id d).0
  unfolding output_raw_mon_bytes call
  output_raw_mon_bytes-Moves i e bytes id d = ground (arith, stays d d refl refl)

  control_all_ids-stays :
      (op : ℕ → Call) (id : ℕ) (streams : List Bool) (d : Demuxer) (err : Option Error)
      → let d' = (control_all_ids answer op id streams d err).0 in
        (d'.in_block ≡ d.in_block) × (d'.ex_frm_bytes ≡ d.ex_frm_bytes)
  unfolding control_all_ids call
  control_all_ids-stays op id [] d err = (refl, refl)
  control_all_ids-stays op id (false ∷ streams) d err =
      control_all_ids-stays op (suc id) streams d err
  control_all_ids-stays op id (true ∷ streams) d err =
      let log = d.log ++ op id ∷ [] in
      control_all_ids-stays op (suc id) streams (record d { log = log })
        (first_error err (answer log))

  check_for_reset_fsync_patterns-Moves :
      (d : Demuxer) → Moves d (check_for_reset_fsync_patterns answer d).0
  unfolding check_for_reset_fsync_patterns reset_all_ids
  check_for_reset_fsync_patterns-Moves d = ground (
    arith,
    stays d d refl refl,
    control_all_ids-stays (λ id. Call.sink_reset id d.trc_curr_idx) 0 d.streams d none,
  )

  output_fsyncs-Moves : (n : ℕ) (d : Demuxer) → Moves d (output_fsyncs answer n d).0
  unfolding output_fsyncs
  output_fsyncs-Moves n d =
      let m =
        output_raw_mon_bytes-Moves d.trc_curr_idx RawframeElem.frm_fsync (take n d.in_block) 0 d in
      ground (arith, m, stays d d refl refl)

  reset_result-Moves : (err : Option Error) (d : Demuxer) → Moves d (reset_result err d).0
  reset_result-Moves none d = stays d d refl refl
  reset_result-Moves (some e) d = stays d d refl refl

  consume_reset_fsyncs-Moves : (d : Demuxer) → Moves d (consume_reset_fsyncs answer d).0
  unfolding consume_reset_fsyncs
  consume_reset_fsyncs-Moves d =
      let (d1, n, err) = check_for_reset_fsync_patterns answer d in
      let out = output_fsyncs answer n d1 in
      let skip : Demuxer → Outcome = λ (d2 : Demuxer). (advance_input n d2, none) in
      let sent = and_then-Moves d1 out skip (output_fsyncs-Moves n d1) (advance_input-Moves n) in
      let o : Outcome = if ltb 0 n then and_then out skip else (d1, none) in
      let go : Moves d1 o.0 = ground (arith, sent, stays d1 d1 refl refl) in
      and_then-Moves d o (reset_result err)
        (Moves-Moves d d1 o.0 (check_for_reset_fsync_patterns-Moves d) go) (reset_result-Moves err)

  extract_aligned_frame-Moves : (d : Demuxer) → Moves d (extract_aligned_frame answer d).0
  unfolding extract_aligned_frame
  extract_aligned_frame-Moves d =
      let o : Outcome =
        if d.opts.reset_on4x_fsync then consume_reset_fsyncs answer d else (d, none) in
      let go : Moves d o.0 = ground (arith, consume_reset_fsyncs-Moves d, stays d d refl refl) in
      and_then-Moves d o take_aligned_frame go take_aligned_frame-Moves

  output_packed-Moves : (before d : Demuxer) → Moves d (output_packed answer before d).0
  unfolding output_packed
  output_packed-Moves before d =
      let total = u32 (u64 (d.trc_curr_idx + 2 ^ 64 - before.trc_curr_idx)) in
      let m =
        output_raw_mon_bytes-Moves before.trc_curr_idx RawframeElem.frm_packed
          (take total before.in_block) 0 d in
      ground (arith, m, stays d d refl refl)

  extracted-Moves :
      (d : Demuxer) (o : Outcome)
      → Moves d o.0
      → let (d', processing, err) = extracted o in
        Moves d d' × (processing ≡ true → d'.ex_frm_bytes ≡ frame_size)
  extracted-Moves d (e, none) m = (m, λ h. ground (arith, h))
  extracted-Moves d (e, some x) m = (m, λ h. absurd (ground (arith, h)))

  -- A frame to process means that its 16 bytes are there.
  pub extract_frame-Moves :
      (d : Demuxer)
      → let (d', processing, err) = extract_frame answer d in
        Moves d d' × (processing ≡ true → d'.ex_frm_bytes ≡ frame_size)
  unfolding extract_frame
  extract_frame-Moves d =
      let o : Outcome =
        if d.opts.frame_mem_align
        then extract_aligned_frame answer d
        else extract_unaligned_frame d in
      let go : Moves d o.0 =
        ground (arith, extract_aligned_frame-Moves d, extract_unaligned_frame-Moves d) in
      let both = and_then-Moves d o (output_packed answer d) go (output_packed-Moves d) in
      ground
        (arith, extracted-Moves d (and_then o (output_packed answer d)) both, stays d d refl refl)

-- ===== src/Demux/Loop.antt =====
-- The loop of Write always ends: each round leaves a shorter input, or uses up a frame that an error
-- of a sink left behind.
use coresight.Prelude.{
  ℕ, zero, suc, ◌+◌, ◌*◌, ◌-◌, ◌≤◌, ◌<◌, ◌≡◌, refl, ◌∙◌, arith, List, Bool, true, false, Option,
  none, some, Bool-cases, Option-cases, ◌⊎◌, inl, inr, length, take, drop, length-drop, length-take,
  ◌==◌, u8, bit_and, ◌^◌, shr,
}
use coresight.Errors.{Error}
use coresight.Demux.State.{Demuxer, Call, frame_size}
use coresight.Demux.Output.{Outcome, and_then, output_raw_mon_bytes, call, update_raw_output_state}
use coresight.Demux.Unpack.{
  Walk, WalkOutcome, emit_raw, emit_to_sink, emit_unpack_buf, keep, put, turn_to, switched,
  switch_id, keep_after, unpack_pair, unpack_pairs, unpack_last, unpack_end,
  unpack_and_output_frame, frame_byte, data_byte_with_flag,
}
use coresight.Demux.Extract.{extract_frame}
use coresight.Demux.Sync.{check_for_sync}
use coresight.Demux.Consumed.{extract_frame-Moves}
use coresight.Demux.Progress.{Moves}
use coresight.Demux.Write.{
  Round, leave, again, unpacked, after_extract, round_limit, write_round, write_loop, write_block,
  write, Written, combine, drop_pending, finish_write,
}

abbrev SameInput : Demuxer → Demuxer → Type 0
SameInput d d' = d'.in_block ≡ d.in_block

and_then-SameInput :
    (d : Demuxer) (o : Outcome) (f : Demuxer → Outcome)
    → SameInput d o.0
    → ((e : Demuxer) → SameInput e (f e).0)
    → SameInput d (and_then o f).0
and_then-SameInput d (e, none) f p q = q e ∙ p
and_then-SameInput d (e, some x) f p q = p

switched-SameInput :
    (id i : ℕ) (w : Walk) (o : Outcome)
    → SameInput w.dm o.0
    → SameInput w.dm (switched id i w o).0.dm
unfolding switched turn_to
switched-SameInput id i w (d, none) h = h
switched-SameInput id i w (d, some e) h = h

keep-SameInput : (b : ℕ) (w : Walk) → SameInput w.dm (keep b w).dm
unfolding keep put
keep-SameInput b w = refl

keep_after-SameInput :
    (b : ℕ) (d : Demuxer) (o : WalkOutcome) → SameInput d o.0.dm → SameInput d (keep_after b o).0.dm
keep_after-SameInput b d (w, none) h = keep-SameInput b w ∙ h
keep_after-SameInput b d (w, some e) h = h

round_limit-fits :
    (d : Demuxer) (limit : ℕ) → round_limit d ≡ some limit → limit ≤ length d.in_block
unfolding round_limit
round_limit-fits d limit h = ground (arith, h)

module _ (answer : List Call → Option Error) where
  emit_raw-SameInput :
      (start : ℕ) (bytes : List ℕ) (d : Demuxer) → SameInput d (emit_raw answer start bytes d).0
  unfolding emit_raw output_raw_mon_bytes call
  emit_raw-SameInput start bytes d = ground arith

  emit_to_sink-SameInput :
      (start : ℕ) (bytes : List ℕ) (d : Demuxer) → SameInput d (emit_to_sink answer start bytes d).0
  unfolding emit_to_sink call
  emit_to_sink-SameInput start bytes d = ground arith

  emit_unpack_buf-SameInput :
      (start count : ℕ) (d : Demuxer) → SameInput d (emit_unpack_buf answer start count d).0
  unfolding emit_unpack_buf
  emit_unpack_buf-SameInput start count d =
      let bytes = take count d.unpack_buf in
      let both =
        and_then-SameInput d (emit_raw answer start bytes d) (emit_to_sink answer start bytes)
          (emit_raw-SameInput start bytes d) (emit_to_sink-SameInput start bytes) in
      ground (arith, both)

  switch_id-SameInput : (id i : ℕ) (w : Walk) → SameInput w.dm (switch_id answer id i w).0.dm
  unfolding switch_id
  switch_id-SameInput id i w =
      switched-SameInput id i w (emit_unpack_buf answer w.start_index w.count w.dm)
        (emit_unpack_buf-SameInput w.start_index w.count w.dm)

  unpack_pair-SameInput :
      (i flag_bit : ℕ) (w : Walk) → SameInput w.dm (unpack_pair answer i flag_bit w).0.dm
  unfolding unpack_pair
  unpack_pair-SameInput i flag_bit w =
      let b = frame_byte w.dm i in
      let next = frame_byte w.dm (suc i) in
      let id = bit_and (shr b 1) 0x7f in
      let v = data_byte_with_flag i flag_bit w.dm in
      let s = switch_id answer id i w in
      ground (
        arith,
        keep-SameInput next w,
        keep-SameInput v w,
        keep-SameInput next (keep v w),
        switch_id-SameInput id i (keep next w),
        keep_after-SameInput next w.dm s (switch_id-SameInput id i w),
      )

  unpack_pairs-SameInput :
      (rounds i flag_bit : ℕ) (d : Demuxer) (o : WalkOutcome)
      → SameInput d o.0.dm
      → SameInput d (unpack_pairs answer rounds i flag_bit o).0.dm
  unfolding unpack_pairs
  unpack_pairs-SameInput zero i flag_bit d o h = h
  unpack_pairs-SameInput (suc r) i flag_bit d (w, some e) h = h
  unpack_pairs-SameInput (suc r) i flag_bit d (w, none) h =
      unpack_pairs-SameInput r (i + 2) (u8 (flag_bit * 2)) d (unpack_pair answer i flag_bit w)
        (unpack_pair-SameInput i flag_bit w ∙ h)

  unpack_last-SameInput :
      (flag_bit : ℕ) (d : Demuxer) (o : WalkOutcome)
      → SameInput d o.0.dm
      → SameInput d (unpack_last answer flag_bit o).0.dm
  unfolding unpack_last
  unpack_last-SameInput flag_bit d (w, some e) h = h
  unpack_last-SameInput flag_bit d (w, none) h =
      let id = bit_and (shr (frame_byte w.dm 14) 1) 0x7f in
      let v = data_byte_with_flag 14 flag_bit w.dm in
      ground (arith, h, keep-SameInput v w, switch_id-SameInput id 14 w)

  -- Unpacking leaves the input alone, and when it succeeds there is no frame left.
  abbrev Unpacks : Demuxer → Outcome → Type 0
  Unpacks d o = SameInput d o.0 × (o.1 ≡ none → o.0.ex_frm_bytes ≡ 0)

  cleared-Unpacks :
      (d : Demuxer) (o : Outcome)
      → SameInput d o.0
      → Unpacks d (and_then o (λ e. (record e { ex_frm_bytes = 0 }, none)))
  cleared-Unpacks d (e, none) h = (h, λ _. refl)
  cleared-Unpacks d (e, some x) h = (h, λ q. absurd (ground (arith, q)))

  unpack_end-Unpacks :
      (d : Demuxer) (o : WalkOutcome) → SameInput d o.0.dm → Unpacks d (unpack_end answer o)
  unfolding unpack_end
  unpack_end-Unpacks d (w, some e) h = (h, λ q. absurd (ground (arith, q)))
  unpack_end-Unpacks d (w, none) h =
      cleared-Unpacks d (emit_unpack_buf answer w.start_index w.count w.dm)
        (emit_unpack_buf-SameInput w.start_index w.count w.dm ∙ h)

  unpack_and_output_frame-Unpacks : (d : Demuxer) → Unpacks d (unpack_and_output_frame answer d)
  unfolding unpack_and_output_frame
  unpack_and_output_frame-Unpacks d =
      let w : Walk = record { dm = d; count = 0; start_index = d.trc_curr_idx_sof } in
      let pairs = unpack_pairs answer 7 0 1 (w, none) in
      unpack_end-Unpacks d (unpack_last answer (2 ^ 7) pairs)
        (unpack_last-SameInput (2 ^ 7) d pairs (unpack_pairs-SameInput 7 0 1 d (w, none) refl))

  -- A bound on the rounds that are still to come
  abbrev pub Within : ℕ → Round → Type 0
  Within n (leave o) = Unit
  Within n (again d) =
      (length d.in_block + 1 < n) ⊎ ((length d.in_block < n) × (d.ex_frm_bytes ≡ 0))

  unpacked-Within :
      (n : ℕ) (d : Demuxer) (o : Outcome)
      → Unpacks d o
      → length d.in_block < n
      → Within n (unpacked o)
  unpacked-Within n d (e, none) (h, z) k = inr (ground (arith, h, k, z refl), z refl)
  unpacked-Within n d (e, some x) (h, z) k = tt

  -- A frame that was completed by this round, or was there before, is used up.
  after_extract-Within :
      (n limit : ℕ) (d e : Demuxer) (processing : Bool) (err : Option Error)
      → limit ≤ length d.in_block
      → Within (suc n) (again d)
      → Moves (record d { in_block = take limit d.in_block }) e
      → (processing ≡ true → e.ex_frm_bytes ≡ frame_size)
      → Within n (after_extract answer d.in_block limit (e, processing, err))
  unfolding after_extract
  after_extract-Within n limit d e processing (some x) fits h m full = tt
  after_extract-Within n limit d e false none fits h m full = tt
  after_extract-Within n limit d e true none fits h m full =
      let d' : Demuxer = record e { in_block = drop (limit - length e.in_block) d.in_block } in
      let at = full refl in
      let cut = length-take limit d.in_block in
      let rest = length-drop (limit - length e.in_block) d.in_block in
      let less : length d'.in_block < n = ground (arith, h, m, at, cut, rest, fits) in
      unpacked-Within n d' (unpack_and_output_frame answer d') (unpack_and_output_frame-Unpacks d')
        less

  write_round-Within :
      (n : ℕ) (d : Demuxer) → Within (suc n) (again d) → Within n (write_round answer d)
  unfolding write_round
  write_round-Within n d h = elim (Bool-cases (length d.in_block == 0)) [
    | inl e ↦ rw e tt
    | inr e ↦ elim (Option-cases (round_limit d)) [
      | inl r ↦ rw (e, r) tt
      | inr (limit, r) ↦
          let s : Demuxer = record d { in_block = take limit d.in_block } in
          let (d', processing, err) = extract_frame answer s in
          let (m, full) = extract_frame-Moves answer s in
          rw (e, r)
            (after_extract-Within n limit d d' processing err (round_limit-fits d limit r) h m full)
    ]
  ]

  write_loop-ends :
      (rounds : ℕ) (r : Round)
      → Within rounds r
      → (o : Outcome) × (write_loop answer rounds r ≡ some o)
  unfolding write_loop
  write_loop-ends rounds (leave o) h = (o, refl)
  write_loop-ends zero (again d) h = absurd (ground (arith, h))
  write_loop-ends (suc n) (again d) h =
      write_loop-ends n (write_round answer d) (write_round-Within n d h)

  write_block-ends :
      (index : ℕ) (block : List ℕ) (d : Demuxer)
      → (w : Written) × (write_block answer index block d ≡ some w)
  unfolding write_block
  write_block-ends index block d =
      let (d', synced) = check_for_sync d in
      let (o, ends) = write_loop-ends (length d'.in_block + 3) (again d') (inl (omega arith)) in
      elim (Bool-cases synced) [
        | inl e ↦ rw (e, ends) (finish_write index block o, refl)
        | inr e ↦ rw e (finish_write index block (d', none), refl)
      ]

  -- Write returns on every block and from every state, whatever the sinks and the handler answer:
  -- the rounds that the loop is given are enough.
  pub write-ends :
      (index : ℕ) (block : List ℕ) (d : Demuxer)
      → (w : Written) × (write answer index block d ≡ some w)
  unfolding write
  write-ends index block d =
      let d' = update_raw_output_state d in
      let start = combine index block (drop_pending index d') in
      elim (Bool-cases (length block == 0)) [
        | inl e ↦ rw e ((d', 0, some Error.invalid_param_val), refl)
        | inr e ↦ elim (Bool-cases (d'.alignment == 0)) [
          | inl f ↦ rw (e, f) ((d', 0, some Error.dfrmtr_not_configured), refl)
          | inr f ↦ rw (e, f) (write_block-ends index block start)
        ]
      ]

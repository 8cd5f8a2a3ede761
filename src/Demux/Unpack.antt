-- ===== src/Demux/Unpack.antt =====
-- demux_demuxer.go: unpacking a frame of 16 bytes into the data of the trace ids.
use coresight.Prelude.{
  ℕ, zero, suc, ◌+◌, ◌^◌, Bool, List, Option, none, some, ◌==◌, ◌/=◌, get_or, set, take, bit_and,
  bit_or, shr, u8, u64, if◌then◌else◌, ◌*◌,
}
use coresight.Demux.State.{Demuxer, Call, RawframeElem}
use coresight.Demux.Output.{
  Outcome, and_then, output_raw_mon_bytes, call, should_output_raw_entry, output_stream,
}
use coresight.Errors.{Error}

abbrev pub frame_byte : Demuxer → ℕ → ℕ
frame_byte d i = get_or d.ex_frm_data i 0

-- frameFlagBit&d.exFrmData[15] != 0
unfoldable pub has_flag : ℕ → Demuxer → Bool
has_flag flag_bit d = bit_and flag_bit (frame_byte d 15) /= 0

unfoldable pub data_byte_with_flag : ℕ → ℕ → Demuxer → ℕ
unfolding has_flag
data_byte_with_flag i flag_bit d =
    if has_flag flag_bit d then bit_or (frame_byte d i) 1 else frame_byte d i

-- d.unpackBuf[count] = b
unfoldable pub put : ℕ → ℕ → Demuxer → Demuxer
put count b d = record d { unpack_buf = set d.unpack_buf count b }

-- The local variables of the loop
pub record Walk : Type 0 where
  pub dm : Demuxer
  pub count : ℕ
  pub start_index : ℕ

-- d.unpackBuf[count] = b; count++
unfoldable pub keep : ℕ → Walk → Walk
unfolding put
keep b w = record w { dm = put w.count b w.dm; count = suc w.count }

unfoldable pub turn_to : ℕ → ℕ → Walk → Walk
turn_to id i w = record {
  dm = record w.dm { curr_src_id = id };
  count = 0;
  start_index = u64 (w.dm.trc_curr_idx_sof + i);
}

abbrev pub WalkOutcome : Type 0
WalkOutcome = Walk × Option Error

unfoldable pub switched : ℕ → ℕ → Walk → Outcome → WalkOutcome
unfolding turn_to
switched id i w (d, none) = (turn_to id i (record w { dm = d }), none)
switched id i w (d, some e) = (record w { dm = d }, some e)

abbrev pub keep_after : ℕ → WalkOutcome → WalkOutcome
keep_after b (w, none) = (keep b w, none)
keep_after b (w, some e) = (w, some e)

module _ (answer : List Call → Option Error) where
  unfoldable pub emit_raw : ℕ → List ℕ → Demuxer → Outcome
  unfolding output_raw_mon_bytes
  emit_raw start bytes d =
      if should_output_raw_entry d.curr_src_id d
      then output_raw_mon_bytes answer start RawframeElem.frm_id_data bytes d.curr_src_id d
      else (d, none)

  unfoldable pub emit_to_sink : ℕ → List ℕ → Demuxer → Outcome
  unfolding call
  emit_to_sink start bytes d =
      if output_stream d.curr_src_id d.streams
      then call answer (Call.sink_write d.curr_src_id start bytes) d
      else (d, none)

  unfoldable pub emit_unpack_buf : ℕ → ℕ → Demuxer → Outcome
  unfolding emit_raw emit_to_sink
  emit_unpack_buf start count d =
      let bytes = take count d.unpack_buf in
      if count == 0 then (d, none) else and_then (emit_raw start bytes d) (emit_to_sink start bytes)

  -- The bytes of the old id are sent and the new id begins.
  unfoldable pub switch_id : ℕ → ℕ → Walk → WalkOutcome
  unfolding emit_unpack_buf
  switch_id id i w = switched id i w (emit_unpack_buf w.start_index w.count w.dm)

  -- One round of the loop, for the bytes `i` and `i + 1`
  unfoldable pub unpack_pair : ℕ → ℕ → Walk → WalkOutcome
  unfolding switch_id keep data_byte_with_flag
  unpack_pair i flag_bit w =
      let b = frame_byte w.dm i in
      let next = frame_byte w.dm (suc i) in
      let new_id = bit_and (shr b 1) 0x7f in
      if bit_and b 1 /= 0
      then if new_id /= w.dm.curr_src_id
        then if has_flag flag_bit w.dm
          then switch_id new_id i (keep next w)
          else keep_after next (switch_id new_id i w)
        else (keep next w, none)
      else (keep next (keep (data_byte_with_flag i flag_bit w.dm) w), none)

  -- The loop: `rounds` rounds from byte `i` on
  unfoldable pub unpack_pairs : ℕ → ℕ → ℕ → WalkOutcome → WalkOutcome
  unfolding unpack_pair
  unpack_pairs zero i flag_bit o = o
  unpack_pairs (suc rounds) i flag_bit (w, some e) = (w, some e)
  unpack_pairs (suc rounds) i flag_bit (w, none) =
      unpack_pairs rounds (i + 2) (u8 (flag_bit * 2)) (unpack_pair i flag_bit w)

  -- Byte 14 has no byte behind it.
  unfoldable pub unpack_last : ℕ → WalkOutcome → WalkOutcome
  unfolding switch_id keep data_byte_with_flag
  unpack_last flag_bit (w, some e) = (w, some e)
  unpack_last flag_bit (w, none) =
      let b = frame_byte w.dm 14 in
      let new_id = bit_and (shr b 1) 0x7f in
      if bit_and b 1 /= 0
      then if new_id /= w.dm.curr_src_id then switch_id new_id 14 w else (w, none)
      else (keep (data_byte_with_flag 14 flag_bit w.dm) w, none)

  -- The rest of the frame is sent. `exFrmBytes` is cleared only without an error.
  unfoldable pub unpack_end : WalkOutcome → Outcome
  unfolding emit_unpack_buf
  unpack_end (w, some e) = (w.dm, some e)
  unpack_end (w, none) =
      and_then (emit_unpack_buf w.start_index w.count w.dm)
        (λ d. (record d { ex_frm_bytes = 0 }, none))

  unfoldable pub unpack_and_output_frame : Demuxer → Outcome
  unfolding unpack_pairs unpack_last unpack_end
  unpack_and_output_frame d =
      let w : Walk = record { dm = d; count = 0; start_index = d.trc_curr_idx_sof } in
      unpack_end (unpack_last (2 ^ 7) (unpack_pairs 7 0 1 (w, none)))

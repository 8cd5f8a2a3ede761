-- ===== src/Demux/Output.antt =====
-- demux_demuxer.go: what the demultiplexer sends to its sinks and to the raw frame handler.
use coresight.Prelude.{
  ℕ, suc, Bool, true, false, ◌&&◌, not, List, [], ◌∷◌, ◌++◌, Option, none, some, ltb, ◌==◌, get_or,
  if◌then◌else◌,
}
use coresight.Errors.{Error}
use coresight.Demux.State.{Demuxer, Call, RawframeElem, max_trace_id, bad_cs_src_id}

-- A step that may fail, and the error that it returns.
abbrev pub Outcome : Type 0
Outcome = Demuxer × Option Error

-- `if err != nil { return err }` before the rest
abbrev pub and_then : Outcome → (Demuxer → Outcome) → Outcome
and_then (d, none) f = f d
and_then (d, some e) f = (d, some e)

-- validTraceID
unfoldable pub valid_trace_id : ℕ → Bool
valid_trace_id id = ltb id max_trace_id

-- rawChanEnabled
unfoldable pub raw_chan_enabled : ℕ → Demuxer → Bool
unfolding valid_trace_id
raw_chan_enabled id d = valid_trace_id id && get_or d.raw_chan_enable id false

unfoldable pub should_output_raw_entry : ℕ → Demuxer → Bool
unfolding raw_chan_enabled
should_output_raw_entry id d =
    if not d.out_unpacked_raw
    then false
    else if id == bad_cs_src_id
    then true
    else raw_chan_enabled id d

-- outputStream: whether there is a sink
unfoldable pub output_stream : ℕ → List Bool → Bool
unfolding valid_trace_id
output_stream id streams = if not (valid_trace_id id) then false else get_or streams id false

unfoldable pub update_raw_output_state : Demuxer → Demuxer
update_raw_output_state d = record d {
  out_packed_raw = d.raw_frame_handler && d.opts.packed_raw_out;
  out_unpacked_raw = d.raw_frame_handler && d.opts.unpacked_raw_out;
}

-- `err != nil && outErr == nil`
abbrev pub first_error : Option Error → Option Error → Option Error
first_error none e = e
first_error (some e) f = some e

-- `answer` is what a sink or the handler returns to the last of the calls made so far; an error is
-- one of the sentinel errors.
module _ (answer : List Call → Option Error) where
  unfoldable pub call : Call → Demuxer → Outcome
  call c d = let log = d.log ++ c ∷ [] in (record d { log = log }, answer log)

  unfoldable pub output_raw_mon_bytes : ℕ → RawframeElem → List ℕ → ℕ → Demuxer → Outcome
  unfolding call
  output_raw_mon_bytes index frame_elem bytes id d =
      if d.raw_frame_handler then call (Call.raw_frame index frame_elem bytes id) d else (d, none)

  -- controlAllIDs, the ids from `id` on: every sink is called, and the first error is returned.
  unfoldable pub control_all_ids : (ℕ → Call) → ℕ → List Bool → Demuxer → Option Error → Outcome
  unfolding call
  control_all_ids op id [] d err = (d, err)
  control_all_ids op id (false ∷ streams) d err = control_all_ids op (suc id) streams d err
  control_all_ids op id (true ∷ streams) d err =
      let (d', e) = call (op id) d in control_all_ids op (suc id) streams d' (first_error err e)

  unfoldable pub reset_all_ids : ℕ → Demuxer → Outcome
  unfolding control_all_ids
  reset_all_ids index d = control_all_ids (λ id. Call.sink_reset id index) 0 d.streams d none

  unfoldable pub flush_all_ids : Demuxer → Outcome
  unfolding control_all_ids
  flush_all_ids d = control_all_ids Call.sink_flush 0 d.streams d none

  unfoldable pub close_all_ids : Demuxer → Outcome
  unfolding control_all_ids
  close_all_ids d = control_all_ids Call.sink_close 0 d.streams d none

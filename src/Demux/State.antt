-- ===== src/Demux/State.antt =====
-- demux_demuxer.go: the demultiplexer's state, and the calls that it makes. A byte sink and the
-- raw frame handler are outside the demultiplexer: what they are called with is a log, in the
-- order of the calls.
use coresight.Prelude.{ℕ, ◌-◌, ◌^◌, Bool, true, false, List, [], replicate}

-- MaxTraceID
abbrev pub max_trace_id : ℕ
max_trace_id = 0x80

-- badCSSrcID
abbrev pub bad_cs_src_id : ℕ
bad_cs_src_id = 0xff

abbrev pub bad_index : ℕ
bad_index = 2 ^ 64 - 1

-- dfrmtrFrameSize
abbrev pub frame_size : ℕ
frame_size = 16

-- RawframeElem
pub data RawframeElem : Type 0 where
  frm_none frm_packed frm_hsync frm_fsync frm_id_data : RawframeElem

-- A call of the sink of a trace id, or of the raw frame handler.
pub data Call : Type 0 where
  sink_write : (id index : ℕ) (bytes : List ℕ) → Call
  sink_reset : (id index : ℕ) → Call
  sink_flush sink_close : ℕ → Call
  raw_frame : (index : ℕ) (frame_elem : RawframeElem) (bytes : List ℕ) (id : ℕ) → Call

pub record DemuxOptions : Type 0 where
  pub has_fsyncs : Bool
  pub has_hsyncs : Bool
  pub frame_mem_align : Bool
  pub packed_raw_out : Bool
  pub unpacked_raw_out : Bool
  pub reset_on4x_fsync : Bool

abbrev pub no_options : DemuxOptions
no_options = record {
  has_fsyncs = false;
  has_hsyncs = false;
  frame_mem_align = false;
  packed_raw_out = false;
  unpacked_raw_out = false;
  reset_on4x_fsync = false;
}

-- Demuxer. `streams` tells which ids have a sink, `raw_frame_handler` whether there is a handler.
pub record Demuxer : Type 0 where
  pub opts : DemuxOptions
  pub alignment : ℕ
  pub force_sync_idx : ℕ  -- uint32
  pub use_force_sync : Bool
  pub out_packed_raw : Bool
  pub out_unpacked_raw : Bool
  pub raw_chan_enable : List Bool
  pub streams : List Bool
  pub raw_frame_handler : Bool
  pub trc_curr_idx : ℕ  -- Index, a uint64
  pub frame_synced : Bool
  pub curr_src_id : ℕ  -- uint8
  pub ex_frm_bytes : ℕ  -- uint32
  pub fsync_start_eob : Bool
  pub trc_curr_idx_sof : ℕ
  pub ex_frm_data : List ℕ
  pub in_block : List ℕ
  pub unpack_buf : List ℕ
  pub pending : List ℕ
  pub last_write_end_index : ℕ
  pub last_write_processed_end_index : ℕ
  pub log : List Call

unfoldable pub reset_state_params : Demuxer → Demuxer
reset_state_params d = record d {
  trc_curr_idx = bad_index;
  frame_synced = false;
  curr_src_id = bad_cs_src_id;
  ex_frm_bytes = 0;
  fsync_start_eob = false;
  trc_curr_idx_sof = bad_index;
  pending = [];
  last_write_end_index = 0;
  last_write_processed_end_index = 0;
}

-- newDemuxer
unfoldable pub new_demuxer : List Bool → Demuxer
unfolding reset_state_params
new_demuxer streams =
    let d : Demuxer = record {
      opts = no_options;
      alignment = 0;
      force_sync_idx = 0;
      use_force_sync = false;
      out_packed_raw = false;
      out_unpacked_raw = false;
      raw_chan_enable = replicate max_trace_id true;
      streams = streams;
      raw_frame_handler = false;
      trc_curr_idx = 0;
      frame_synced = false;
      curr_src_id = 0;
      ex_frm_bytes = 0;
      fsync_start_eob = false;
      trc_curr_idx_sof = 0;
      ex_frm_data = replicate frame_size 0;
      in_block = [];
      unpack_buf = replicate frame_size 0;
      pending = [];
      last_write_end_index = 0;
      last_write_processed_end_index = 0;
      log = [];
    } in
    reset_state_params d

-- SetRawFrameHandler
unfoldable pub set_raw_frame_handler : Bool → Demuxer → Demuxer
set_raw_frame_handler handler d = record d { raw_frame_handler = handler }

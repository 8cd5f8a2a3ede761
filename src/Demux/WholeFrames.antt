-- ===== src/Demux/WholeFrames.antt =====
-- Unpacking a whole frame, against the meaning of its bytes.
use coresight.Prelude.{ℕ, ◌≡◌, List, ◌++◌, none, length}
use coresight.Demux.State.{Demuxer}
use coresight.Demux.Tags.{Tag, written, delivered}
use coresight.Demux.Output.{Outcome}
use coresight.Demux.Walks.{rest_of}

-- Unpacking sent the tags `ts`, and left the id `id`.
pub record Unpacked (ts : List Tag) (id : ℕ) (d : Demuxer) (o : Outcome) : Type 0 where
  pub sent : written o.0.log ≡ written d.log ++ delivered d.streams ts
  pub at_id : o.0.curr_src_id ≡ id
  pub used_up : o.0.ex_frm_bytes ≡ 0
  pub succeeds : o.1 ≡ none
  pub same_rest : rest_of o.0 ≡ rest_of d
  pub same_room : length o.0.unpack_buf ≡ length d.unpack_buf

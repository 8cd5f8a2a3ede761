-- ===== src/Demux/Progress.antt =====
-- What extracting a frame consumes: every step leaves a shorter input, or keeps the count of the
-- frame's bytes, or clears it.
use coresight.Prelude.{
  ℕ, suc, ◌≤◌, ◌<◌, ◌≡◌, refl, sym, ap, ◌∙◌, arith, List, [], ◌∷◌, false, none, some, ◌⊎◌, inl,
  length, drop, length-drop, if◌then◌else◌, ◌&&◌, take, ◌==◌,
}
use coresight.Demux.State.{Demuxer, frame_size}
use coresight.Demux.Output.{Outcome, and_then}
use coresight.Demux.Sync.{advance_input}
use coresight.Demux.Extract.{
  copy_frame_pair, skip_fsyncs, skip_all_fsyncs, note_fsync_start, consume_leading_unaligned_fsyncs,
  note_start_of_frame, extract_pairs, odd_byte_left, extract_unaligned_frame, take_aligned_frame,
}

pub record Moves (d d' : Demuxer) : Type 0 where
  pub left : length d'.in_block ≤ length d.in_block
  pub frame :
      (length d'.in_block < length d.in_block)
      ⊎ (d'.ex_frm_bytes ≡ d.ex_frm_bytes)
      ⊎ (d'.ex_frm_bytes ≡ 0)

pub Moves-Moves : (d e f : Demuxer) → Moves d e → Moves e f → Moves d f
Moves-Moves d e f p q = ground (arith, p, q)

pub stays :
    (d d' : Demuxer) → d'.in_block ≡ d.in_block → d'.ex_frm_bytes ≡ d.ex_frm_bytes → Moves d d'
stays d d' p q = ground (arith, p, q)

pub and_then-Moves :
    (d : Demuxer) (o : Outcome) (f : Demuxer → Outcome)
    → Moves d o.0
    → ((e : Demuxer) → Moves e (f e).0)
    → Moves d (and_then o f).0
and_then-Moves d (e, none) f p q = Moves-Moves d e (f e).0 p (q e)
and_then-Moves d (e, some x) f p q = p

pub advance_input-Moves : (n : ℕ) (d : Demuxer) → Moves d (advance_input n d)
unfolding advance_input
advance_input-Moves n d = ground (arith, length-drop n d.in_block)

skip_fsyncs-Moves : (xs : List ℕ) (d : Demuxer) → Moves d (skip_fsyncs xs d)
unfolding skip_fsyncs
skip_fsyncs-Moves (a ∷ b ∷ c ∷ e ∷ rest) d =
    let next = advance_input 4 d in
    let all =
      Moves-Moves d next (skip_fsyncs rest next) (advance_input-Moves 4 d)
        (skip_fsyncs-Moves rest next) in
    ground (arith, all)
skip_fsyncs-Moves [] d = stays d d refl refl
skip_fsyncs-Moves (a ∷ []) d = stays d d refl refl
skip_fsyncs-Moves (a ∷ b ∷ []) d = stays d d refl refl
skip_fsyncs-Moves (a ∷ b ∷ c ∷ []) d = stays d d refl refl

note_fsync_start-Moves : (d : Demuxer) → Moves d (note_fsync_start d)
unfolding note_fsync_start
note_fsync_start-Moves d = ground (arith, advance_input-Moves 2 d)

-- Behind the pattern that the last block began
skipped : (d : Demuxer) → Moves d (note_fsync_start (skip_all_fsyncs d))
unfolding skip_all_fsyncs
skipped d =
    let s = skip_fsyncs d.in_block d in
    Moves-Moves d s (note_fsync_start s) (skip_fsyncs-Moves d.in_block d) (note_fsync_start-Moves s)

consume_leading_unaligned_fsyncs-Moves :
    (d : Demuxer) → Moves d (consume_leading_unaligned_fsyncs d).0
unfolding consume_leading_unaligned_fsyncs
consume_leading_unaligned_fsyncs-Moves d =
    let c : Demuxer = record d { fsync_start_eob = false } in
    let e : Demuxer = record (advance_input 2 d) { fsync_start_eob = false } in
    ground (arith, skipped d, skipped c, skipped e, advance_input-Moves 2 d)

advance_input_less :
    (n : ℕ) (d : Demuxer)
    → 1 ≤ length d.in_block
    → length (advance_input (suc n) d).in_block < length d.in_block
unfolding advance_input
advance_input_less n d h = omega (arith, length-drop (suc n) d.in_block, h)

note_start_of_frame-stays :
    (d : Demuxer)
    → ((note_start_of_frame d).in_block ≡ d.in_block)
      × ((note_start_of_frame d).ex_frm_bytes ≡ d.ex_frm_bytes)
unfolding note_start_of_frame
note_start_of_frame-stays d = ground arith

copy_frame_pair-stays : (d : Demuxer) → (copy_frame_pair d).in_block ≡ d.in_block
unfolding copy_frame_pair
copy_frame_pair-stays d = refl

advance_input-rest :
    (a b : ℕ) (rest : List ℕ) (d : Demuxer)
    → a ∷ b ∷ rest ≡ d.in_block
    → rest ≡ (advance_input 2 d).in_block
unfolding advance_input
advance_input-rest a b rest d h = ap (λ (l : List ℕ). drop 2 l) h

shorter :
    (a b : ℕ) (rest : List ℕ) (d e f : Demuxer)
    → a ∷ b ∷ rest ≡ d.in_block
    → rest ≡ e.in_block
    → Moves e f
    → Moves d f
shorter a b rest d e f h k m =
    let x : suc (suc (length rest)) ≡ length d.in_block = ap (λ (l : List ℕ). length l) h in
    let y : length rest ≡ length e.in_block = ap (λ (l : List ℕ). length l) k in
    let z : length f.in_block < length d.in_block = omega (arith, x, y, m.left) in
    record { left = omega (arith, z); frame = inl z }

extract_pairs-Moves : (xs : List ℕ) (d : Demuxer) → xs ≡ d.in_block → Moves d (extract_pairs xs d).0
unfolding extract_pairs
extract_pairs-Moves [] d h = stays d d refl refl
extract_pairs-Moves (a ∷ []) d h = stays d d refl refl
extract_pairs-Moves (a ∷ b ∷ rest) d h =
    let s = note_start_of_frame d in
    let (in_s, ex_s) = note_start_of_frame-stays d in
    let c = copy_frame_pair s in
    let hs : a ∷ b ∷ rest ≡ s.in_block = h ∙ sym in_s in
    let hc : a ∷ b ∷ rest ≡ c.in_block = hs ∙ sym (copy_frame_pair-stays s) in
    let rs = advance_input-rest a b rest s hs in
    let rc = advance_input-rest a b rest c hc in
    let past =
      shorter a b rest d (advance_input 2 s) (extract_pairs rest (advance_input 2 s)).0 h rs
        (extract_pairs-Moves rest (advance_input 2 s) rs) in
    let taken =
      shorter a b rest d (advance_input 2 c) (extract_pairs rest (advance_input 2 c)).0 h rc
        (extract_pairs-Moves rest (advance_input 2 c) rc) in
    ground (arith, past, taken, stays d s in_s ex_s, stays d d refl refl)

odd_byte_left-Moves : (d : Demuxer) → Moves d (odd_byte_left d).0
unfolding odd_byte_left
odd_byte_left-Moves d = ground (arith, stays d d refl refl)

pub extract_unaligned_frame-Moves : (d : Demuxer) → Moves d (extract_unaligned_frame d).0
unfolding extract_unaligned_frame
extract_unaligned_frame-Moves d =
    let first : Outcome =
      if d.opts.has_fsyncs && d.ex_frm_bytes == 0
      then consume_leading_unaligned_fsyncs d
      else (d, none) in
    let go : Moves d first.0 =
      ground (arith, consume_leading_unaligned_fsyncs-Moves d, stays d d refl refl) in
    and_then-Moves d first (λ d1. and_then (extract_pairs d1.in_block d1) odd_byte_left) go
      (λ e.
        and_then-Moves e (extract_pairs e.in_block e) odd_byte_left
          (extract_pairs-Moves e.in_block e refl) odd_byte_left-Moves)

pub take_aligned_frame-Moves : (d : Demuxer) → Moves d (take_aligned_frame d).0
unfolding take_aligned_frame
take_aligned_frame-Moves d =
    let taken : Demuxer = record d {
      trc_curr_idx_sof = d.trc_curr_idx;
      ex_frm_data = take frame_size d.in_block;
      ex_frm_bytes = frame_size;
    } in
    ground (arith, advance_input_less 15 taken, stays d d refl refl)

-- ===== src/Demux/Pairs.antt =====
-- One round of the loop over a frame, and the loop, against the meaning of the bytes.
use mathlib.Core.Path.{subst}
use coresight.Prelude.{
  ℕ, suc, ◌+◌, ◌/◌, ◌%◌, ◌≤◌, ◌≡◌, refl, sym, ◌∙◌, arith, List, [], ◌∷◌, Option, none, Bool-cases,
  inl, inr, length, if◌then◌else◌, false, Bool, bit_and, shr, ◌/=◌, true, ◌==◌,
}
use coresight.Errors.{Error}
use coresight.Demux.State.{Demuxer, Call}
use coresight.Demux.Unpack.{
  Walk, keep, switch_id, keep_after, unpack_pair, has_flag, data_byte_with_flag, frame_byte,
}
use coresight.Demux.Tags.{Tag, pair_tags, is_odd}
use coresight.Demux.FrameBits.{odd_bit, id_bits, set_low_bit}
use coresight.Demux.Sent.{Accepts}
use coresight.Demux.Walks.{Went, Going, Went-Went, keep-Went, switch_id-Going, keep_after-Going}

pub more : (ts : List Tag) (id : ℕ) (w w' : Walk) → Went 1 ts id w w' → Went 2 ts id w w'
more ts id w w' p = record {
  same_rest = p.same_rest;
  same_frame = p.same_frame;
  same_streams = p.same_streams;
  same_room = p.same_room;
  counted = omega (arith, p.counted);
  at_id = p.at_id;
  out = p.out;
}

pub data_byte_with_flag-tag :
    (i flag_bit : ℕ) (d : Demuxer)
    → is_odd (frame_byte d i) ≡ false
    → data_byte_with_flag i flag_bit d
      ≡ (if has_flag flag_bit d then frame_byte d i + 1 else frame_byte d i)
unfolding data_byte_with_flag
data_byte_with_flag-tag i flag_bit d h =
    ground (arith, set_low_bit (frame_byte d i) (ground (arith, h)))

module _ (answer : List Call → Option Error) (accepts : Accepts answer) where
  -- The rest of a pair with a new id
  new_id-Going :
      (i flag_bit next id : ℕ) (w : Walk)
      → w.count + 2 ≤ length w.dm.unpack_buf
      → Going 2 ((if has_flag flag_bit w.dm then w.dm.curr_src_id else id, next) ∷ []) id w (
          if has_flag flag_bit w.dm
          then switch_id answer id i (keep next w)
          else keep_after next (switch_id answer id i w))
  new_id-Going i flag_bit next id w h = elim (Bool-cases (has_flag flag_bit w.dm)) [
    | inl e ↦
        let k = keep-Went next w (omega (arith, h)) in
        let (s, ok) = switch_id-Going answer accepts id i (keep next w) in
        let cur = w.dm.curr_src_id in
        let both =
          Went-Went 1 0 ((cur, next) ∷ []) [] cur id w (keep next w)
            (switch_id answer id i (keep next w)).0 k s in
        rw e (more ((cur, next) ∷ []) id w (switch_id answer id i (keep next w)).0 both, ok)
    | inr e ↦
        let g = switch_id-Going answer accepts id i w in
        let (p, _) = g in
        let (s, ok) =
          keep_after-Going answer accepts next id w (switch_id answer id i w) g
            (omega (arith, p.counted, h)) in
        rw e (more ((id, next) ∷ []) id w (keep_after next (switch_id answer id i w)).0 s, ok)
  ]

  -- The rest of a pair that names the id at hand
  kept_id-Going :
      (flag : Bool) (next id : ℕ) (w : Walk)
      → id ≡ w.dm.curr_src_id
      → w.count + 2 ≤ length w.dm.unpack_buf
      → Going 2 ((if flag then w.dm.curr_src_id else id, next) ∷ []) id w (keep next w, none)
  kept_id-Going flag next id w same h =
      let cur = w.dm.curr_src_id in
      let k = more ((cur, next) ∷ []) cur w (keep next w) (keep-Went next w (omega (arith, h))) in
      let tag : cur ≡ (if flag then cur else id) = ground (arith, same) in
      (
        subst (λ (p : ℕ × ℕ). Went 2 ((p.0, next) ∷ []) p.1 w (keep next w))
            (λ i. (tag i, sym same i)) k,
        refl,
      )

  -- Two bytes of data
  kept-Going :
      (v next : ℕ) (w : Walk)
      → w.count + 2 ≤ length w.dm.unpack_buf
      → let cur = w.dm.curr_src_id in
        Going 2 ((cur, v) ∷ (cur, next) ∷ []) cur w (keep next (keep v w), none)
  unfolding keep
  kept-Going v next w h =
      let cur = w.dm.curr_src_id in
      let k1 = keep-Went v w (omega (arith, h)) in
      let k2 = keep-Went next (keep v w) (omega (arith, h, k1.counted, k1.same_room)) in
      (
        Went-Went 1 1 ((cur, v) ∷ []) ((cur, next) ∷ []) cur cur w (keep v w) (keep next (keep v w))
            k1 k2,
        refl,
      )

  pub unpack_pair-Going :
      (i flag_bit : ℕ) (w : Walk)
      → w.count + 2 ≤ length w.dm.unpack_buf
      → let (ts, id) =
          pair_tags
            (has_flag flag_bit w.dm)
            w.dm.curr_src_id
            (frame_byte w.dm i)
            (frame_byte w.dm (suc i)) in
        Going 2 ts id w (unpack_pair answer i flag_bit w)
  unfolding unpack_pair
  unpack_pair-Going i flag_bit w h =
      let b = frame_byte w.dm i in
      let next = frame_byte w.dm (suc i) in
      let cur = w.dm.curr_src_id in
      let id = b / 2 % 128 in
      let ide : bit_and (shr b 1) 0x7f ≡ id = id_bits b in
      elim (Bool-cases (is_odd b)) [
        | inl e ↦
            let o : (bit_and b 1 /= 0) ≡ true = odd_bit b ∙ e in
            elim (Bool-cases (id == cur)) [
              | inl same ↦
                  rw (o, e, ide, same)
                    (kept_id-Going (has_flag flag_bit w.dm) next id w (ground (arith, same)) h)
              | inr new ↦ rw (o, e, ide, new) (new_id-Going i flag_bit next id w h)
            ]
        | inr e ↦
            let o : (bit_and b 1 /= 0) ≡ false = odd_bit b ∙ e in
            let v = data_byte_with_flag i flag_bit w.dm in
            let tag : v ≡ (if has_flag flag_bit w.dm then b + 1 else b) =
              data_byte_with_flag-tag i flag_bit w.dm e in
            rw (o, e, sym tag) (kept-Going v next w h)
      ]

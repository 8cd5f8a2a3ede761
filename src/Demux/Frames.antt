-- ===== src/Demux/Frames.antt =====
-- The bytes and the flags of a frame, place by place, and rounds that hold nothing.
use coresight.Prelude.{
  ℕ, suc, ◌*◌, ◌/◌, ◌^◌, ◌≤◌, ◌<◌, ◌≡◌, refl, sym, ap, ◌∙◌, arith, List, [], ◌∷◌, ◌++◌, none,
  length, get_or, take, drop, u8, drop-get_elem?, length-take, get_elem?-within, get_or-take,
  append-nil,
}
use native.Mathlib.Nat.{pow-suc, div-div-eq-div-mul, pow-le-pow_right}
use coresight.Demux.State.{Demuxer}
use coresight.Demux.Unpack.{Walk, WalkOutcome, frame_byte}
use coresight.Demux.Tags.{Tag}
use coresight.Demux.Walks.{Going, so_far}

drop-cons : (xs : List ℕ) (i : ℕ) → i < length xs → drop i xs ≡ get_or xs i 0 ∷ drop (suc i) xs
drop-cons xs i h = drop-get_elem? xs i (get_or xs i 0) (get_elem?-within xs i 0 h)

-- The bytes of a frame without the byte of flags
abbrev pub body : Demuxer → List ℕ
body d = take 15 d.ex_frm_data

pub body-cons :
    (d : Demuxer) (i : ℕ)
    → length d.ex_frm_data ≡ 16
    → i < 15
    → drop i (body d) ≡ frame_byte d i ∷ drop (suc i) (body d)
body-cons d i h k =
    drop-cons (body d) i (omega (arith, h, length-take 15 d.ex_frm_data))
    ∙ ap (λ (b : ℕ). b ∷ drop (suc i) (body d)) (get_or-take d.ex_frm_data 15 i 0 k)

pub stay-Going : (id : ℕ) (w : Walk) → id ≡ w.dm.curr_src_id → Going 1 [] id w (w, none)
stay-Going id w h =
    let here : so_far w ++ [] ≡ so_far w = append-nil (so_far w) in
    (
      record {
        same_rest = refl;
        same_frame = refl;
        same_streams = refl;
        same_room = refl;
        counted = omega arith;
        at_id = sym h;
        out = sym here;
      },
      refl,
    )

pub one_more :
    (ts : List Tag) (id : ℕ) (w : Walk) (o : WalkOutcome) → Going 0 ts id w o → Going 1 ts id w o
one_more ts id w o (p, ok) = (
  record {
    same_rest = p.same_rest;
    same_frame = p.same_frame;
    same_streams = p.same_streams;
    same_room = p.same_room;
    counted = omega (arith, p.counted);
    at_id = p.at_id;
    out = p.out;
  },
  ok,
)

pub next_flag : (k : ℕ) → k ≤ 6 → u8 (2 ^ k * 2) ≡ 2 ^ suc k
next_flag k h = omega (arith, pow-suc 2 k, pow-le-pow_right {n = 2} (omega arith) h)

pub flags_after : (x k : ℕ) → x / 2 ^ suc k ≡ x / 2 ^ k / 2
flags_after x k =
    ap (λ (p : ℕ). x / p) (omega (arith, pow-suc 2 k)) ∙ sym (div-div-eq-div-mul x (2 ^ k) 2)

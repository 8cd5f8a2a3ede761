-- ===== src/Demux/Walks.antt =====
-- The loop over a frame, with sinks that take everything: the tags sent and held so far.
use mathlib.Core.Path.{subst}
use coresight.Prelude.{
  ℕ, ◌+◌, ◌≤◌, ◌<◌, ◌≡◌, refl, sym, ap, ◌∙◌, arith, List, [], ◌∷◌, ◌++◌, append_assoc, Option, none,
  take, length, Bool, take-set_next, length-set, some,
}
use coresight.Errors.{Error}
use coresight.Demux.State.{Demuxer, Call}
use coresight.Demux.Unpack.{Walk, WalkOutcome, keep, turn_to, switch_id, keep_after, put, switched}
use coresight.Demux.Output.{Outcome}
use coresight.Demux.Tags.{Tag, written, delivered}
use coresight.Demux.Sent.{
  Accepts, logged, buf_calls, buf_calls-written, written-append, delivered-append,
  emit_unpack_buf-accepted,
}
use mathlib.Core.List.{map}

abbrev held_tags : Walk → List Tag
held_tags w = map (λ b. (w.dm.curr_src_id, b)) (take w.count w.dm.unpack_buf)

abbrev pub so_far : Walk → List Tag
so_far w = written w.dm.log ++ delivered w.dm.streams (held_tags w)

-- What unpacking a frame does not touch
abbrev pub rest_of : Demuxer → Demuxer
rest_of d = record d { log = []; curr_src_id = 0; unpack_buf = []; ex_frm_bytes = 0 }

-- From one point of the loop to another: the tags `ts` are sent or held, `id` holds from there on,
-- and at most `n` bytes more are in the buffer.
pub record Went (n : ℕ) (ts : List Tag) (id : ℕ) (w w' : Walk) : Type 0 where
  pub same_rest : rest_of w'.dm ≡ rest_of w.dm
  pub same_frame : w'.dm.ex_frm_data ≡ w.dm.ex_frm_data
  pub same_streams : w'.dm.streams ≡ w.dm.streams
  pub same_room : length w'.dm.unpack_buf ≡ length w.dm.unpack_buf
  pub counted : w'.count ≤ w.count + n
  pub at_id : w'.dm.curr_src_id ≡ id
  pub out : so_far w' ≡ so_far w ++ delivered w.dm.streams ts

abbrev pub Going : ℕ → List Tag → ℕ → Walk → WalkOutcome → Type 0
Going n ts id w o = Went n ts id w o.0 × (o.1 ≡ none)

pub Went-Went :
    (n m : ℕ) (ts us : List Tag) (id id' : ℕ) (w w1 w2 : Walk)
    → Went n ts id w w1
    → Went m us id' w1 w2
    → Went (n + m) (ts ++ us) id' w w2
Went-Went n m ts us id id' w w1 w2 p q =
    let moved : so_far w2 ≡ (so_far w ++ delivered w.dm.streams ts) ++ delivered w1.dm.streams us =
      q.out ∙ ap (λ (l : List Tag). l ++ delivered w1.dm.streams us) p.out in
    let joined : so_far w2 ≡ so_far w ++ delivered w.dm.streams (ts ++ us) =
      moved
      ∙ ap (λ (s : List Bool). (so_far w ++ delivered w.dm.streams ts) ++ delivered s us)
          p.same_streams
      ∙ append_assoc (so_far w) (delivered w.dm.streams ts) (delivered w.dm.streams us)
      ∙ ap (λ (l : List Tag). so_far w ++ l) (sym (delivered-append w.dm.streams ts us)) in
    record {
      same_rest = q.same_rest ∙ p.same_rest;
      same_frame = q.same_frame ∙ p.same_frame;
      same_streams = q.same_streams ∙ p.same_streams;
      same_room = q.same_room ∙ p.same_room;
      counted = omega (arith, p.counted, q.counted);
      at_id = q.at_id;
      out = joined;
    }

map-append_tag :
    (id : ℕ) (bs : List ℕ) (b : ℕ)
    → let f : ℕ → Tag = λ c. (id, c) in map f (bs ++ b ∷ []) ≡ map f bs ++ (id, b) ∷ []
map-append_tag id [] b = refl
map-append_tag id (c ∷ bs) b = ap (λ (l : List Tag). (id, c) ∷ l) (map-append_tag id bs b)

pub keep-Went :
    (b : ℕ) (w : Walk)
    → w.count < length w.dm.unpack_buf
    → Went 1 ((w.dm.curr_src_id, b) ∷ []) w.dm.curr_src_id w (keep b w)
unfolding keep put
keep-Went b w h =
    let id = w.dm.curr_src_id in
    let held : held_tags (keep b w) ≡ held_tags w ++ (id, b) ∷ [] =
      ap (λ (l : List ℕ). map (λ c. (id, c)) l) (take-set_next w.dm.unpack_buf w.count b h)
      ∙ map-append_tag id (take w.count w.dm.unpack_buf) b in
    let now : so_far (keep b w) ≡ so_far w ++ delivered w.dm.streams ((id, b) ∷ []) =
      ap (λ (l : List Tag). written w.dm.log ++ delivered w.dm.streams l) held
      ∙ ap (λ (l : List Tag). written w.dm.log ++ l)
          (delivered-append w.dm.streams (held_tags w) ((id, b) ∷ []))
      ∙ sym (
          append_assoc (written w.dm.log) (delivered w.dm.streams (held_tags w))
            (delivered w.dm.streams ((id, b) ∷ []))) in
    record {
      same_rest = refl;
      same_frame = refl;
      same_streams = refl;
      same_room = length-set w.dm.unpack_buf w.count b;
      counted = omega arith;
      at_id = refl;
      out = now;
    }

turn_to-Went :
    (id i : ℕ) (w : Walk)
    → Went 0 [] id w
        (turn_to id i (record w { dm = logged w.dm (buf_calls w.start_index w.count w.dm) }))
unfolding turn_to
turn_to-Went id i w =
    let cs = buf_calls w.start_index w.count w.dm in
    let sent : written (w.dm.log ++ cs) ≡ so_far w =
      written-append w.dm.log cs
      ∙ ap (λ (l : List Tag). written w.dm.log ++ l)
          (buf_calls-written w.start_index w.count w.dm) in
    record {
      same_rest = refl;
      same_frame = refl;
      same_streams = refl;
      same_room = refl;
      counted = omega arith;
      at_id = refl;
      out = ap (λ (l : List Tag). l ++ []) sent;
    }

module _ (answer : List Call → Option Error) (accepts : Accepts answer) where
  switch_id-accepted :
      (id i : ℕ) (w : Walk)
      → switch_id answer id i w ≡ (
        turn_to id i (record w { dm = logged w.dm (buf_calls w.start_index w.count w.dm) }),
        none,
      )
  unfolding switch_id switched
  switch_id-accepted id i w =
      ap (λ (o : Outcome). switched id i w o)
        (emit_unpack_buf-accepted answer w.start_index w.count w.dm accepts)

  pub switch_id-Going : (id i : ℕ) (w : Walk) → Going 0 [] id w (switch_id answer id i w)
  switch_id-Going id i w =
      subst (λ (o : WalkOutcome). Going 0 [] id w o) (sym (switch_id-accepted id i w))
        (turn_to-Went id i w, refl)

  pub keep_after-Going :
      (b id : ℕ) (w : Walk) (o : WalkOutcome)
      → Going 0 [] id w o
      → o.0.count < length w.dm.unpack_buf
      → Going 1 ((id, b) ∷ []) id w (keep_after b o)
  keep_after-Going b id w (w1, none) (p, e) h =
      let k : Went 1 ((id, b) ∷ []) id w1 (keep b w1) =
        subst (λ (j : ℕ). Went 1 ((j, b) ∷ []) j w1 (keep b w1)) p.at_id
          (keep-Went b w1 (omega (arith, h, p.same_room))) in
      (Went-Went 0 1 [] ((id, b) ∷ []) id id w w1 (keep b w1) p k, refl)
  keep_after-Going b id w (w1, some x) (p, e) h = absurd (elim (none≢some x (sym e)) [ ])
    where
      none≢some : (x : Error) → none ≡ some x → ⊥
      none≢some x h = cc

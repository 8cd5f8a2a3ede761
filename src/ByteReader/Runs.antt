-- ===== src/ByteReader/Runs.antt =====
-- Sequences of calls on a byte reader.
use mathlib.Core.Path.{subst}
use coresight.Prelude.{ℕ, ◌≡◌, refl, ap, List, [], ◌∷◌, Option, arith, sym, inl, ◌∙◌}
use coresight.ByteReader.{ByteReader, new_byte_reader}
use coresight.ByteReader.Content.{IsWf}
use coresight.ByteReader.Steps.{Op, IsAllowed, View, view, view_step, step}
use coresight.ByteReader.Refines.{step-Steps}

abbrev pub Answers : Type 0
Answers = List (Option (List ℕ))

-- The reader at the end, and what each call returned.
abbrev pub run : (ℕ → ℕ) → List Op → ByteReader → ByteReader × Answers
run growth [] r = (r, [])
run growth (op ∷ ops) r =
    let (r', out) = step growth op r in let (last, outs) = run growth ops r' in (last, out ∷ outs)

abbrev pub view_run : List Op → View → View × Answers
view_run [] v = (v, [])
view_run (op ∷ ops) v =
    let (v', out) = view_step op v in let (last, outs) = view_run ops v' in (last, out ∷ outs)

abbrev pub AreAllowed : List Op → View → Type 0
AreAllowed [] v = Unit
AreAllowed (op ∷ ops) v = IsAllowed op v × AreAllowed ops (view_step op v).0

-- Along every sequence of calls, each of them allowed, the scratch buffer with its extension and the
-- block behave as two plain sequences of bytes: a byte read moves from the block to the end of the
-- packet, and a byte that is unread goes back. The growth of the extension does not show, and the
-- capacity that it leaves is never exceeded.
pub run-view_run :
    (growth : ℕ → ℕ) (ops : List Op) (r : ByteReader)
    → IsWf r
    → AreAllowed ops (view r)
    → let (r', outs) = run growth ops r in IsWf r' × ((view r', outs) ≡ view_run ops (view r))
run-view_run growth [] r wf h = (wf, refl)
run-view_run growth (op ∷ ops) r wf (h, hs) =
    let (r', out) = step growth op r in
    let (wf', e) = step-Steps growth op r wf h in
    let hs' : AreAllowed ops (view r') =
      subst (λ (p : View × Option (List ℕ)). AreAllowed ops p.0) (sym e) hs in
    let (last, es) = run-view_run growth ops r' wf' hs' in
    let next : View × Option (List ℕ) → View × Answers =
      λ p. let (v, outs) = view_run ops p.0 in (v, p.1 ∷ outs) in
    (last, ap (λ (q : View × Answers). (q.0, out ∷ q.1)) es ∙ ap next e)

pub new_byte_reader-IsWf : IsWf new_byte_reader
new_byte_reader-IsWf = record {
  inner = refl;
  within = omega arith;
  room = inl refl;
  mode = inl (record { empty = refl; short = omega arith });
}

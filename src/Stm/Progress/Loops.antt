-- ===== src/Stm/Progress/Loops.antt =====
-- How far the loops of the packet methods get.
use coresight.Prelude.{
  ℕ, ◌+◌, ◌-◌, ◌≤◌, ◌<◌, ◌≡◌, ◌⊎◌, inl, inr, refl, ap, arith, true, false, List, length, take, drop,
  take-append-drop, length-take, length-drop, sym, Bool-cases, leb,
}
use coresight.Stm.State.{StmParseContext}
use coresight.Stm.Nibbles.{read_nibble}
use coresight.Stm.Nibbles.Stream.{pending, read_nibble-pending}
use coresight.Stm.Fields.Values.{SameOuter}
use coresight.Stm.Fields.Registers.{Width, extract_val, extract_val-Gathered, extract_val-short}
use coresight.Stm.Progress.{left}

-- One nibble less if there was one, or else nothing has changed.
pub read_nibble-left :
    (c : StmParseContext)
    → let (c', done) = read_nibble c in
      ((done ≡ true) × (left c ≡ left c' + 1)) ⊎ ((done ≡ false) × (left c ≡ 0) × (c' ≡ c))
read_nibble-left c = elim (Bool-cases (read_nibble c).1) [
  | inl t ↦ inl (t, ground (arith, ap length (read_nibble-pending c).0))
  | inr f ↦
      inr (f, ground (arith, ap length (read_nibble-pending c).0), (read_nibble-pending c).1 f)
]

pub record Extracted (n : ℕ) (c d : StmParseContext) : Type 0 where
  pub conserved : d.num_nibbles + left d ≡ c.num_nibbles + left c
  pub bounded : d.num_nibbles ≤ n
  pub exhausted : (d.num_nibbles ≡ n) ⊎ (left d ≡ 0)
  pub outer : SameOuter c d

pub extract_val-Extracted :
    (w : Width) (n : ℕ) (c : StmParseContext)
    → c.num_nibbles ≤ n
    → n < 256
    → Extracted n c (extract_val w n c)
extract_val-Extracted w n c h hb = elim (Bool-cases (leb k (left c))) [
  | inl enough ↦
      let g =
        extract_val-Gathered w n (take k p) (drop k p) c (sym (take-append-drop k p))
          (ground (arith, length-take k p)) hb in
      ground (arith, ap length g.gathered_rest, length-drop k p, g.gathered_outer)
  | inr few ↦
      let g = extract_val-short w n p c refl (ground arith) hb in
      ground (arith, ap length g.gathered_rest, g.gathered_outer)
]
  where
    k : ℕ
    k = n - c.num_nibbles

    p : List ℕ
    p = pending c

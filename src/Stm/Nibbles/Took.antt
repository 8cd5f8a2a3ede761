-- ===== src/Stm/Nibbles/Took.antt =====
-- Reading a nibble, in the two forms that the proofs about packet methods use: there is one, or none.
use coresight.Prelude.{ℕ, ◌+◌, ◌≡◌, arith, true, false, List, [], ◌∷◌, u8, Bool-cases, inl, inr}
use coresight.Stm.State.{StmParseContext}
use coresight.Stm.Nibbles.{read_nibble}
use coresight.Stm.Nibbles.Stream.{pending, read_nibble-pending}
use coresight.Stm.Nibbles.Frame.{read_nibble-num}

-- The nibble `x` was at hand, and `xs` behind it.
pub record Took (c : StmParseContext) (x : ℕ) (xs : List ℕ) : Type 0 where
  pub took_one : (read_nibble c).1 ≡ true
  pub took_nibble : (read_nibble c).0.nibble ≡ x
  pub took_pending : pending (read_nibble c).0 ≡ xs
  pub took_num : (read_nibble c).0.num_nibbles ≡ u8 (c.num_nibbles + 1)

pub read_nibble-Took :
    (c : StmParseContext) (x : ℕ) (xs : List ℕ) → pending c ≡ x ∷ xs → Took c x xs
read_nibble-Took c x xs h = elim (Bool-cases (read_nibble c).1) [
  | inl t ↦ ground (arith, read_nibble-pending c, read_nibble-num c t)
  | inr f ↦ ground (arith, read_nibble-pending c)
]

pub read_nibble-none : (c : StmParseContext) → pending c ≡ [] → (read_nibble c).1 ≡ false
read_nibble-none c h = ground (arith, read_nibble-pending c)

pub read_nibble-unchanged : (c : StmParseContext) → pending c ≡ [] → (read_nibble c).0 ≡ c
read_nibble-unchanged c h = (read_nibble-pending c).1 (read_nibble-none c h)

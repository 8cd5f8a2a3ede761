-- ===== src/Stm/Nibbles/Stream.antt =====
-- `readNibble` as a queue of nibbles: the low half of each byte first, and none lost or repeated.
use coresight.Prelude.{
  ℕ, zero, suc, ◌≡◌, refl, arith, false, List, [], ◌∷◌, none, Option-cases, inl, inr, get_elem?,
  drop, drop-get_elem?, bit_and, shr, if◌then◌else◌,
}
use coresight.Stm.State.{StmParseContext}
use coresight.Stm.Nibbles.{read_nibble, take_held, take_fresh, check_sync_nibble}

abbrev pub nibbles_of : List ℕ → List ℕ
nibbles_of [] = []
nibbles_of (b ∷ bs) = bit_and b 0xf ∷ bit_and (shr b 4) 0xf ∷ nibbles_of bs

-- The nibbles of the block that are still to be read.
abbrev pub pending : StmParseContext → List ℕ
pending c =
    let rest = nibbles_of (drop c.offset c.block) in
    if c.nibble_second_valid then c.nibble_second ∷ rest else rest

drop-none : (xs : List ℕ) (i : ℕ) → get_elem? xs i ≡ none → drop i xs ≡ []
drop-none [] zero h = refl
drop-none [] (suc i) h = refl
drop-none (x ∷ xs) zero h = cc
drop-none (x ∷ xs) (suc i) h = drop-none xs i h

-- The check for ASYNC touches neither the input nor the nibble just read.
pub check_sync_nibble-input :
    (c : StmParseContext)
    → (pending (check_sync_nibble c) ≡ pending c) × ((check_sync_nibble c).nibble ≡ c.nibble)
unfolding check_sync_nibble
check_sync_nibble-input c = ground arith

-- `readNibble` takes the next pending nibble and leaves the others pending, in order. It fails
-- exactly when none is pending, and then it changes nothing.
pub read_nibble-pending :
    (c : StmParseContext)
    → let (c', done) = read_nibble c in
      (pending c ≡ (if done then c'.nibble ∷ pending c' else [])) × (done ≡ false → c' ≡ c)
unfolding read_nibble
read_nibble-pending c = elim (Option-cases (get_elem? c.block c.offset)) [
  | inl e ↦ ground (arith, check_sync_nibble-input (take_held c), drop-none c.block c.offset e)
  | inr (b, e) ↦ ground (
    arith,
    check_sync_nibble-input (take_held c),
    check_sync_nibble-input (take_fresh b c),
    drop-get_elem? c.block c.offset b e,
  )
]

-- ===== src/Stm/Parser/Sync.antt =====
-- The loop of `waitForSync` reads until it is synchronised or until the block is used up.
use coresight.Prelude.{
  ℕ, zero, suc, ◌+◌, ◌*◌, ◌<◌, ◌≡◌, ◌⊎◌, inl, inr, refl, ap, arith, true, false, Bool-cases, List,
  [], ◌∷◌, length, drop, length-drop,
}
use coresight.Stm.State.{StmParseContext}
use coresight.Stm.Nibbles.{read_nibble}
use coresight.Stm.Nibbles.Stream.{pending, nibbles_of, read_nibble-pending}
use coresight.Stm.Parser.{sync_loop, nibble_bound}

pub length-nibbles_of : (bs : List ℕ) → length (nibbles_of bs) ≡ 2 * length bs
length-nibbles_of [] = refl
length-nibbles_of (b ∷ bs) = omega (arith, length-nibbles_of bs)

-- The rounds that `waitForSync` is given are more than the nibbles of the block.
pub pending-nibble_bound : (c : StmParseContext) → length (pending c) < nibble_bound c
pending-nibble_bound c =
    ground (arith, length-nibbles_of (drop c.offset c.block), length-drop c.offset c.block)

-- One nibble less if there was one, or else nothing has changed.
read_nibble-shorter :
    (c : StmParseContext)
    → let (c', done) = read_nibble c in
      ((done ≡ true) × (length (pending c) ≡ suc (length (pending c'))))
      ⊎ ((done ≡ false) × (pending c ≡ []) × (c' ≡ c))
read_nibble-shorter c = elim (Bool-cases (read_nibble c).1) [
  | inl t ↦ inl (t, ground (arith, ap length (read_nibble-pending c).0))
  | inr f ↦ inr (f, ground (arith, (read_nibble-pending c).0), (read_nibble-pending c).1 f)
]

-- What the loop has when it ends by itself: synchronisation, or no more input.
abbrev pub Ended : StmParseContext → Type 0
Ended c = (c.is_sync ≡ true) ⊎ (pending c ≡ [])

pub sync_loop-Ended_rounds :
    (rounds : ℕ) (c : StmParseContext) → length (pending c) < rounds → Ended (sync_loop rounds c)
unfolding sync_loop
sync_loop-Ended_rounds zero c h = absurd (omega arith)
sync_loop-Ended_rounds (suc rounds) c h = elim (Bool-cases c.is_sync) [
  | inl on ↦ ground arith
  | inr off ↦ elim (read_nibble-shorter c) [
    | inl (t, n) ↦
        let rest = sync_loop-Ended_rounds rounds (read_nibble c).0 (omega arith) in
        ground (arith, rest)
    | inr (f, e, same) ↦ ground (arith, ap pending same)
  ]
]

sync_loop-add_rounds :
    (rounds more : ℕ) (c : StmParseContext)
    → length (pending c) < rounds
    → sync_loop (rounds + more) c ≡ sync_loop rounds c
unfolding sync_loop
sync_loop-add_rounds zero more c h = absurd (omega arith)
sync_loop-add_rounds (suc rounds) more c h =
    let e : suc rounds + more ≡ suc (rounds + more) = omega arith in
    rw e (elim (read_nibble-shorter c) [
      | inl (t, n) ↦
          let rest = sync_loop-add_rounds rounds more (read_nibble c).0 (omega arith) in
          ground (arith, rest)
      | inr (f, p, same) ↦ ground (arith, f)
    ])

-- `for !isSync && readNibble() {}` ends, from every context: with the rounds that the model gives it, it
-- is synchronised or has used up the block, and any more rounds give the same result.
pub sync_loop-Ended :
    (more : ℕ) (c : StmParseContext)
    → Ended (sync_loop (nibble_bound c) c)
      × (sync_loop (nibble_bound c + more) c ≡ sync_loop (nibble_bound c) c)
sync_loop-Ended more c = (
  sync_loop-Ended_rounds (nibble_bound c) c (pending-nibble_bound c),
  sync_loop-add_rounds (nibble_bound c) more c (pending-nibble_bound c),
)

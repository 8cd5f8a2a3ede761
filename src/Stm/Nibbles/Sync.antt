-- ===== src/Stm/Nibbles/Sync.antt =====
-- When the watch for ASYNC reports synchronisation: a run of F nibbles that ends with a 0 nibble.
use coresight.Prelude.{ℕ, zero, suc, ◌%◌, ◌≡◌, arith, false, leb, ltb}
use coresight.Stm.State.{StmParseContext}
use coresight.Stm.Nibbles.{check_sync_nibble}

-- The watch when the nibble `x` is read.
abbrev pub see : ℕ → StmParseContext → StmParseContext
see x c = check_sync_nibble (record c { nibble = x })

abbrev pub see_run : ℕ → StmParseContext → StmParseContext
see_run zero c = c
see_run (suc n) c = see 0xf (see_run n c)

-- No F nibble has been seen since the watch was cleared.
pub record IsClear (c : StmParseContext) : Type 0 where
  pub no_start : c.sync_start ≡ false
  pub no_sync : c.is_sync ≡ false
  pub no_count : c.num_f_nibs ≡ 0

record Counted (n : ℕ) (c : StmParseContext) : Type 0 where
  started : c.sync_start ≡ ltb 0 n
  unsynced : c.is_sync ≡ false
  counted : c.num_f_nibs ≡ n % 256

see-Counted : (n : ℕ) (c : StmParseContext) → Counted n c → Counted (suc n) (see 0xf c)
unfolding check_sync_nibble
see-Counted n c h = ground arith

see_run-Counted : (n : ℕ) (c : StmParseContext) → IsClear c → Counted n (see_run n c)
see_run-Counted zero c h = ground arith
see_run-Counted (suc n) c h = see-Counted n (see_run n c) (see_run-Counted n c h)

see_zero : (n : ℕ) (c : StmParseContext) → Counted n c → (see 0 c).is_sync ≡ leb 21 (n % 256)
unfolding check_sync_nibble
see_zero n c h = ground arith

-- From a clear watch on, after a run of n F nibbles, a 0 nibble is taken for the end of ASYNC exactly when n, counted in a
-- uint8, is at least 21. So a run of 256 to 276 F nibbles is not recognised.
pub see-see_run :
    (n : ℕ) (c : StmParseContext) → IsClear c → (see 0 (see_run n c)).is_sync ≡ leb 21 (n % 256)
see-see_run n c h = see_zero n (see_run n c) (see_run-Counted n c h)

-- Any other nibble than F and 0 clears the watch, whatever was seen before.
pub see-IsClear : (x : ℕ) (c : StmParseContext) → (x ≡ 0xf → ⊥) → (x ≡ 0 → ⊥) → IsClear (see x c)
unfolding check_sync_nibble
see-IsClear x c hf hz = ground arith

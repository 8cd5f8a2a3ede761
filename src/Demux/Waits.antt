-- ===== src/Demux/Waits.antt =====
-- demux_frame_data.go and demux_demuxer.go: what Write keeps while the pattern has not been seen.
use mathlib.Core.Path.{subst}
use coresight.Prelude.{
  ℕ, zero, suc, ◌+◌, ◌-◌, ◌%◌, ◌^◌, ◌<◌, ◌≤◌, ◌≡◌, ◌≢◌, ◌∙◌, refl, ap, arith, List, true, false,
  Option, none, some, Bool-cases, inl, inr, take, drop, length, length-take, length-drop, leb,
  leb→le, drop_past,
}
use coresight.Errors.{Error}
use coresight.Demux.State.{Demuxer, Call}
use coresight.Demux.Sync.{
  index_of_fsync, check_for_sync, find_first_fsync, skip_unsynced, advance_input, before_fsync_part,
  ends_with_fsync_part,
}
use coresight.Demux.Write.{Written, write_block, finish_write}
use coresight.Demux.Search.{sync_bytes, equal_bytes-same, equal_bytes_refl, index_of_fsync-none}

-- A list that may go on as the pattern: its first bytes, but not all of them
abbrev pub IsBeginning : List ℕ → Type 0
IsBeginning xs = (k : ℕ) × (k < 4) × (xs ≡ take k sync_bytes)

-- The longest end of the input that may go on as the pattern is the end from `n` on.
pub record IsLongest (xs : List ℕ) (n : ℕ) : Type 0 where
  pub inside : n ≤ length xs
  pub beginning : IsBeginning (drop n xs)
  pub longest : (m : ℕ) → m < n → IsBeginning (drop m xs) → ⊥

ends-drop :
    (s : ℕ) (xs : List ℕ)
    → ends_with_fsync_part s xs ≡ true
    → (s ≤ length xs) × (drop (length xs - s) xs ≡ take s sync_bytes)
unfolding ends_with_fsync_part
ends-drop s xs h = elim (Bool-cases (leb s (length xs))) [
  | inl e ↦ (leb→le s (length xs) e, equal_bytes-same _ _ (ground (arith, h, e)))
  | inr e ↦ ground (arith, h, e)
]

drop-ends :
    (s : ℕ) (xs : List ℕ)
    → s ≤ length xs
    → drop (length xs - s) xs ≡ take s sync_bytes
    → ends_with_fsync_part s xs ≡ true
unfolding ends_with_fsync_part
drop-ends s xs h e = ground (arith, e, equal_bytes_refl (take s sync_bytes))

-- A place from which on the input may go on as the pattern is at most three bytes before its end.
beginning-ends :
    (m : ℕ) (xs : List ℕ)
    → m < length xs
    → IsBeginning (drop m xs)
    → (s : ℕ) × (m + s ≡ length xs) × (s < 4) × (ends_with_fsync_part s xs ≡ true)
beginning-ends m xs h (k, l, e) =
    let n : length (drop m xs) ≡ k = ap length e ∙ length-take k sync_bytes ∙ omega arith in
    let whole : m + k ≡ length xs = omega (arith, n, length-drop m xs) in
    let at : length xs - k ≡ m = omega (arith, whole) in
    (k, whole, l, drop-ends k xs (omega (arith, whole)) (ap (λ i. drop i xs) at ∙ e))

-- The end with the first `s` bytes of the pattern is the longest one when no longer one is there.
longest_end :
    (s : ℕ) (xs : List ℕ)
    → s < 4
    → ends_with_fsync_part s xs ≡ true
    → ((r : ℕ) → s < r → r < 4 → ends_with_fsync_part r xs ≡ false)
    → IsLongest xs (length xs - s)
longest_end s xs h e none_longer =
    let (fits, same) = ends-drop s xs e in
    record {
      inside = omega arith;
      beginning = (s, h, same);
      longest = λ m l begins.
          let (r, whole, small, there) = beginning-ends m xs (omega (arith, l)) begins in
          let not_there = none_longer r (omega (arith, l, whole)) small in cc;
    }

none_longer :
    (s : ℕ) (xs : List ℕ)
    → (s < 1 → ends_with_fsync_part 1 xs ≡ false)
    → (s < 2 → ends_with_fsync_part 2 xs ≡ false)
    → (s < 3 → ends_with_fsync_part 3 xs ≡ false)
    → (r : ℕ) → s < r
    → r < 4
    → ends_with_fsync_part r xs ≡ false
none_longer s xs one two three zero h l = absurd (omega arith)
none_longer s xs one two three (suc zero) h l = one h
none_longer s xs one two three (suc (suc zero)) h l = two h
none_longer s xs one two three (suc (suc (suc zero))) h l = three h
none_longer s xs one two three (suc (suc (suc (suc r)))) h l = absurd (omega arith)

-- An end that the block is cut at, computed as a uint32
cut_end :
    (s : ℕ) (xs : List ℕ)
    → length xs < 2 ^ 32
    → s < 4
    → ends_with_fsync_part s xs ≡ true
    → (s < 1 → ends_with_fsync_part 1 xs ≡ false)
    → (s < 2 → ends_with_fsync_part 2 xs ≡ false)
    → (s < 3 → ends_with_fsync_part 3 xs ≡ false)
    → IsLongest xs ((length xs - s) % 2 ^ 32)
cut_end s xs short small e one two three =
    let same : (length xs - s) % 2 ^ 32 ≡ length xs - s = omega arith in
    rw same (longest_end s xs small e (none_longer s xs one two three))

no_end : (xs : List ℕ) → ends_with_fsync_part 0 xs ≡ true
no_end xs = drop-ends 0 xs (omega arith) (drop_past xs (length xs - 0) (omega arith))

before_fsync_part-IsLongest :
    (xs : List ℕ) → length xs < 2 ^ 32 → IsLongest xs (before_fsync_part xs)
unfolding before_fsync_part
before_fsync_part-IsLongest xs short = elim (Bool-cases (ends_with_fsync_part 3 xs)) [
  | inl e3 ↦ rw e3 (
      cut_end 3 xs short (omega arith) e3 (λ l. absurd (omega (arith, l)))
        (λ l. absurd (omega (arith, l))) (λ l. absurd (omega (arith, l))))
  | inr e3 ↦ rw e3 (elim (Bool-cases (ends_with_fsync_part 2 xs)) [
    | inl e2 ↦ rw e2 (
        cut_end 2 xs short (omega arith) e2 (λ l. absurd (omega (arith, l)))
          (λ l. absurd (omega (arith, l))) (λ l. e3))
    | inr e2 ↦ rw e2 (elim (Bool-cases (ends_with_fsync_part 1 xs)) [
      | inl e1 ↦
          rw e1 (
            cut_end 1 xs short (omega arith) e1 (λ l. absurd (omega (arith, l))) (λ l. e2)
              (λ l. e3))
      | inr e1 ↦
          let all : length xs - 0 ≡ length xs = omega arith in
          let r = cut_end 0 xs short (omega arith) (no_end xs) (λ l. e1) (λ l. e2) (λ l. e3) in
          rw e1 (subst (λ (n : ℕ). IsLongest xs (n % 2 ^ 32)) all r)
    ])
  ])
]

unsynced :
    (d : Demuxer)
    → d.frame_synced ≡ false
    → d.use_force_sync ≡ false
    → d.opts.has_fsyncs ≡ true
    → index_of_fsync d.in_block ≡ none
    → let (d', synced) = check_for_sync d in
      (synced ≡ false)
      × (d'.log ≡ d.log)
      × (d'.frame_synced ≡ false)
      × (d'.in_block ≡ drop (before_fsync_part d.in_block) d.in_block)
unfolding check_for_sync find_first_fsync skip_unsynced advance_input
unsynced d a b c h = ground (arith, a, b, c, h)

-- What Write leaves when it has not found the first frame; the bytes from `n` on are kept.
pub record Waits (d : Demuxer) (w : Written) (n : ℕ) : Type 0 where
  pub no_error : w.2 ≡ none
  pub same_log : w.0.log ≡ d.log
  pub not_synced : w.0.frame_synced ≡ false
  pub kept : w.0.pending ≡ drop n d.in_block
  pub cut : IsLongest d.in_block n

-- While the first frame is not found and there is no forced place for it, Write of a block in which
-- the pattern FF FF FF 7F stands nowhere returns without an error, sends nothing to any sink and
-- stays without a frame. For the next block it keeps exactly the longest end of its input that may
-- go on as the pattern: no byte, FF, FF FF or FF FF FF. The input, with what was kept before, is
-- shorter than 2^32 bytes.
pub write_block-Waits :
    (answer : List Call → Option Error) (index : ℕ) (block : List ℕ) (d : Demuxer)
    → d.frame_synced ≡ false
    → d.use_force_sync ≡ false
    → d.opts.has_fsyncs ≡ true
    → length d.in_block < 2 ^ 32
    → ((j : ℕ) → take 4 (drop j d.in_block) ≢ sync_bytes)
    → (w : Written) × (n : ℕ) × (write_block answer index block d ≡ some w) × Waits d w n
unfolding write_block finish_write
write_block-Waits answer index block d a b c short nowhere =
    let (e, log, waits, kept) = unsynced d a b c (index_of_fsync-none d.in_block nowhere) in
    let longest = before_fsync_part-IsLongest d.in_block short in
    let d' = (check_for_sync d).0 in
    rw e (
      finish_write index block (d', none),
      before_fsync_part d.in_block,
      refl,
      record { no_error = refl; same_log = log; not_synced = waits; kept = kept; cut = longest },
    )

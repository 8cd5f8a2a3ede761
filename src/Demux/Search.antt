-- ===== src/Demux/Search.antt =====
-- demux_frame_data.go: the search for the first frame synchronisation pattern.
use coresight.Prelude.{
  ℕ, zero, suc, ◌+◌, ◌%◌, ◌^◌, ◌<◌, ◌≡◌, ◌≢◌, refl, ap, arith, List, [], ◌∷◌, Bool, true, false,
  none, some, Bool-cases, inl, inr, take, drop, length, length-take, length-drop, lt→ltb,
}
use coresight.Demux.State.{Demuxer}
use coresight.Demux.Sync.{
  index_of_fsync, starts_with_fsync, find_first_fsync, check_for_sync, skip_unsynced, equal_bytes,
  advance_input,
}

-- The bytes of the pattern in the trace: 0x7fffffff, least significant byte first
abbrev pub sync_bytes : List ℕ
sync_bytes = 0xff ∷ 0xff ∷ 0xff ∷ 0x7f ∷ []

-- The pattern stands at a place.
abbrev pub StandsAt : List ℕ → ℕ → Type 0
StandsAt xs i = take 4 (drop i xs) ≡ sync_bytes

pub equal_bytes-same : (xs ys : List ℕ) → equal_bytes xs ys ≡ true → xs ≡ ys
equal_bytes-same [] [] h = refl
equal_bytes-same [] (y ∷ ys) h = cc
equal_bytes-same (x ∷ xs) [] h = cc
equal_bytes-same (x ∷ xs) (y ∷ ys) h = elim (Bool-cases (equal_bytes xs ys)) [
  | inl e ↦ let rest = equal_bytes-same xs ys e in let head : x ≡ y = ground (arith, e) in cc
  | inr e ↦ ground (arith, e)
]

pub equal_bytes_refl : (xs : List ℕ) → equal_bytes xs xs ≡ true
equal_bytes_refl [] = refl
equal_bytes_refl (x ∷ xs) = ground (arith, equal_bytes_refl xs)

starts : (xs : List ℕ) → StandsAt xs 0 → starts_with_fsync xs ≡ true
starts xs h = rw h refl

starts_not : (xs : List ℕ) → (StandsAt xs 0 → ⊥) → starts_with_fsync xs ≡ false
starts_not xs h = elim (Bool-cases (starts_with_fsync xs)) [
  | inl e ↦ absurd (h (equal_bytes-same (take 4 xs) sync_bytes e))
  | inr e ↦ e
]

index_of_fsync-some :
    (xs : List ℕ) (i : ℕ)
    → StandsAt xs i
    → ((j : ℕ) → j < i → take 4 (drop j xs) ≢ sync_bytes)
    → index_of_fsync xs ≡ some i
unfolding index_of_fsync
index_of_fsync-some [] zero h before = cc
index_of_fsync-some [] (suc i) h before = cc
index_of_fsync-some (x ∷ xs) zero h before = rw (starts (x ∷ xs) h) refl
index_of_fsync-some (x ∷ xs) (suc i) h before =
    let later = index_of_fsync-some xs i h (λ j l. before (suc j) (omega (arith, l))) in
    rw (starts_not (x ∷ xs) (before 0 (omega arith)), later) refl

pub index_of_fsync-none :
    (xs : List ℕ) → ((j : ℕ) → take 4 (drop j xs) ≢ sync_bytes) → index_of_fsync xs ≡ none
unfolding index_of_fsync
index_of_fsync-none [] nowhere = refl
index_of_fsync-none (x ∷ xs) nowhere =
    let later = index_of_fsync-none xs (λ j. nowhere (suc j)) in
    rw (starts_not (x ∷ xs) (nowhere 0), later) refl

-- A place where the pattern stands lies inside the block.
inside : (xs : List ℕ) (i : ℕ) → StandsAt xs i → i < length xs
inside xs i h =
    let n : length (take 4 (drop i xs)) ≡ 4 = ap length h in
    omega (arith, n, length-take 4 (drop i xs), length-drop i xs)

check_for_sync-some :
    (d : Demuxer) (i : ℕ)
    → d.frame_synced ≡ false
    → d.use_force_sync ≡ false
    → d.opts.has_fsyncs ≡ true
    → index_of_fsync d.in_block ≡ some i
    → i < 2 ^ 32
    → check_for_sync d ≡ skip_unsynced (record d { frame_synced = true }, i)
unfolding check_for_sync find_first_fsync
check_for_sync-some d i a b c h small = ground (arith, a, b, c, h)

-- What is left of a demultiplexer that drops a front part of its input
record Skipped (d : Demuxer) (i : ℕ) (o : Demuxer × Bool) : Type 0 where
  answer : o.1 ≡ d.frame_synced
  state : o.0.frame_synced ≡ d.frame_synced
  input : o.0.in_block ≡ drop i d.in_block
  at : o.0.trc_curr_idx ≡ (d.trc_curr_idx + i) % 2 ^ 64
  same_log : o.0.log ≡ d.log

skip_unsynced-Skipped :
    (d : Demuxer) (i : ℕ) → d.trc_curr_idx < 2 ^ 64 → Skipped d i (skip_unsynced (d, i))
unfolding skip_unsynced advance_input
skip_unsynced-Skipped d zero h = record {
  answer = refl;
  state = refl;
  input = refl;
  at = omega arith;
  same_log = refl;
}
skip_unsynced-Skipped d (suc i) h =
    rw (lt→ltb 0 (suc i) (omega arith))
      (record { answer = refl; state = refl; input = refl; at = refl; same_log = refl })

-- While the first frame is not found and there is no forced place for it, the search for the pattern
-- FF FF FF 7F drops the bytes before the first place in the block where the pattern stands, and no
-- others: the input goes on with the pattern, the index of the trace moves on by as many bytes, and
-- nothing is sent to any sink. The block is shorter than 2^32 bytes, the index a uint64.
pub check_for_sync-StandsAt :
    (d : Demuxer) (i : ℕ)
    → d.frame_synced ≡ false
    → d.use_force_sync ≡ false
    → d.opts.has_fsyncs ≡ true
    → d.trc_curr_idx < 2 ^ 64
    → length d.in_block < 2 ^ 32
    → take 4 (drop i d.in_block) ≡ sync_bytes
    → ((j : ℕ) → j < i → take 4 (drop j d.in_block) ≢ sync_bytes)
    → let (d', synced) = check_for_sync d in
      (synced ≡ true)
      × (d'.frame_synced ≡ true)
      × (d'.in_block ≡ drop i d.in_block)
      × (d'.trc_curr_idx ≡ (d.trc_curr_idx + i) % 2 ^ 64)
      × (d'.log ≡ d.log)
check_for_sync-StandsAt d i a b c at short h before =
    let found = index_of_fsync-some d.in_block i h before in
    let e = check_for_sync-some d i a b c found (omega (arith, inside d.in_block i h)) in
    let r = skip_unsynced-Skipped (record d { frame_synced = true }) i at in
    rw e (r.answer, r.state, r.input, r.at, r.same_log)

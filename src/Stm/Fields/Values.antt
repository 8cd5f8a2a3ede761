-- ===== src/Stm/Fields/Values.antt =====
-- The loops of extractVal8 to extractVal64: what they gather, and from which nibbles.
use coresight.Prelude.{
  ℕ, zero, suc, ◌+◌, ◌≤◌, ◌<◌, ◌≡◌, ap, ◌∙◌, arith, List, [], ◌∷◌, ◌++◌, length,
}
use coresight.Stm.State.{StmParseContext}
use coresight.Stm.Nibbles.{read_nibble}
use coresight.Stm.Nibbles.Stream.{pending}
use coresight.Stm.Nibbles.Took.{read_nibble-Took, read_nibble-none, read_nibble-unchanged}
use coresight.Stm.Nibbles.Frame.{read_nibble-Frame}
use coresight.Stm.Fields.{extract}

abbrev pub fold_nibbles : (ℕ → ℕ → ℕ) → ℕ → List ℕ → ℕ
fold_nibbles f v [] = v
fold_nibbles f v (x ∷ xs) = fold_nibbles f (f v x) xs

-- What the loop leaves alone, whichever register it fills.
pub record SameOuter (c d : StmParseContext) : Type 0 where
  pub same_state : d.process_state ≡ c.process_state
  pub same_block : d.block ≡ c.block
  pub same_packet : d.curr_packet ≡ c.curr_packet
  pub same_data : d.num_data_nibbles ≡ c.num_data_nibbles
  pub same_stream : d.stream_sync ≡ c.stream_sync
  pub same_fn : d.curr_fn ≡ c.curr_fn
  pub same_needs_ts : d.needs_ts ≡ c.needs_ts
  pub same_set : d.ts_req_set ≡ c.ts_req_set
  pub same_curr : d.curr_ts_nibbles ≡ c.curr_ts_nibbles

-- The loop's outcome: `xs` gathered, `rest` still pending, `n` nibbles of the packet read.
pub record Gathered (get : StmParseContext → ℕ) (v : ℕ) (rest : List ℕ) (n : ℕ)
    (c d : StmParseContext) : Type 0 where
  pub gathered_value : get d ≡ v
  pub gathered_rest : pending d ≡ rest
  pub gathered_num : d.num_nibbles ≡ n
  pub gathered_outer : SameOuter c d

module _ (store : StmParseContext → StmParseContext) (get : StmParseContext → ℕ) (f : ℕ → ℕ → ℕ)
    (kept : (c : StmParseContext) → get (read_nibble c).0 ≡ get c)
    (stored : (c : StmParseContext) → get (store c) ≡ f (get c) c.nibble)
    (silent : (c : StmParseContext)
      → (pending (store c) ≡ pending c)
        × ((store c).num_nibbles ≡ c.num_nibbles)
        × SameOuter c (store c)) where
  pub extract-Gathered :
      (nibbles rounds : ℕ) (xs rest : List ℕ) (c : StmParseContext)
      → pending c ≡ xs ++ rest
      → c.num_nibbles + length xs ≡ nibbles
      → nibbles < 256
      → length xs ≤ rounds
      → Gathered get (fold_nibbles f (get c) xs) rest nibbles c (extract store nibbles rounds c)
  unfolding extract
  extract-Gathered nibbles zero [] rest c hp hn hb hr = ground arith
  extract-Gathered nibbles (suc rounds) [] rest c hp hn hb hr = ground arith
  extract-Gathered nibbles zero (x ∷ xs) rest c hp hn hb hr = absurd (omega arith)
  extract-Gathered nibbles (suc rounds) (x ∷ xs) rest c hp hn hb hr =
      let r = (read_nibble c).0 in
      let t = read_nibble-Took c x (xs ++ rest) hp in
      let quiet = silent r in
      let value : get (store r) ≡ f (get c) x = ground (arith, stored r, kept c) in
      let ih =
        extract-Gathered nibbles rounds xs rest (store r) (quiet.0 ∙ t.took_pending) (omega arith)
          hb (omega arith) in
      ground (arith, ap (λ v. fold_nibbles f v xs) value, read_nibble-Frame c)

  -- Too few nibbles: the loop takes them all and stops in the middle of the value.
  pub extract-short :
      (nibbles rounds : ℕ) (xs : List ℕ) (c : StmParseContext)
      → pending c ≡ xs
      → c.num_nibbles + length xs < nibbles
      → nibbles < 256
      → length xs < rounds
      → Gathered get
          (fold_nibbles f (get c) xs)
          []
          (c.num_nibbles + length xs)
          c
          (extract store nibbles rounds c)
  unfolding extract
  extract-short nibbles zero xs c hp hn hb hr = absurd (omega arith)
  extract-short nibbles (suc rounds) [] c hp hn hb hr =
      ground (arith, read_nibble-none c hp, read_nibble-unchanged c)
  extract-short nibbles (suc rounds) (x ∷ xs) c hp hn hb hr =
      let r = (read_nibble c).0 in
      let t = read_nibble-Took c x xs hp in
      let quiet = silent r in
      let value : get (store r) ≡ f (get c) x = ground (arith, stored r, kept c) in
      let ih =
        extract-short nibbles rounds xs (store r) (quiet.0 ∙ t.took_pending) (omega arith) hb
          (omega arith) in
      ground (arith, ap (λ v. fold_nibbles f v xs) value, read_nibble-Frame c)

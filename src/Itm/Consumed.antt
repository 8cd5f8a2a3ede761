-- ===== src/Itm/Consumed.antt =====
-- itm_parser.go: what the functions that read a packet consume of the block.
use coresight.ByteReader.Content.{append_scratch-block}
use coresight.ByteReader.Steps.{passed}
use Prim.Native.Nat.{zero}
use coresight.Itm.Reads.{read_next_byte, data_loop, cont_loop, async_loop}
use coresight.ByteReader.{remaining, read_byte, ByteReader}
use coresight.Prelude.{
  ℕ, ◌≡◌, ◌≤◌, ◌<◌, false, none, suc, arith, ◌⊎◌, ◌≢◌, Option-cases, get_elem?, inl, get_elem?-none,
  inr,
}
use coresight.Itm.State.{ItmParseContext}
use coresight.ByteReader.{read_byte as read_reader}

-- The bytes of the block that are left
abbrev pub left : ItmParseContext → ℕ
left c = remaining c.stream.reader

abbrev pub Same : ItmParseContext → ItmParseContext → Type 0
Same c c' =
    (c'.process_state ≡ c.process_state)
    × (c'.stream_sync ≡ c.stream_sync)
    × (c'.sync_start ≡ c.sync_start)

-- A context after reads: nothing else changed, and a byte was read if there was one.
abbrev pub Read : ItmParseContext → ItmParseContext → Type 0
Read c c' = Same c c' × (left c' ≤ left c) × (0 < left c → left c' < left c)

module _ (growth : ℕ → ℕ) where
  reader-left :
      (r : ByteReader)
      → let x = read_reader growth r in
        ((x.1 ≡ none) × (remaining x.0 ≡ 0) × (remaining r ≡ 0))
        ⊎ ((x.1 ≢ none) × (suc (remaining x.0) ≡ remaining r))
  unfolding read_reader remaining
  reader-left r = elim (Option-cases (get_elem? r.block r.off)) [
    | inl e ↦ ground (arith, e, get_elem?-none r.block r.off e)
    | inr (b, e) ↦
        let r' : ByteReader = record r { off = suc r.off } in
        ground (arith, e, passed r.block r.off b e, append_scratch-block growth b r')
  ]

  pub read_next_byte-Read :
      (c : ItmParseContext)
      → let x = read_next_byte growth c in Read c x.0 × (x.1 ≡ none → left c ≡ 0)
  unfolding read_next_byte read_byte
  read_next_byte-Read c = ground (arith, reader-left c.stream.reader)

  pub async_loop-Read :
      (rounds : ℕ) (c : ItmParseContext) → Read c (async_loop growth (suc rounds) c).0
  unfolding async_loop
  async_loop-Read zero c = ground (arith, read_next_byte-Read c)
  async_loop-Read (suc rounds) c =
      ground (arith, read_next_byte-Read c, async_loop-Read rounds (read_next_byte growth c).0)

  pub data_loop-Read :
      (rounds : ℕ) (c : ItmParseContext)
      → let x = data_loop growth rounds c in
        Same c x.0
        × (left x.0 ≤ left c)
        × (x.1 ≡ false → 0 < rounds → 0 < left c → left x.0 < left c)
  unfolding data_loop
  data_loop-Read zero c = ground arith
  data_loop-Read (suc rounds) c =
      ground (arith, read_next_byte-Read c, data_loop-Read rounds (read_next_byte growth c).0)

  pub cont_loop-Read :
      (rounds limit : ℕ) (c : ItmParseContext)
      → let x = cont_loop growth rounds limit c in
        Same c x.0 × (left x.0 ≤ left c) × (x.1 ≡ false → 0 < left c → left x.0 < left c)
  unfolding cont_loop
  cont_loop-Read zero limit c = ground arith
  cont_loop-Read (suc rounds) limit c =
      ground (arith, read_next_byte-Read c, cont_loop-Read rounds limit (read_next_byte growth c).0)

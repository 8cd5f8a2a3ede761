-- ===== src/Itm/Reads.antt =====
-- itm_parser.go: reading the bytes of a packet.
use coresight.Prelude.{
  ℕ, zero, suc, ◌+◌, ◌-◌, ◌^◌, Bool, true, false, not, ◌&&◌, List, [], ◌∷◌, Option, none, some,
  length, get_or, drop, ltb, leb, ◌==◌, bit_and, bit_or, shl, if◌then◌else◌,
}
use coresight.Errors.{Error, bad_packet_seq}
use coresight.ByteReader.{scratch_bytes, reset as reset_reader, remaining}
use coresight.ByteStream.{read_byte}
use coresight.Itm.Packet.{clear, update_err_type, bad_sequence}
use coresight.Itm.State.{ItmParseContext, proc_err}

abbrev pub Outcome : Type 0
Outcome = ItmParseContext × Option Error

abbrev pub scratch_of : ItmParseContext → List ℕ
scratch_of c = scratch_bytes c.stream.reader

-- the last byte of a packet
abbrev pub last_of : List ℕ → ℕ
last_of bs = get_or bs (length bs - 1) 0

unfoldable pub reset_packet_state : ItmParseContext → ItmParseContext
unfolding clear
reset_packet_state c = record c {
  curr_packet = clear c.curr_packet;
  stream = record (c.stream) { reader = reset_reader c.stream.reader };
  bytes_expected = 0;
}

-- throwMalformedPacketErr: the context and the error that it leaves
unfoldable pub malformed : ItmParseContext → ItmParseContext
unfolding update_err_type
malformed c = record c {
  process_state = proc_err;
  curr_packet = update_err_type bad_sequence c.curr_packet;
  proc_err_reason = some bad_packet_seq;
}

unfoldable pub throw_malformed_packet_err : ItmParseContext → Outcome
unfolding malformed
throw_malformed_packet_err c = (malformed c, some bad_packet_seq)

-- What a loop over the bytes ended with: the block's end, success or an error.
pub data Found : Type 0 where
  found_end found found_error : Found

module _ (growth : ℕ → ℕ) where
  unfoldable pub read_next_byte : ItmParseContext → ItmParseContext × Option ℕ
  unfolding read_byte
  read_next_byte c = let (s, b) = read_byte growth c.stream in (record c { stream = s }, b)

  -- readAsyncSeq: five bytes of zeros at least, then 0x80. Each round reads a byte, so the rounds are
  -- those of the bytes left and one more.
  unfoldable pub async_loop : ℕ → ItmParseContext → ItmParseContext × Found
  unfolding read_next_byte
  async_loop zero c = (c, found_end)
  async_loop (suc rounds) c =
      let early = ltb (length (scratch_of c)) 5 in
      let (c', byte) = read_next_byte c in
      elim byte [
        | none ↦ (c', found_end)
        | some b ↦
            let more = async_loop rounds c' in
            if b == 0
            then more
            else if not early && b == 0x80
            then (c', found)
            else (c', found_error)
      ]

  unfoldable pub read_async_seq : ItmParseContext → ItmParseContext × Found
  unfolding async_loop
  read_async_seq c = async_loop (suc (remaining c.stream.reader)) c

  -- The loop of pktData: whether the bytes are there
  unfoldable pub data_loop : ℕ → ItmParseContext → ItmParseContext × Bool
  unfolding read_next_byte
  data_loop zero c = (c, leb c.bytes_expected (length (scratch_of c) - 1))
  data_loop (suc rounds) c =
      let (c', byte) = read_next_byte c in
      let more = data_loop rounds c' in
      if leb c.bytes_expected (length (scratch_of c) - 1)
      then (c, true)
      else elim byte [ none ↦ (c', false) | some b ↦ more ]

  -- readContBytes: the bytes up to one without the continuation bit, `limit` with the header
  unfoldable pub cont_loop : ℕ → ℕ → ItmParseContext → ItmParseContext × Bool
  unfolding read_next_byte
  cont_loop zero limit c = (c, true)
  cont_loop (suc rounds) limit c =
      let (c', byte) = read_next_byte c in
      let more = cont_loop rounds limit c' in
      if leb limit (length (scratch_of c)) then (c, true) else elim byte [
        | none ↦ (c', false)
        | some b ↦ if bit_and b 0x80 == 0 then (c', true) else more
      ]

  unfoldable pub read_cont_bytes : ℕ → ItmParseContext → ItmParseContext × Bool
  unfolding cont_loop
  read_cont_bytes limit c =
      let bs = scratch_of c in
      if ltb 1 (length bs) && bit_and (last_of bs) 0x80 == 0
      then (c, true)
      else cont_loop limit limit c

-- The loop of extractContField32 and extractContField64, over the bytes behind the header: none when
-- the value exceeds the width.
unfoldable pub cont_field : (width shift val : ℕ) → List ℕ → Option ℕ
cont_field width shift val [] = some val
cont_field width shift val (b ∷ bs) =
    let part = bit_and b 0x7f in
    let more = cont_field width (shift + 7) (bit_or val (shl part shift)) bs in
    if leb width shift
    then none
    else if ltb (width - 7) shift && ltb (2 ^ (width - shift) - 1) part
    then none
    else more

-- extractContField32 and extractContField64: the value, or the error that they return
unfoldable pub extract_cont_field : ℕ → ItmParseContext → Option ℕ
unfolding cont_field
extract_cont_field width c =
    let bs = scratch_of c in if leb (length bs) 1 then some 0 else cont_field width 0 0 (drop 1 bs)

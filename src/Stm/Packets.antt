-- ===== src/Stm/Packets.antt =====
-- stm_parser_packets.go: the methods of the packet types, and the tables op1, op2 and op3 of
-- stm_parser.go that choose one by a header nibble. A method that calls another sets `currFn` first.
pub mod Payload
pub mod Split
mod Examples
use coresight.Prelude.{
  ℕ, ◌+◌, ◌*◌, Bool, true, false, not, ◌&&◌, Option, none, some, List, [], ◌∷◌, get_or, bit_and,
  bit_or, shl, u16, ltb, ◌==◌, ◌/=◌, if◌then◌else◌,
}
use coresight.Stm.Packet.{
  StmPacket, StmPktType, async, version, freq, null, trig, gerr, merr, m8, c8, c16, flag, d4, d8,
  d16, d32, d64, ts_nat_binary, ts_grey, set_type, set_master, set_channel, on_version_pkt,
}
use coresight.Stm.Nibbles.{read_nibble, clear_sync_count}
use coresight.Stm.Fields.{
  Outcome, on_packet, set_payload, send_packet, set_fn, throw_bad_sequence, throw_reserved_hdr,
  pkt_needs_ts, extract_val8, extract_val16, extract_val32, extract_val64, stm_extract_ts, finish,
}
use coresight.Stm.State.{
  StmParseContext, PktFn, fn_reserved, fn_null, fn_m8, fn_merr, fn_c8, fn_d4, fn_d8, fn_d16, fn_d32,
  fn_d64, fn_d4_mts, fn_d8_mts, fn_d16_mts, fn_d32_mts, fn_d64_mts, fn_flag_ts, fn_fext, fn_f0_ext,
  fn_gerr, fn_c16, fn_d4_ts, fn_d8_ts, fn_d16_ts, fn_d32_ts, fn_d64_ts, fn_d4_m, fn_d8_m, fn_d16_m,
  fn_d32_m, fn_d64_m, fn_flag, fn_async, fn_reserved_fn, fn_version, fn_null_ts, fn_trigger,
  fn_trigger_ts, fn_freq, fn_reserved_f0n, fn_extract_ts,
}

-- The method is at its start when the header of `header` nibbles is all that was read.
unfoldable pub starting :
    ℕ → (StmParseContext → StmParseContext) → StmParseContext → StmParseContext
starting header start c = if c.num_nibbles == header then start c else c

unfoldable pub stm_pkt_reserved : StmParseContext → Outcome
unfolding set_payload throw_reserved_hdr
stm_pkt_reserved c = throw_reserved_hdr (set_payload c.nibble c)

unfoldable pub stm_pkt_null : StmParseContext → Outcome
unfolding on_packet set_type
stm_pkt_null c = finish (on_packet (set_type null false) c)

unfoldable pub stm_pkt_null_ts : StmParseContext → Outcome
unfolding pkt_needs_ts set_fn
stm_pkt_null_ts c = stm_pkt_null (set_fn fn_null (pkt_needs_ts c))

unfoldable pub stm_pkt_m8 : StmParseContext → Outcome
unfolding on_packet set_type starting set_master send_packet
stm_pkt_m8 c =
    let c' = extract_val8 3 (starting 1 (on_packet (set_type m8 false)) c) in
    if c'.num_nibbles == 3
    then (send_packet (on_packet (set_master c'.val8) c'), none)
    else (c', none)

unfoldable pub stm_pkt_merr : StmParseContext → Outcome
unfolding on_packet set_type starting set_channel set_payload send_packet
stm_pkt_merr c =
    let c' = extract_val8 3 (starting 1 (on_packet (set_type merr false)) c) in
    if c'.num_nibbles == 3
    then (send_packet (set_payload c'.val8 (on_packet (set_channel 0 false) c')), none)
    else (c', none)

unfoldable pub stm_pkt_c8 : StmParseContext → Outcome
unfolding on_packet set_type starting set_channel send_packet
stm_pkt_c8 c =
    let c' = extract_val8 3 (starting 1 (on_packet (set_type c8 false)) c) in
    if c'.num_nibbles == 3
    then (send_packet (on_packet (set_channel c'.val8 true) c'), none)
    else (c', none)

-- `if numNibbles == 1 { SetType(t, isMarker); numDataNibbles = n }`
unfoldable pub start_data : StmPktType → ℕ → StmParseContext → StmParseContext
unfolding on_packet set_type starting
start_data t n c =
    starting 1 (λ s. record (on_packet (set_type t s.is_marker) s) { num_data_nibbles = n }) c

unfoldable pub stm_pkt_d4 : StmParseContext → Outcome
unfolding start_data set_payload
stm_pkt_d4 c =
    let s = start_data d4 2 c in
    let (c', done) = read_nibble s in
    if s.num_nibbles /= s.num_data_nibbles
    then (if done then finish (set_payload (bit_and c'.nibble 0xf) c') else (c', none))
    else (s, none)

-- `if numNibbles == numDataNibbles { Payload = val; ... }`
unfoldable pub end_data : ℕ → StmParseContext → Outcome
unfolding set_payload
end_data v c = if c.num_nibbles == c.num_data_nibbles then finish (set_payload v c) else (c, none)

unfoldable pub stm_pkt_d8 : StmParseContext → Outcome
unfolding start_data end_data
stm_pkt_d8 c =
    let s = start_data d8 3 c in let c' = extract_val8 s.num_data_nibbles s in end_data c'.val8 c'

unfoldable pub stm_pkt_d16 : StmParseContext → Outcome
unfolding start_data end_data
stm_pkt_d16 c =
    let s = start_data d16 5 c in
    let c' = extract_val16 s.num_data_nibbles s in end_data c'.val16 c'

unfoldable pub stm_pkt_d32 : StmParseContext → Outcome
unfolding start_data end_data
stm_pkt_d32 c =
    let s = start_data d32 9 c in
    let c' = extract_val32 s.num_data_nibbles s in end_data c'.val32 c'

unfoldable pub stm_pkt_d64 : StmParseContext → Outcome
unfolding start_data end_data
stm_pkt_d64 c =
    let s = start_data d64 17 c in
    let c' = extract_val64 s.num_data_nibbles s in end_data c'.val64 c'

-- `pktNeedsTS(); isMarker = true; currFn = f`
unfoldable pub marked_ts : PktFn → StmParseContext → StmParseContext
unfolding pkt_needs_ts set_fn
marked_ts f c = set_fn f (record (pkt_needs_ts c) { is_marker = true })

unfoldable pub stm_pkt_d4_mts : StmParseContext → Outcome
unfolding marked_ts
stm_pkt_d4_mts c = stm_pkt_d4 (marked_ts fn_d4 c)

unfoldable pub stm_pkt_d8_mts : StmParseContext → Outcome
unfolding marked_ts
stm_pkt_d8_mts c = stm_pkt_d8 (marked_ts fn_d8 c)

unfoldable pub stm_pkt_d16_mts : StmParseContext → Outcome
unfolding marked_ts
stm_pkt_d16_mts c = stm_pkt_d16 (marked_ts fn_d16 c)

unfoldable pub stm_pkt_d32_mts : StmParseContext → Outcome
unfolding marked_ts
stm_pkt_d32_mts c = stm_pkt_d32 (marked_ts fn_d32 c)

unfoldable pub stm_pkt_d64_mts : StmParseContext → Outcome
unfolding marked_ts
stm_pkt_d64_mts c = stm_pkt_d64 (marked_ts fn_d64 c)

unfoldable pub stm_pkt_flag_ts : StmParseContext → Outcome
unfolding pkt_needs_ts on_packet set_type set_fn
stm_pkt_flag_ts c =
    stm_extract_ts (set_fn fn_extract_ts (on_packet (set_type flag false) (pkt_needs_ts c)))

-- ===== src/Stm/Extended.antt =====
-- stm_parser_packets.go: the packets whose header begins with an F nibble, of two or three nibbles.
use coresight.Prelude.{
  length, ℕ, zero, suc, ◌+◌, ◌*◌, Bool, true, false, not, none, bit_or, shl, u16, ◌==◌,
  if◌then◌else◌,
}
use coresight.Stm.Packets.{stm_pkt_d4, stm_pkt_d8, stm_pkt_d16, stm_pkt_d32, stm_pkt_d64, starting}
use coresight.Stm.Packet.{
  StmPktType, async, version, freq, trig, gerr, c16, flag, d4, d8, d16, d32, d64, ts_nat_binary,
  ts_grey, set_type, set_master, set_channel, on_version_pkt,
}
use coresight.Stm.Nibbles.{read_nibble, clear_sync_count}
use coresight.Stm.Fields.{
  Outcome, on_packet, set_payload, send_packet, set_fn, throw_bad_sequence, throw_reserved_hdr,
  pkt_needs_ts, extract_val8, extract_val16, extract_val32, finish,
}
use coresight.Stm.State.{StmParseContext, PktFn, fn_d4, fn_d8, fn_d16, fn_d32, fn_d64, fn_trigger}

unfoldable pub stm_pkt_reserved_fn : StmParseContext → Outcome
unfolding set_payload throw_reserved_hdr
stm_pkt_reserved_fn c = throw_reserved_hdr (set_payload (bit_or 0x00f (u16 (shl c.nibble 4))) c)

unfoldable pub stm_pkt_reserved_f0n : StmParseContext → Outcome
unfolding set_payload throw_reserved_hdr
stm_pkt_reserved_f0n c = throw_reserved_hdr (set_payload (bit_or 0x00f (u16 (shl c.nibble 8))) c)

unfoldable pub stm_pkt_gerr : StmParseContext → Outcome
unfolding on_packet set_type starting set_payload set_master send_packet
stm_pkt_gerr c =
    let c' = extract_val8 4 (starting 2 (on_packet (set_type gerr false)) c) in
    if c'.num_nibbles == 4
    then (send_packet (on_packet (set_master 0) (set_payload c'.val8 c')), none)
    else (c', none)

unfoldable pub stm_pkt_c16 : StmParseContext → Outcome
unfolding on_packet set_type starting set_channel send_packet
stm_pkt_c16 c =
    let c' = extract_val16 6 (starting 2 (on_packet (set_type c16 false)) c) in
    if c'.num_nibbles == 6
    then (send_packet (on_packet (set_channel c'.val16 false) c'), none)
    else (c', none)

-- `currPacket.SetType(t, marker); numDataNibbles = n; currFn = f`
unfoldable pub typed : StmPktType → Bool → ℕ → PktFn → StmParseContext → StmParseContext
unfolding on_packet set_type set_fn
typed t marker n f c = set_fn f (record (on_packet (set_type t marker) c) { num_data_nibbles = n })

unfoldable pub stm_pkt_d4_ts : StmParseContext → Outcome
unfolding typed pkt_needs_ts
stm_pkt_d4_ts c = stm_pkt_d4 (typed d4 false 3 fn_d4 (pkt_needs_ts c))

unfoldable pub stm_pkt_d8_ts : StmParseContext → Outcome
unfolding typed pkt_needs_ts
stm_pkt_d8_ts c = stm_pkt_d8 (typed d8 false 4 fn_d8 (pkt_needs_ts c))

unfoldable pub stm_pkt_d16_ts : StmParseContext → Outcome
unfolding typed pkt_needs_ts
stm_pkt_d16_ts c = stm_pkt_d16 (typed d16 false 6 fn_d16 (pkt_needs_ts c))

unfoldable pub stm_pkt_d32_ts : StmParseContext → Outcome
unfolding typed pkt_needs_ts
stm_pkt_d32_ts c = stm_pkt_d32 (typed d32 false 10 fn_d32 (pkt_needs_ts c))

unfoldable pub stm_pkt_d64_ts : StmParseContext → Outcome
unfolding typed pkt_needs_ts
stm_pkt_d64_ts c = stm_pkt_d64 (typed d64 false 18 fn_d64 (pkt_needs_ts c))

unfoldable pub stm_pkt_d4_m : StmParseContext → Outcome
unfolding typed
stm_pkt_d4_m c = stm_pkt_d4 (typed d4 true 3 fn_d4 c)

unfoldable pub stm_pkt_d8_m : StmParseContext → Outcome
unfolding typed
stm_pkt_d8_m c = stm_pkt_d8 (typed d8 true 4 fn_d8 c)

unfoldable pub stm_pkt_d16_m : StmParseContext → Outcome
unfolding typed
stm_pkt_d16_m c = stm_pkt_d16 (typed d16 true 6 fn_d16 c)

unfoldable pub stm_pkt_d32_m : StmParseContext → Outcome
unfolding typed
stm_pkt_d32_m c = stm_pkt_d32 (typed d32 true 10 fn_d32 c)

unfoldable pub stm_pkt_d64_m : StmParseContext → Outcome
unfolding typed
stm_pkt_d64_m c = stm_pkt_d64 (typed d64 true 18 fn_d64 c)

unfoldable pub stm_pkt_flag : StmParseContext → Outcome
unfolding on_packet set_type send_packet
stm_pkt_flag c = (send_packet (on_packet (set_type flag false) c), none)

unfoldable pub stm_pkt_version : StmParseContext → Outcome
unfolding on_packet set_type starting set_payload on_version_pkt send_packet throw_bad_sequence
stm_pkt_version c =
    let s = starting 3 (on_packet (set_type version false)) c in
    let (r, done) = read_nibble s in
    let c' = set_payload r.nibble r in
    if not done
    then (r, none)
    else if r.nibble == 3
    then (send_packet (on_packet (on_version_pkt ts_nat_binary) c'), none)
    else if r.nibble == 4
    then (send_packet (on_packet (on_version_pkt ts_grey) c'), none)
    else throw_bad_sequence c'

unfoldable pub stm_pkt_trigger : StmParseContext → Outcome
unfolding on_packet set_type starting set_payload
stm_pkt_trigger c =
    let c' = extract_val8 5 (starting 3 (on_packet (set_type trig false)) c) in
    if c'.num_nibbles == 5 then finish (set_payload c'.val8 c') else (c', none)

unfoldable pub stm_pkt_trigger_ts : StmParseContext → Outcome
unfolding pkt_needs_ts set_fn
stm_pkt_trigger_ts c = stm_pkt_trigger (set_fn fn_trigger (pkt_needs_ts c))

unfoldable pub stm_pkt_freq : StmParseContext → Outcome
unfolding on_packet set_type starting set_payload send_packet
stm_pkt_freq c =
    let c' =
      extract_val32 11
        (starting 3 (λ s. record (on_packet (set_type freq false) s) { val32 = 0 }) c) in
    if c'.num_nibbles == 11 then (send_packet (set_payload c'.val32 c'), none) else (c', none)

-- `for readNibble() { ... }` of stmPktASync, with the rounds that are left. A round takes a nibble.
unfoldable pub async_loop : ℕ → StmParseContext → Outcome
unfolding on_packet set_type clear_sync_count send_packet throw_bad_sequence
async_loop zero c = (c, none)
async_loop (suc rounds) c =
    let (c', done) = read_nibble c in
    let rest = async_loop rounds c' in
    let synced = on_packet (set_type async false) (record c' { stream_sync = true }) in
    if not done
    then (c', none)
    else if c'.is_sync
    then (send_packet (clear_sync_count synced), none)
    else if not c'.sync_start
    then throw_bad_sequence c'
    else rest

-- Two nibbles for each byte of the block and one held back bound the rounds.
unfoldable pub stm_pkt_async : StmParseContext → Outcome
stm_pkt_async c = async_loop (2 * length c.block + 2) c

-- ===== src/Stm/Fields.antt =====
-- stm_parser.go: how a packet method ends, and the loops that gather a value from nibbles. A method
-- returns the context that it leaves, and its error if it has one.
pub mod Values
pub mod Registers
use coresight.Prelude.{
  ℕ, zero, suc, ◌+◌, ◌*◌, ◌-◌, ◌^◌, Bool, true, false, not, ◌&&◌, Option, none, some, bit_and,
  bit_or, shl, not64, u8, u16, u32, u64, ltb, ◌==◌, ◌/=◌, if◌then◌else◌,
}
use coresight.Errors.{Error, bad_packet_seq, invalid_pckt_hdr}
use coresight.Stm.Packet.{
  StmPacket, StmPktType, TsType, ts_unknown, ts_nat_binary, ts_grey, bad_sequence, reserved,
  set_type, update_err_type, set_timestamp, bit_mask,
}
use coresight.Stm.State.{StmParseContext, PktFn, fn_extract_ts, send_pkt}
use coresight.Stm.Nibbles.{read_nibble}
use coresight.Stm.Gray.{bin_to_gray, gray_to_bin}

abbrev pub Outcome : Type 0
Outcome = StmParseContext × Option Error

unfoldable pub on_packet : (StmPacket → StmPacket) → StmParseContext → StmParseContext
on_packet f c = record c { curr_packet = f c.curr_packet }

unfoldable pub set_payload : ℕ → StmParseContext → StmParseContext
set_payload v c = record c { curr_packet = record (c.curr_packet) { payload = v } }

unfoldable pub send_packet : StmParseContext → StmParseContext
send_packet c = record c { process_state = send_pkt }

unfoldable pub set_fn : PktFn → StmParseContext → StmParseContext
set_fn f c = record c { curr_fn = some f }

unfoldable pub throw_bad_sequence : StmParseContext → Outcome
unfolding on_packet update_err_type
throw_bad_sequence c = (on_packet (update_err_type bad_sequence) c, some bad_packet_seq)

unfoldable pub throw_reserved_hdr : StmParseContext → Outcome
unfolding on_packet set_type
throw_reserved_hdr c = (on_packet (set_type reserved false) c, some invalid_pckt_hdr)

unfoldable pub pkt_needs_ts : StmParseContext → StmParseContext
pkt_needs_ts c = record c {
  needs_ts = true;
  req_ts_nibbles = 0;
  curr_ts_nibbles = 0;
  ts_update_value = 0;
  ts_req_set = false;
}

-- `for numNibbles < nibbles && readNibble() { store }`, with the rounds that are left. A round adds 1
-- to `numNibbles`, so `nibbles` rounds are enough.
unfoldable pub extract :
    (StmParseContext → StmParseContext) → ℕ → ℕ → StmParseContext → StmParseContext
extract store nibbles zero c = c
extract store nibbles (suc rounds) c =
    let (c', done) = read_nibble c in
    let rest = extract store nibbles rounds (store c') in
    if ltb c.num_nibbles nibbles then (if done then rest else c') else c

abbrev pub store8 : StmParseContext → StmParseContext
store8 c = record c { val8 = bit_or (u8 (shl c.val8 4)) c.nibble }

abbrev pub store16 : StmParseContext → StmParseContext
store16 c = record c { val16 = bit_or (u16 (shl c.val16 4)) c.nibble }

abbrev pub store32 : StmParseContext → StmParseContext
store32 c = record c { val32 = bit_or (u32 (shl c.val32 4)) c.nibble }

abbrev pub store64 : StmParseContext → StmParseContext
store64 c = record c { val64 = bit_or (u64 (shl c.val64 4)) c.nibble }

unfoldable pub extract_val8 : ℕ → StmParseContext → StmParseContext
extract_val8 nibbles c = extract store8 nibbles nibbles c

unfoldable pub extract_val16 : ℕ → StmParseContext → StmParseContext
extract_val16 nibbles c = extract store16 nibbles nibbles c

unfoldable pub extract_val32 : ℕ → StmParseContext → StmParseContext
extract_val32 nibbles c = extract store32 nibbles nibbles c

unfoldable pub extract_val64 : ℕ → StmParseContext → StmParseContext
extract_val64 nibbles c = extract store64 nibbles nibbles c

-- The length that the first nibble of a timestamp asks for; F is refused.
unfoldable pub ts_nibbles : ℕ → Option ℕ
ts_nibbles n =
    if n == 0xd then some 14 else if n == 0xe then some 16 else if n == 0xf then none else some n

-- The second loop of stmExtractTS, with the rounds that are left.
unfoldable pub ts_loop : ℕ → StmParseContext → StmParseContext
ts_loop zero c = c
ts_loop (suc rounds) c =
    let (c', done) = read_nibble c in
    let c'' = record c' {
      ts_update_value = bit_or (u64 (shl c'.ts_update_value 4)) c'.nibble;
      curr_ts_nibbles = u8 (c'.curr_ts_nibbles + 1);
    } in
    let rest = ts_loop rounds c'' in
    if ltb c.curr_ts_nibbles c.req_ts_nibbles then (if done then rest else c') else c

-- The new timestamp of a Gray coded update, before `setTimestamp`.
unfoldable pub grey_timestamp : ℕ → ℕ → ℕ → ℕ
grey_timestamp old update new_bits =
    let gray = bin_to_gray old in
    let mask = bit_mask new_bits in
    gray_to_bin
      (if new_bits == 64 then update else bit_or (bit_and gray (not64 mask)) (bit_and update mask))

unfoldable pub apply_ts : TsType → ℕ → StmParseContext → Outcome
unfolding set_timestamp on_packet send_packet throw_bad_sequence
apply_ts ts_grey bits c =
    let c' =
      on_packet (set_timestamp (grey_timestamp c.curr_packet.timestamp c.ts_update_value bits) bits)
        c in
    (send_packet (on_packet (λ p. record p { ts_update = c.ts_update_value }) c'), none)
apply_ts ts_nat_binary bits c =
    let c' = on_packet (set_timestamp c.ts_update_value bits) c in
    (send_packet (on_packet (λ p. record p { ts_update = c.ts_update_value }) c'), none)
apply_ts ts_unknown bits c = throw_bad_sequence c

-- stmExtractTS from its second loop on.
unfoldable pub ts_digits : StmParseContext → Outcome
ts_digits c =
    let c' = ts_loop c.req_ts_nibbles c in
    if c'.curr_ts_nibbles /= c'.req_ts_nibbles
    then (c', none)
    else apply_ts c'.curr_packet.ts_type (u8 (c'.req_ts_nibbles * 4)) c'

-- The first nibble of a timestamp, just read.
unfoldable pub ts_size : Option ℕ → StmParseContext → Outcome
unfolding throw_bad_sequence
ts_size none c = throw_bad_sequence (record c { req_ts_nibbles = c.nibble })
ts_size (some n) c = ts_digits (record c { req_ts_nibbles = u8 n; ts_req_set = true })

unfoldable pub stm_extract_ts : StmParseContext → Outcome
unfolding ts_nibbles ts_size
stm_extract_ts c =
    let (c', done) = read_nibble c in
    if c.ts_req_set
    then ts_digits c
    else if done
    then ts_size (ts_nibbles c'.nibble) c'
    else (c', none)

-- The end that most packet methods share: the timestamp, if the packet has one, or the packet is
-- complete.
unfoldable pub finish : StmParseContext → Outcome
unfolding set_fn send_packet
finish c = if c.needs_ts then stm_extract_ts (set_fn fn_extract_ts c) else (send_packet c, none)

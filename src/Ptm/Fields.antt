-- ===== src/Ptm/Fields.antt =====
-- ptm_parser.go: what the methods do with one byte of a packet, and with all of them.
use Prim.Native.Nat.{zero}
use coresight.Idec.Info.{Isa, isa_unknown, isa_thumb2, isa_jazelle, isa_tee, isa_arm}
use coresight.Prelude.{
  ℕ, false, if◌then◌else◌, some, List, none, bit_and, Bool, true, ◌==◌, length, bit_or, ◌+◌, suc,
  get_or, shr, ◌||◌, ◌-◌, shl, leb, not, ◌/=◌, ◌&&◌, ltb,
}
use coresight.Errors.{bad_packet_seq}
use coresight.Ptm.Extract.{
  Outcome, scratch_of, with_packet, malformed_packet_err, send, extract_cycle_count,
  extract_ctxt_id, extract_ts, extract_address,
}
use coresight.Ptm.Packet.{
  PtmConfig, update_isa, update_address, update_context_id, update_timestamp,
}
use coresight.Ptm.State.{PtmParseContext}

-- The beginning of a waypoint update
abbrev pub no_address : PtmParseContext → PtmParseContext
no_address c = record c {
  got_addr_bytes = false;
  num_addr_bytes = 0;
  got_excep_bytes = false;
  num_excep_bytes = 0;
  addr_packet_isa = isa_unknown;
}

-- The instruction set that the fifth byte of an address names
unfoldable pub isa_of_byte : ℕ → Isa
isa_of_byte b =
    if bit_and b 0x30 == 0x20
    then isa_jazelle
    else if bit_and b 0x30 == 0x10
    then isa_thumb2
    else isa_arm

abbrev is_unknown : Isa → Bool
is_unknown isa_unknown = true
is_unknown _ = false

-- The other of the two Thumb instruction sets when the exception's byte says so
unfoldable pub alt_isa : ℕ → Isa → Isa
alt_isa zero isa_tee = isa_thumb2
alt_isa (suc zero) isa_thumb2 = isa_tee
alt_isa _ i = i

-- The instruction set of an address is the one before if the packet does not name one.
unfoldable pub settle_isa : PtmParseContext → PtmParseContext
unfolding update_isa alt_isa
settle_isa c =
    let i = if is_unknown c.addr_packet_isa then c.curr_packet.curr_isa else c.addr_packet_isa in
    let j = if c.got_excep_bytes then alt_isa c.excep_alt_isa i else i in
    with_packet (update_isa j) (record c { addr_packet_isa = j })

-- The address from a place on, or the error
unfoldable pub take_address : ℕ → PtmParseContext → Outcome
unfolding malformed_packet_err
take_address offset c = elim (extract_address offset c) [
  | none ↦ malformed_packet_err c
  | some (v, bits) ↦ (with_packet (update_address v bits) c, none)
]

-- The cycle count from a place on, or the error
unfoldable pub take_cycle_count : ℕ → PtmParseContext → Outcome
take_cycle_count offset c =
    let (d, count) = extract_cycle_count offset c in
    elim count [
      | none ↦ (d, some bad_packet_seq)
      | some v ↦ (with_packet (λ p. record p { cycle_count = v; cc_valid = true }) d, none)
    ]

-- The context id from a place on, or the error
unfoldable pub take_ctxt_id : ℕ → PtmParseContext → Outcome
take_ctxt_id idx c = if c.num_ctxt_id_bytes == 0 then (c, none) else elim (extract_ctxt_id idx c) [
  | none ↦ malformed_packet_err c
  | some v ↦ (with_packet (update_context_id v) c, none)
]

-- if err != nil { return err }
abbrev pub and_then : Outcome → (PtmParseContext → Outcome) → Outcome
and_then (c, none) f = f c
and_then (c, some e) f = (c, some e)

-- The byte of an I-sync packet with the reason and the state, and the bytes behind it
unfoldable pub isync_info : PtmConfig → ℕ → PtmParseContext → PtmParseContext
isync_info cfg b c =
    let reason = bit_and (shr b 5) 0x3 in
    let thumb = bit_and (get_or (scratch_of c) 1 0) 0x1 /= 0 in
    let isa =
      if thumb then if bit_and (shr b 2) 0x1 /= 0 then isa_tee else isa_thumb2 else isa_arm in
    let need = reason /= 0 && cfg.ena_cycle_acc in
    let p = c.curr_packet in
    record c {
      curr_packet = update_isa isa (record p {
        isync_reason = reason;
        context = record (p.context) {
          curr_ns = bit_and b 0x08 /= 0;
          curr_alt_isa = bit_and b 0x04 /= 0;
          curr_hyp = bit_and b 0x02 /= 0;
          updated = true;
        };
      });
      need_cycle_count = need;
      got_cycle_count = false;
      got_cc_bytes = 0;
      num_packet_bytes_req = if need then suc c.num_packet_bytes_req else c.num_packet_bytes_req;
    }

unfoldable pub isync_tail : ℕ → ℕ → PtmParseContext → PtmParseContext
isync_tail idx b c =
    let got = if idx == 6 then bit_and b 0x40 == 0 else bit_and b 0x80 == 0 || idx == 10 in
    if c.need_cycle_count && not c.got_cycle_count
    then record c {
      got_cycle_count = got;
      got_cc_bytes = suc c.got_cc_bytes;
      num_packet_bytes_req = if not got then suc c.num_packet_bytes_req else c.num_packet_bytes_req;
    }
    else if ltb c.got_ctxt_id_bytes c.num_ctxt_id_bytes
    then record c { got_ctxt_id_bytes = suc c.got_ctxt_id_bytes }
    else c

unfoldable pub isync_byte : PtmConfig → ℕ → PtmParseContext → PtmParseContext
unfolding isync_info isync_tail
isync_byte cfg b c =
    let idx = length (scratch_of c) - 1 in
    if idx == 5 then isync_info cfg b c else if ltb 5 idx then isync_tail idx b c else c

unfoldable pub isync_address : List ℕ → ℕ
isync_address s =
    bit_or
      (bit_or (bit_or (bit_and (get_or s 1 0) 0xfe) (shl (get_or s 2 0) 8)) (shl (get_or s 3 0) 16))
      (shl (get_or s 4 0) 24)

-- A packet whose bytes are there: the address, the cycle count and the context id
unfoldable pub isync_finish : PtmParseContext → Outcome
unfolding isync_address
isync_finish c =
    let at = with_packet (update_address (isync_address (scratch_of c)) 32) c in
    and_then (if c.need_cycle_count then take_cycle_count 6 at else (at, none))
      (λ d. and_then (take_ctxt_id (if d.need_cycle_count then 6 + d.got_cc_bytes else 6) d) send)

-- A byte of a waypoint update, and whether it is the last
unfoldable pub wpoint_byte : ℕ → PtmParseContext → PtmParseContext × Bool
unfolding isa_of_byte
wpoint_byte b c =
    let idx = length (scratch_of c) - 1 in
    let excep = c.got_excep_bytes || bit_and b 0x40 == 0 in
    let counted = record c { num_addr_bytes = suc c.num_addr_bytes } in
    if not c.got_addr_bytes
    then if leb idx 4
      then if bit_and b 0x80 == 0
        then (record counted { got_addr_bytes = true; got_excep_bytes = true }, true)
        else (counted, false)
      else (
        record counted {
          got_excep_bytes = excep;
          got_addr_bytes = true;
          addr_packet_isa = isa_of_byte b;
        },
        excep,
      )
    else if not c.got_excep_bytes
    then (
      record c {
        excep_alt_isa = if bit_and b 0x40 == 0x40 then 1 else 0;
        got_excep_bytes = true;
        num_excep_bytes = suc c.num_excep_bytes;
      },
      true,
    )
    else (c, false)

unfoldable pub wpoint_finish : PtmParseContext → Outcome
wpoint_finish c = and_then (take_address 1 (settle_isa c)) send

-- A byte of a timestamp packet, and whether it is the last
unfoldable pub ts_byte : ℕ → PtmParseContext → PtmParseContext × Bool
ts_byte b c =
    let last = bit_and b 0x80 == 0 || length (scratch_of c) == c.ts_byte_max in
    let cont = if c.got_cc_bytes == 0 then 0x40 else 0x80 in
    let got = suc c.got_cc_bytes in
    if not c.got_ts_bytes
    then if last then (record c { got_ts_bytes = true }, not c.need_cycle_count) else (c, false)
    else (record c { got_cc_bytes = got }, bit_and b cont == 0 || got == 5)

unfoldable pub ts_finish : PtmConfig → PtmParseContext → Outcome
ts_finish cfg c = elim (extract_ts cfg c) [
  | none ↦ malformed_packet_err c
  | some f ↦
      and_then (if c.need_cycle_count then take_cycle_count f.end_idx c else (c, none))
        (λ d. send (with_packet (update_timestamp f.ts_val f.update_bits) d))
]

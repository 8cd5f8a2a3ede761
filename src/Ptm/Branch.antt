-- ===== src/Ptm/Branch.antt =====
-- ptm_parser.go: branch packets, and the choice of a packet's method.
use Prim.Native.Nat.{zero}
use coresight.Ptm.Fields.{and_then, take_cycle_count, take_address, settle_isa, isa_of_byte}
use coresight.Idec.Info.{isa_unknown}
use coresight.ByteReader.{remaining}
use coresight.Ptm.Extract.{Outcome, scratch_of, send, malformed_packet_err}
use coresight.Ptm.Methods.{
  read_next_byte, packet_async, packet_isync, packet_wpoint_update, pkt_ctxt_id, packet_vmid,
  packet_atom, packet_timestamp,
}
use coresight.Ptm.Packet.{
  PtmConfig, PtmContext, set_exception, branch_address, atom, async, isync, wpoint_update,
  context_id, vmid, timestamp,
}
use coresight.Ptm.State.{PtmParseContext}
use coresight.Prelude.{
  [], ◌∷◌, List, Bool, ℕ, get_or, if◌then◌else◌, bit_and, length, ◌==◌, ◌&&◌, not, suc, ◌+◌, false,
  ◌-◌, true, ◌||◌, shr, none, ltb, some, bit_or, shl, ◌/=◌, leb,
}

-- The exceptions of the numbers up to 15, as numbers of armV7Exception
abbrev v7_ar_exceptions : List ℕ
v7_ar_exceptions = 1 ∷ 6 ∷ 9 ∷ 10 ∷ 5 ∷ 7 ∷ 0 ∷ 0 ∷ 2 ∷ 11 ∷ 8 ∷ 12 ∷ 14 ∷ 13 ∷ 3 ∷ 4 ∷ []

-- The first byte of a branch packet, and whether it is the only one
unfoldable pub branch_start : PtmConfig → PtmParseContext → PtmParseContext × Bool
branch_start cfg c =
    let last = bit_and (get_or (scratch_of c) 0 0) 0x80 == 0 in
    if length (scratch_of c) == 1
    then (
      record c {
        got_addr_bytes = last;
        num_addr_bytes = 1;
        need_cycle_count = cfg.ena_cycle_acc;
        got_cc_bytes = 0;
        got_excep_bytes = last;
        num_excep_bytes = 0;
        addr_packet_isa = isa_unknown;
      },
      last && not cfg.ena_cycle_acc,
    )
    else (c, false)

-- An address byte behind the first
unfoldable pub branch_addr_byte : ℕ → PtmParseContext → PtmParseContext × Bool
branch_addr_byte b c =
    let idx = length (scratch_of c) - 1 in
    let excep = c.got_excep_bytes || bit_and b 0x40 == 0 in
    let counted = record c { num_addr_bytes = suc c.num_addr_bytes } in
    let done = excep && not c.need_cycle_count in
    if ltb idx 4
    then if bit_and b 0x80 == 0
      then (record counted { got_excep_bytes = excep; got_addr_bytes = true }, done)
      else (counted, false)
    else (
      record counted {
        got_excep_bytes = excep;
        got_addr_bytes = true;
        addr_packet_isa = isa_of_byte b;
      },
      done,
    )

-- A byte of the exception
unfoldable pub branch_excep_byte : ℕ → PtmParseContext → PtmParseContext × Bool
branch_excep_byte b c =
    let got = if c.num_excep_bytes == 0 then bit_and b 0x80 == 0 else true in
    (
      record c {
        got_excep_bytes = got;
        excep_alt_isa =
            if c.num_excep_bytes == 0
            then if bit_and b 0x40 == 0x40 then 1 else 0
            else c.excep_alt_isa;
        num_excep_bytes = suc c.num_excep_bytes;
      },
      got && not c.need_cycle_count,
    )

-- A byte of the cycle count
unfoldable pub branch_cycle_byte : ℕ → PtmParseContext → PtmParseContext × Bool
branch_cycle_byte b c =
    let last =
      if c.got_cc_bytes == 0
      then bit_and b 0x40 == 0
      else bit_and b 0x80 == 0 || c.got_cc_bytes == 4 in
    if last then (c, true) else (record c { got_cc_bytes = suc c.got_cc_bytes }, false)

-- Whether a byte has no place in the packet
unfoldable pub is_sequencing_error : PtmParseContext → Bool
is_sequencing_error c = c.got_addr_bytes && c.got_excep_bytes && not c.need_cycle_count

-- A byte of a branch packet; one that has no place ends the loop.
unfoldable pub branch_byte : ℕ → PtmParseContext → PtmParseContext × Bool
unfolding branch_addr_byte branch_excep_byte branch_cycle_byte
branch_byte b c =
    if not c.got_addr_bytes
    then branch_addr_byte b c
    else if not c.got_excep_bytes
    then branch_excep_byte b c
    else if c.need_cycle_count
    then branch_cycle_byte b c
    else (c, true)

-- The exception of the bytes behind the address
unfoldable pub take_exception : PtmParseContext → PtmParseContext
unfolding set_exception
take_exception c =
    let e1 = get_or (scratch_of c) c.num_addr_bytes 0 in
    let e2 = get_or (scratch_of c) (suc c.num_addr_bytes) 0 in
    let low = bit_and (shr e1 1) 0xf in
    let two = ltb 1 c.num_excep_bytes in
    let num = if two then bit_or low (shl (bit_and e2 0x1f) 4) else low in
    let p = c.curr_packet in
    let context : PtmContext = record (p.context) {
      curr_ns = bit_and e1 0x1 /= 0;
      updated = true;
      curr_hyp = if two then bit_and (shr e2 5) 0x1 /= 0 else p.context.curr_hyp;
    } in
    let excep = if leb num 0xf then get_or v7_ar_exceptions num 0 else 0 in
    if c.num_excep_bytes == 0
    then c
    else record c { curr_packet = set_exception excep num (record p { context = context }) }

unfoldable pub branch_finish : PtmParseContext → Outcome
branch_finish c = and_then (take_address 0 (settle_isa c)) (λ d.
    let e = take_exception d in
    and_then
      (if e.need_cycle_count
        then take_cycle_count (e.num_addr_bytes + e.num_excep_bytes) e
        else (e, none))
      send)

module _ (growth : ℕ → ℕ) where
  -- The bytes of a branch packet: whether the packet is complete, and whether a byte had no place
  unfoldable pub branch_loop : ℕ → PtmParseContext → PtmParseContext × Bool × Bool
  branch_loop zero c = (c, false, false)
  branch_loop (suc rounds) c =
      let (c', byte) = read_next_byte growth c in
      elim byte [
        | none ↦ (c', false, false)
        | some b ↦
            let (d, done) = branch_byte b c' in
            let more = branch_loop rounds d in
            if is_sequencing_error c'
            then (c', true, true)
            else if done
            then (d, true, false)
            else more
      ]

  unfoldable pub pkt_branch_addr : PtmConfig → PtmParseContext → Outcome
  unfolding branch_start branch_loop branch_finish
  pkt_branch_addr cfg c =
      let (start, skip) = branch_start cfg c in
      let (d, done, bad) = branch_loop (suc (remaining start.stream.reader)) start in
      if skip
      then branch_finish start
      else if bad
      then malformed_packet_err d
      else if done
      then branch_finish d
      else (d, none)

  -- ptmHandlers; a type without a method is sent as it is.
  unfoldable pub handle : PtmConfig → PtmParseContext → Outcome
  unfolding pkt_branch_addr
  handle cfg c = elim c.curr_packet.typ [
    | branch_address ↦ pkt_branch_addr cfg c
    | atom ↦ packet_atom growth cfg c
    | async ↦ packet_async growth c
    | isync ↦ packet_isync growth cfg c
    | wpoint_update ↦ packet_wpoint_update growth c
    | context_id ↦ pkt_ctxt_id growth cfg c
    | vmid ↦ packet_vmid growth c
    | timestamp ↦ packet_timestamp growth cfg c
    | _ ↦ send c
  ]

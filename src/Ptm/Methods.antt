-- ===== src/Ptm/Methods.antt =====
-- ptm_parser.go: the methods for packets other than branches. A method that runs out of bytes returns
-- without an error and is called again. A loop reads a byte in each round, so its rounds are those of
-- the bytes left and one more.
use Prim.Native.Nat.{zero}
use coresight.Ptm.Fields.{
  isync_byte, isync_finish, wpoint_byte, wpoint_finish, ts_byte, ts_finish, no_address, and_then,
  take_ctxt_id, take_cycle_count,
}
use coresight.Prelude.{
  ℕ, false, if◌then◌else◌, some, none, bit_and, Bool, true, ◌==◌, length, ◌+◌, Option, suc, get_or,
  ◌||◌, ◌-◌, leb, not, ◌/=◌, ◌&&◌, ltb,
}
use coresight.ByteReader.{remaining}
use coresight.ByteStream.{read_byte}
use coresight.Ptm.Extract.{Outcome, scratch_of, with_packet, malformed_packet_err, send}
use coresight.Ptm.Packet.{
  PtmConfig, update_vmid, set_atom_from_p_hdr, set_cycle_acc_atom_from_p_hdr,
}
use coresight.Ptm.State.{PtmParseContext}

-- findAsync: what the bytes are
pub data AsyncResult : Type 0 where
  found_async not_async async_extra0 throw0 async_incomplete : AsyncResult

abbrev pub async_pad0_limit : ℕ
async_pad0_limit = 11

abbrev async_req0 : ℕ
async_req0 = 5

module _ (growth : ℕ → ℕ) where
  unfoldable pub read_next_byte : PtmParseContext → PtmParseContext × Option ℕ
  unfolding read_byte
  read_next_byte c = let (s, b) = read_byte growth c.stream in (record c { stream = s }, b)

  -- A loop that reads a byte and stops when `take` says that it was the last: false when the bytes run out
  unfoldable pub byte_loop :
      (ℕ → PtmParseContext → PtmParseContext × Bool) → ℕ → PtmParseContext → PtmParseContext × Bool
  unfolding read_next_byte
  byte_loop take zero c = (c, false)
  byte_loop take (suc rounds) c =
      let (c', byte) = read_next_byte c in
      elim byte [
        | none ↦ (c', false)
        | some b ↦
            let (d, done) = take b c' in
            let more = byte_loop take rounds d in if done then (d, true) else more
      ]

  -- The bytes up to the last, and what is made of them; without the last the method waits.
  unfoldable pub read_packet :
      (ℕ → PtmParseContext → PtmParseContext × Bool)
      → (PtmParseContext → Outcome)
      → PtmParseContext
      → Outcome
  unfolding byte_loop
  read_packet take finish c =
      let (d, done) = byte_loop take (suc (remaining c.stream.reader)) c in
      if done then finish d else (d, none)

  -- findAsync
  unfoldable pub find_async_loop : ℕ → PtmParseContext → PtmParseContext × AsyncResult
  unfolding read_next_byte
  find_async_loop zero c = (c, async_incomplete)
  find_async_loop (suc rounds) c =
      let (c', byte) = read_next_byte c in
      let d = record c' { async0 = suc c'.async0 } in
      let more = find_async_loop rounds d in
      elim byte [
        | none ↦ (c', async_incomplete)
        | some b ↦
            if b == 0
            then if leb (async_pad0_limit + async_req0) d.async0 then (d, throw0) else more
            else if b == 0x80 && c'.async0 == 5
            then (c', found_async)
            else if b == 0x80 && ltb 5 c'.async0
            then (c', async_extra0)
            else (c', not_async)
      ]

  unfoldable pub find_async : PtmParseContext → PtmParseContext × AsyncResult
  unfolding find_async_loop
  find_async c = find_async_loop (suc (remaining c.stream.reader)) c

  unfoldable pub packet_async : PtmParseContext → Outcome
  unfolding find_async
  packet_async c =
      let start = if length (scratch_of c) == 1 then record c { async0 = 1 } else c in
      let (d, r) = find_async start in
      elim r [
        | found_async ↦ send d
        | async_extra0 ↦ send d
        | throw0 ↦ malformed_packet_err d
        | not_async ↦ malformed_packet_err d
        | async_incomplete ↦ (d, none)
      ]

  unfoldable pub packet_isync : PtmConfig → PtmParseContext → Outcome
  unfolding read_packet isync_byte isync_finish
  packet_isync cfg c =
      let start =
        if length (scratch_of c) == 1
        then record c {
          num_ctxt_id_bytes = cfg.ctxt_id_bytes;
          got_ctxt_id_bytes = 0;
          num_packet_bytes_req = 6 + cfg.ctxt_id_bytes;
        }
        else c in
      read_packet
        (λ b d. let e = isync_byte cfg b d in (e, e.num_packet_bytes_req == length (scratch_of e)))
        isync_finish start

  unfoldable pub packet_wpoint_update : PtmParseContext → Outcome
  unfolding read_packet wpoint_byte wpoint_finish
  packet_wpoint_update c =
      read_packet wpoint_byte wpoint_finish (if length (scratch_of c) == 1 then no_address c else c)

  -- The loop of pktCtxtID: the rounds are the bytes that are missing.
  unfoldable pub ctxt_id_bytes_loop : ℕ → PtmParseContext → PtmParseContext × Bool
  unfolding read_next_byte
  ctxt_id_bytes_loop zero c = (c, true)
  ctxt_id_bytes_loop (suc rounds) c =
      let (c', byte) = read_next_byte c in
      let more =
        ctxt_id_bytes_loop rounds (record c' { got_ctxt_id_bytes = suc c'.got_ctxt_id_bytes }) in
      elim byte [ none ↦ (c', false) | some b ↦ more ]

  unfoldable pub pkt_ctxt_id : PtmConfig → PtmParseContext → Outcome
  unfolding ctxt_id_bytes_loop take_ctxt_id
  pkt_ctxt_id cfg c =
      let start =
        if length (scratch_of c) == 1
        then record c { num_ctxt_id_bytes = cfg.ctxt_id_bytes; got_ctxt_id_bytes = 0 }
        else c in
      let (d, done) =
        ctxt_id_bytes_loop (start.num_ctxt_id_bytes - start.got_ctxt_id_bytes) start in
      if done then and_then (take_ctxt_id 1 d) send else (d, none)

  unfoldable pub packet_vmid : PtmParseContext → Outcome
  unfolding read_next_byte
  packet_vmid c =
      let (d, byte) = read_next_byte c in
      elim byte [ none ↦ (d, none) | some b ↦ send (with_packet (update_vmid b) d) ]

  -- An atom with a cycle count; the header's first byte is the count's.
  unfoldable pub cycle_atom : ℕ → PtmParseContext → Outcome
  cycle_atom hdr c =
      and_then (take_cycle_count 0 c)
        (λ d. send (with_packet (set_cycle_acc_atom_from_p_hdr hdr) d))

  unfoldable pub packet_atom : PtmConfig → PtmParseContext → Outcome
  unfolding read_packet cycle_atom
  packet_atom cfg c =
      let hdr = get_or (scratch_of c) 0 0 in
      if not cfg.ena_cycle_acc
      then send (with_packet (set_atom_from_p_hdr hdr) c)
      else if bit_and hdr 0x40 /= 0
      then read_packet (λ b d. (d, bit_and b 0x80 == 0 || length (scratch_of d) == 5))
          (cycle_atom hdr) c
      else cycle_atom hdr c

  unfoldable pub packet_timestamp : PtmConfig → PtmParseContext → Outcome
  unfolding read_packet ts_byte ts_finish
  packet_timestamp cfg c =
      let start =
        if length (scratch_of c) == 1
        then record c {
          got_ts_bytes = false;
          need_cycle_count = cfg.ena_cycle_acc;
          got_cc_bytes = 0;
          ts_byte_max = if cfg.ts_packet64 then 10 else 8;
        }
        else c in
      read_packet ts_byte (ts_finish cfg) start

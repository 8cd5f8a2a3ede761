-- ===== src/Ptm/Extract.antt =====
-- ptm_parser.go: the values that stand in the bytes of a packet.
use Prim.Native.Nat.{zero}
use coresight.Idec.Info.{Isa, isa_jazelle, isa_arm}
use coresight.Errors.{Error, bad_packet_seq}
use coresight.ByteReader.{scratch_bytes}
use coresight.Ptm.Packet.{PtmPacket, PtmConfig, set_err_type, bad_sequence}
use coresight.Ptm.State.{PtmParseContext, send_pkt}
use coresight.Prelude.{
  [], ◌∷◌, Option, List, some, none, ℕ, Bool, suc, bit_and, drop, bit_or, if◌then◌else◌, true, u32,
  shr, leb, ◌+◌, u64, ◌==◌, false, shl, length, ltb, ◌&&◌, ◌||◌, u8, ◌-◌, take, ◌^◌,
}

abbrev pub Outcome : Type 0
Outcome = PtmParseContext × Option Error

abbrev pub scratch_of : PtmParseContext → List ℕ
scratch_of c = scratch_bytes c.stream.reader

abbrev pub with_packet : (PtmPacket → PtmPacket) → PtmParseContext → PtmParseContext
with_packet f c = record c { curr_packet = f c.curr_packet }

-- malformedPacketErr: the context and the error that it leaves
unfoldable pub malformed_packet_err : PtmParseContext → Outcome
unfolding set_err_type
malformed_packet_err c = (with_packet (set_err_type bad_sequence) c, some bad_packet_seq)

abbrev pub send : PtmParseContext → Outcome
send c = (record c { process_state = send_pkt }, none)

-- The bytes of a cycle count behind the first, at most four: how many were used, and the count
unfoldable pub cycle_count_loop : (n shift count got : ℕ) → List ℕ → ℕ × Option ℕ
cycle_count_loop zero shift count got bs = (got, some count)
cycle_count_loop (suc n) shift count got [] = (got, none)
cycle_count_loop (suc n) shift count got (b ∷ bs) =
    let count' = bit_or count (u32 (shl (bit_and b 0x7f) shift)) in
    let more = cycle_count_loop n (shift + 7) count' (suc got) bs in
    if bit_and b 0x80 == 0 || n == 0 then (suc got, some count') else more

unfoldable pub cycle_count_of : List ℕ → ℕ × Option ℕ
unfolding cycle_count_loop
cycle_count_of [] = (0, none)
cycle_count_of (b ∷ bs) =
    let first = bit_and (shr b 2) 0xf in
    if bit_and b 0x40 == 0 then (1, some first) else cycle_count_loop 4 4 first 1 bs

-- extractCycleCount: none for a malformed packet. Without a byte gotCCBytes is not touched.
unfoldable pub extract_cycle_count : ℕ → PtmParseContext → PtmParseContext × Option ℕ
unfolding cycle_count_of malformed_packet_err
extract_cycle_count offset c =
    let (got, count) = cycle_count_of (drop offset (scratch_of c)) in
    let d = if leb (length (scratch_of c)) offset then c else record c { got_cc_bytes = got } in
    elim count [ none ↦ ((malformed_packet_err d).0, none) | some v ↦ (d, some v) ]

-- The loop of extractCtxtID
unfoldable pub ctxt_id_loop : (n shift v : ℕ) → List ℕ → Option ℕ
ctxt_id_loop zero shift v bs = some v
ctxt_id_loop (suc n) shift v [] = none
ctxt_id_loop (suc n) shift v (b ∷ bs) = ctxt_id_loop n (shift + 8) (bit_or v (u32 (shl b shift))) bs

unfoldable pub extract_ctxt_id : ℕ → PtmParseContext → Option ℕ
unfolding ctxt_id_loop
extract_ctxt_id idx c = ctxt_id_loop c.num_ctxt_id_bytes 0 0 (drop idx (scratch_of c))

-- What extractTS returns: the value, the bits that it updates and the index behind it
pub record TsField : Type 0 where
  pub ts_val : ℕ
  pub update_bits : ℕ
  pub end_idx : ℕ

-- The loop of extractTS, at the byte with index `idx`
unfoldable pub ts_loop : (b64 : Bool) (idx shift val bits : ℕ) → List ℕ → Option TsField
ts_loop b64 idx shift val bits [] = none
ts_loop b64 idx shift val bits (b ∷ bs) =
    let val' = bit_or val (u64 (shl (bit_and b 0x7f) shift)) in
    let last = if b64 then b else bit_and b 0x3f in
    let more = ts_loop b64 (suc idx) (shift + 7) val' (u8 (bits + 7)) bs in
    if leb 64 shift
    then none
    else if ltb idx (if b64 then 9 else 7)
    then if bit_and b 0x80 == 0
      then some (record { ts_val = val'; update_bits = u8 (bits + 7); end_idx = suc idx })
      else more
    else some (record {
      ts_val = bit_or val (u64 (shl last shift));
      update_bits = u8 (bits + (if b64 then 8 else 6));
      end_idx = suc idx;
    })

unfoldable pub extract_ts : PtmConfig → PtmParseContext → Option TsField
unfolding ts_loop
extract_ts cfg c = ts_loop cfg.ts_packet64 1 0 0 0 (drop 1 (scratch_of c))

-- The mask of an address byte and the number of its bits: the byte with index i of n
unfoldable pub addr_field : Isa → (n i : ℕ) → ℕ × ℕ
addr_field isa n i =
    if i == 0
    then (0x7e, 7)
    else if ltb i 4
    then if i == n - 1 then (0x3f, 6) else (0x7f, 7)
    else elim isa [ isa_jazelle ↦ (0x1f, 5) | isa_arm ↦ (0x07, 3) | _ ↦ (0x0f, 4) ]

abbrev pub is_jazelle : Isa → Bool
is_jazelle isa_jazelle = true
is_jazelle _ = false

-- The value of the byte, and its number of bits: in Jazelle the lowest byte has one bit less.
unfoldable pub addr_part : Isa → (n i b : ℕ) → ℕ × ℕ
unfolding addr_field
addr_part isa n i b =
    let (mask, bits) = addr_field isa n i in
    if i == 0 && is_jazelle isa then (shr (bit_and b mask) 1, bits - 1) else (bit_and b mask, bits)

-- The loop of extractAddress, with i bytes of n done: none for a value that exceeds 32 bits
unfoldable pub addr_loop : Isa → (n i shift val bits : ℕ) → List ℕ → Option (ℕ × ℕ)
unfolding addr_part
addr_loop isa n i shift val bits [] = some (val, bits)
addr_loop isa n i shift val bits (b ∷ bs) =
    let (part, width) = addr_part isa n i b in
    let more =
      addr_loop isa n (suc i) (if i == 0 then width else shift + 7)
        (bit_or val (u32 (shl part shift))) (u8 (bits + width)) bs in
    if leb 32 shift
    then none
    else if ltb 25 shift && ltb (2 ^ (32 - shift) - 1) part
    then none
    else more

abbrev pub is_arm : Isa → Bool
is_arm isa_arm = true
is_arm _ = false

-- The address of n bytes and the number of its bits
unfoldable pub address_of : Isa → ℕ → List ℕ → Option (ℕ × ℕ)
unfolding addr_loop
address_of isa n bs = elim (addr_loop isa n 0 0 0 0 bs) [
  | none ↦ none
  | some (v, bits) ↦ some (if is_arm isa then (u32 (shl v 1), u8 (suc bits)) else (v, bits))
]

-- extractAddress: none for a malformed packet
unfoldable pub extract_address : ℕ → PtmParseContext → Option (ℕ × ℕ)
unfolding address_of
extract_address offset c =
    let n = c.num_addr_bytes in
    if n == 0 || ltb 5 n
    then none
    else if ltb (length (scratch_of c)) (offset + n)
    then none
    else address_of c.addr_packet_isa n (take n (drop offset (scratch_of c)))

-- ===== src/Itm/Payload.antt =====
-- itm_parser.go: the header of a packet and its payload.
use coresight.Prelude.{
  ℕ, zero, suc, ◌-◌, ◌*◌, not, List, [], ◌∷◌, none, some, length, get_or, set, ltb, leb, ◌==◌, ◌/=◌,
  bit_and, bit_or, shr, shl, u8, u32, if◌then◌else◌,
}
use coresight.Errors.{invalid_pckt_hdr}
use coresight.ByteReader.{ByteReader}
use coresight.Itm.Packet.{
  ItmPacket, ItmPktType, async, overflow, swit, dwt, ts_local, ts_global1, ts_global2, extension,
  reserved, set_value, set_ext_value,
}
use coresight.Itm.State.{ItmParseContext, send_pkt, proc_data, proc_err}
use coresight.Itm.Reads.{
  Outcome, found_end, found, found_error, scratch_of, last_of, throw_malformed_packet_err,
  read_async_seq, data_loop, read_cont_bytes, extract_cont_field,
}

abbrev pub with_typ : ItmPktType → ItmParseContext → ItmParseContext
with_typ t c = record c { curr_packet = record (c.curr_packet) { typ = t } }

abbrev pub with_src : ℕ → ItmParseContext → ItmParseContext
with_src s c = record c { curr_packet = record (c.curr_packet) { src_id = s } }

unfoldable pub source_header : ℕ → ItmParseContext → ItmParseContext
source_header b c =
    let n = bit_and b 0x03 in
    let d =
      with_src (bit_and (shr b 3) 0x1f) (with_typ (if bit_and b 0x4 /= 0 then dwt else swit) c) in
    record d { bytes_expected = if n == 3 then 4 else n; process_state = proc_data }

unfoldable pub decode_header_byte : ℕ → ItmParseContext → ItmParseContext
unfolding source_header
decode_header_byte b c =
    if bit_and b 0x03 /= 0
    then source_header b c
    else if bit_and b 0x0f == 0
    then if b == 0x00
      then record (with_typ async c) { process_state = proc_data }
      else if b == 0x70
      then record (with_typ overflow c) { process_state = send_pkt }
      else record (with_typ ts_local c) { process_state = proc_data }
    else if bit_and b 0x0b == 0x08
    then record (with_typ extension c) { process_state = proc_data }
    else if bit_and b 0xdf == 0x94
    then record (with_typ (if bit_and b 0x20 == 0 then ts_global1 else ts_global2) c) {
      process_state = proc_data;
    }
    else record c {
      curr_packet = record (c.curr_packet) { typ = reserved; err_type = reserved };
      proc_err_reason = some invalid_pckt_hdr;
      process_state = proc_err;
    }

-- The packet is complete.
abbrev pub complete : ItmPacket → ItmParseContext → Outcome
complete p c = (record c { curr_packet = p; process_state = send_pkt }, none)

-- the value of n bytes in little endian, of a uint32
unfoldable pub bytes_value : ℕ → ℕ → List ℕ → ℕ
bytes_value i zero bs = 0
bytes_value i (suc n) bs =
    bit_or (u32 (shl (get_or bs (suc i) 0) (i * 8))) (bytes_value (suc i) n bs)

-- scratch[4] = b
unfoldable pub write_scratch_byte : ℕ → ℕ → ByteReader → ByteReader
write_scratch_byte i b r =
    if ltb 0 r.ext.len
    then record r { ext = record (r.ext) { backing = set r.ext.backing i b } }
    else record r { scratch = set r.scratch i b }

unfoldable pub mask_last_byte : ItmParseContext → ItmParseContext
unfolding write_scratch_byte
mask_last_byte c =
    let last = get_or (scratch_of c) 4 0 in
    let d = with_src (bit_and (shr last 5) 0x3) c in
    let r = write_scratch_byte 4 (bit_and last 0x1f) d.stream.reader in
    if length (scratch_of c) == 5 then record d { stream = record (d.stream) { reader = r } } else c

-- A payload of up to 32 bits, as the value of the packet
unfoldable pub value_of_field : ItmParseContext → Outcome
value_of_field c = elim (extract_cont_field 32 c) [
  | none ↦ throw_malformed_packet_err c
  | some v ↦ complete (set_value v (u8 (length (scratch_of c) - 1)) c.curr_packet) c
]

-- The extension's value goes above three bits of the header.
unfoldable pub extension_of_field : ItmParseContext → Outcome
extension_of_field c =
    let len = get_or (2 ∷ 9 ∷ 16 ∷ 23 ∷ 31 ∷ []) (length (scratch_of c) - 1) 0 in
    let src = if bit_and c.header_byte 0x4 /= 0 then bit_or len 0x80 else len in
    elim (extract_cont_field 32 c) [
      | none ↦ throw_malformed_packet_err c
      | some v ↦
          let val = bit_or (u32 (shl v 3)) (bit_and (shr c.header_byte 4) 0x7) in
          complete (set_value val 4 (record (c.curr_packet) { src_id = src })) c
    ]

unfoldable pub gts2_of_field : ItmParseContext → Outcome
unfolding value_of_field
gts2_of_field c =
    if leb (length (scratch_of c)) 5 then value_of_field c else elim (extract_cont_field 64 c) [
      | none ↦ throw_malformed_packet_err c
      | some v ↦ complete (set_ext_value v c.curr_packet) c
    ]

module _ (growth : ℕ → ℕ) where
  unfoldable pub pkt_async : ItmParseContext → Outcome
  pkt_async c =
      let (d, f) = read_async_seq growth c in
      elim f [
        | found_end ↦ (d, none)
        | found ↦ (record d { process_state = send_pkt }, none)
        | found_error ↦ throw_malformed_packet_err d
      ]

  unfoldable pub pkt_data : ItmParseContext → Outcome
  unfolding bytes_value
  pkt_data c =
      let (d, done) = data_loop growth (suc c.bytes_expected) c in
      let val = bytes_value 0 d.bytes_expected (scratch_of d) in
      if done then complete (set_value val (u8 d.bytes_expected) d.curr_packet) d else (d, none)

  -- The bytes of a continued payload, and what is made of them; a payload that does not end within
  -- the limit is malformed.
  unfoldable pub continued : ℕ → (ItmParseContext → Outcome) → ItmParseContext → Outcome
  continued limit finish c =
      let (d, done) = read_cont_bytes growth limit c in
      if not done
      then (d, none)
      else if bit_and (last_of (scratch_of d)) 0x80 /= 0
      then throw_malformed_packet_err d
      else finish d

  unfoldable pub pkt_local_ts : ItmParseContext → Outcome
  unfolding continued value_of_field
  pkt_local_ts c =
      if bit_and c.header_byte 0x80 == 0
      then complete
          (set_value (bit_and (shr c.header_byte 4) 0x7) 1 (record (c.curr_packet) { src_id = 0 }))
          c
      else continued 5 value_of_field (with_src (bit_and (shr c.header_byte 4) 0x3) c)

  unfoldable pub pkt_global_ts1 : ItmParseContext → Outcome
  unfolding continued value_of_field mask_last_byte
  pkt_global_ts1 c = continued 5 (λ d. value_of_field (mask_last_byte d)) c

  unfoldable pub pkt_global_ts2 : ItmParseContext → Outcome
  unfolding continued gts2_of_field
  pkt_global_ts2 c = continued 7 gts2_of_field c

  unfoldable pub pkt_extension : ItmParseContext → Outcome
  unfolding continued extension_of_field
  pkt_extension c =
      let src = if bit_and c.header_byte 0x4 /= 0 then bit_or 2 0x80 else 2 in
      if bit_and c.header_byte 0x80 == 0
      then complete
          (set_value (bit_and (shr c.header_byte 4) 0x7) 4
            (record (c.curr_packet) { src_id = src }))
          c
      else continued 5 extension_of_field c

  unfoldable pub decode_payload : ItmParseContext → Outcome
  unfolding pkt_async pkt_data pkt_local_ts pkt_extension pkt_global_ts1 pkt_global_ts2
  decode_payload c = elim c.curr_packet.typ [
    | async ↦ pkt_async c
    | swit ↦ pkt_data c
    | dwt ↦ pkt_data c
    | ts_local ↦ pkt_local_ts c
    | extension ↦ pkt_extension c
    | ts_global1 ↦ pkt_global_ts1 c
    | ts_global2 ↦ pkt_global_ts2 c
    | _ ↦ throw_malformed_packet_err c
  ]

-- ===== src/Itm/Payloads.antt =====
-- itm_parser.go: what a call of a packet's method consumes and where it leads.
use coresight.Itm.Block.{can_process_without_more_bytes}
use coresight.Itm.Consumed.{Same, left, async_loop-Read, cont_loop-Read, data_loop-Read}
use coresight.ByteReader.{remaining}
use coresight.Itm.Reads.{
  throw_malformed_packet_err, read_cont_bytes, Outcome, malformed, read_async_seq, data_loop,
}
use coresight.Prelude.{ℕ, arith, bit_and, ◌≤◌, ◌≡◌, shr, none, false, true, ◌<◌, ◌⊎◌, suc, ◌≢◌}
use coresight.Itm.Payload.{
  value_of_field, mask_last_byte, extension_of_field, gts2_of_field, write_scratch_byte, continued,
  pkt_async, pkt_data, pkt_local_ts, pkt_extension, decode_payload, with_src, pkt_global_ts1,
  pkt_global_ts2,
}
use coresight.Itm.State.{ItmParseContext, send_pkt, proc_err}

-- A call without an error completed the packet, or it waits and read a byte if there was one.
abbrev pub Advances : ItmParseContext → Outcome → Type 0
Advances c (c', err) =
    (left c' ≤ left c)
    × (err ≡ none
        → (c'.process_state ≡ send_pkt)
          ⊎ ((c'.process_state ≡ c.process_state) × (0 < left c → left c' < left c)))
    × (err ≢ none → c'.process_state ≡ proc_err)

-- What a method makes of its bytes: it completes the packet or there is an error.
abbrev Finishes : (ItmParseContext → Outcome) → ItmParseContext → Type 0
Finishes f c =
    (left (f c).0 ≡ left c)
    × ((f c).1 ≡ none → (f c).0.process_state ≡ send_pkt)
    × ((f c).1 ≢ none → (f c).0.process_state ≡ proc_err)

value_of_field-Finishes : (c : ItmParseContext) → Finishes value_of_field c
unfolding value_of_field throw_malformed_packet_err malformed
value_of_field-Finishes c = ground arith

mask_last_byte-left : (c : ItmParseContext) → left (mask_last_byte c) ≡ left c
unfolding mask_last_byte write_scratch_byte remaining
mask_last_byte-left c = ground arith

gts1-Finishes : (c : ItmParseContext) → Finishes (λ d. value_of_field (mask_last_byte d)) c
gts1-Finishes c = ground (arith, value_of_field-Finishes (mask_last_byte c), mask_last_byte-left c)

extension_of_field-Finishes : (c : ItmParseContext) → Finishes extension_of_field c
unfolding extension_of_field throw_malformed_packet_err malformed
extension_of_field-Finishes c = ground arith

gts2_of_field-Finishes : (c : ItmParseContext) → Finishes gts2_of_field c
unfolding gts2_of_field throw_malformed_packet_err malformed
gts2_of_field-Finishes c = ground (arith, value_of_field-Finishes c)

module _ (growth : ℕ → ℕ) where
  read_cont_bytes-Read :
      (limit : ℕ) (c : ItmParseContext)
      → let x = read_cont_bytes growth limit c in
        Same c x.0 × (left x.0 ≤ left c) × (x.1 ≡ false → 0 < left c → left x.0 < left c)
  unfolding read_cont_bytes
  read_cont_bytes-Read limit c = ground (arith, cont_loop-Read growth limit limit c)

  continued-Advances :
      (limit : ℕ) (f : ItmParseContext → Outcome) (c : ItmParseContext)
      → ((d : ItmParseContext) → Finishes f d)
      → Advances c (continued growth limit f c)
  unfolding continued throw_malformed_packet_err malformed
  continued-Advances limit f c h =
      ground (arith, read_cont_bytes-Read limit c, h (read_cont_bytes growth limit c).0)

  pkt_async-Advances : (c : ItmParseContext) → Advances c (pkt_async growth c)
  unfolding pkt_async throw_malformed_packet_err malformed read_async_seq
  pkt_async-Advances c = ground (arith, async_loop-Read growth (left c) c)

  pkt_data-Advances : (c : ItmParseContext) → Advances c (pkt_data growth c)
  unfolding pkt_data
  pkt_data-Advances c = ground (arith, data_loop-Read growth (suc c.bytes_expected) c)

  pkt_local_ts-Advances : (c : ItmParseContext) → Advances c (pkt_local_ts growth c)
  unfolding pkt_local_ts
  pkt_local_ts-Advances c =
      let d = with_src (bit_and (shr c.header_byte 4) 0x3) c in
      ground (arith, continued-Advances 5 value_of_field d value_of_field-Finishes)

  pkt_extension-Advances : (c : ItmParseContext) → Advances c (pkt_extension growth c)
  unfolding pkt_extension
  pkt_extension-Advances c =
      ground (arith, continued-Advances 5 extension_of_field c extension_of_field-Finishes)

  pub decode_payload-Advances : (c : ItmParseContext) → Advances c (decode_payload growth c)
  unfolding decode_payload throw_malformed_packet_err malformed pkt_global_ts1 pkt_global_ts2
  decode_payload-Advances c = ground (
    arith,
    pkt_async-Advances c,
    pkt_data-Advances c,
    pkt_local_ts-Advances c,
    pkt_extension-Advances c,
    continued-Advances 5 (λ d. value_of_field (mask_last_byte d)) c gts1-Finishes,
    continued-Advances 7 gts2_of_field c gts2_of_field-Finishes,
  )

  -- What needs no more bytes is completed or malformed.
  pub decode_payload-can_process :
      (c : ItmParseContext)
      → can_process_without_more_bytes c ≡ true
      → (decode_payload growth c).1 ≡ none
      → (decode_payload growth c).0.process_state ≡ send_pkt
  unfolding decode_payload can_process_without_more_bytes pkt_local_ts pkt_extension pkt_data
      data_loop
  decode_payload-can_process c h k = ground arith

-- ===== src/Stm/Decoder/Payloads.antt =====
-- stm_decoder.go: the element that a packet with a payload makes.
use coresight.Prelude.{
  ℕ, zero, suc, ◌+◌, ◌*◌, ◌/◌, ◌^◌, ◌<◌, ◌≤◌, ◌≡◌, refl, arith, true, false, some, List, [], ◌∷◌,
  ◌++◌, take, length, max, if◌then◌else◌, Bool-cases, inl, inr, ◌∙◌, ap,
}
use native.Mathlib.Nat.{pow-suc}
use coresight.Element.{
  Element, new_element, sw_trace, set_extended_data, set_timestamp, set_swt_info, SwtInfo,
}
use coresight.Emitter.{Event, emit_element}
use coresight.Stm.Packet.{StmPacket, StmPktType, freq, trig, gerr, merr, d4, d8, d16, d32, d64}
use coresight.Stm.Decoder.{
  StmConfig, StmDecoder, DecodeState, decode_pkts, process_packet, packet_round, decode_packet,
  decode_typ, send_payload, send_element, output_trace_element, payload_element, payload_info,
  payload_bits, le_bytes, trace_id, clear_swt_per_packet_info, with_info,
}

-- The packet types with a payload, and its width in bits
pub data HasPayload : StmPktType → ℕ → Type 0 where
  nibble_data : HasPayload d4 4
  byte_data : HasPayload d8 8
  half_data : HasPayload d16 16
  word_data : HasPayload d32 32
  double_data : HasPayload d64 64
  frequency_data : HasPayload freq 32
  trigger_data : HasPayload trig 8
  global_error_data : HasPayload gerr 8
  master_error_data : HasPayload merr 8

abbrev pub le_value : List ℕ → ℕ
le_value [] = 0
le_value (b ∷ bs) = b + 256 * le_value bs

le_value-take : (n k v : ℕ) → n ≤ k → v < 256 ^ n → le_value (take n (le_bytes k v)) ≡ v
unfolding le_bytes
le_value-take zero k v h hv = omega arith
le_value-take (suc n) zero v h hv = absurd (omega arith)
le_value-take (suc n) (suc k) v h hv =
    omega (arith, le_value-take n k (v / 256) (omega arith) (omega (arith, pow-suc 256 n)))

length-le_bytes : (n k v : ℕ) → n ≤ k → length (take n (le_bytes k v)) ≡ n
unfolding le_bytes
length-le_bytes zero k v h = refl
length-le_bytes (suc n) zero v h = absurd (omega arith)
length-le_bytes (suc n) (suc k) v h = omega (arith, length-le_bytes n k (v / 256) (omega arith))

-- The bytes of a payload have room for its digits.
record Room (t : StmPktType) (w : ℕ) : Type 0 where
  width : payload_bits t ≡ w
  bytes : max 1 (w / 8) ≡ (w + 7) / 8
  few : (w + 7) / 8 ≤ 8
  fits : 2 ^ w ≤ 256 ^ ((w + 7) / 8)

HasPayload-Room : (t : StmPktType) (w : ℕ) → HasPayload t w → Room t w
unfolding payload_bits
HasPayload-Room _ _ nibble_data = record {
  width = refl;
  bytes = refl;
  few = omega arith;
  fits = omega arith;
}
HasPayload-Room _ _ byte_data = record {
  width = refl;
  bytes = refl;
  few = omega arith;
  fits = omega arith;
}
HasPayload-Room _ _ half_data = record {
  width = refl;
  bytes = refl;
  few = omega arith;
  fits = omega arith;
}
HasPayload-Room _ _ word_data = record {
  width = refl;
  bytes = refl;
  few = omega arith;
  fits = omega arith;
}
HasPayload-Room _ _ double_data = record {
  width = refl;
  bytes = refl;
  few = omega arith;
  fits = omega arith;
}
HasPayload-Room _ _ frequency_data = record {
  width = refl;
  bytes = refl;
  few = omega arith;
  fits = omega arith;
}
HasPayload-Room _ _ trigger_data = record {
  width = refl;
  bytes = refl;
  few = omega arith;
  fits = omega arith;
}
HasPayload-Room _ _ global_error_data = record {
  width = refl;
  bytes = refl;
  few = omega arith;
  fits = omega arith;
}
HasPayload-Room _ _ master_error_data = record {
  width = refl;
  bytes = refl;
  few = omega arith;
  fits = omega arith;
}

-- An element that carries the payload of a packet, of `w` bits, in as many bytes as they need
pub record Carries (p : StmPacket) (w : ℕ) (c : StmConfig) (e : Element) : Type 0 where
  pub kind : e.elem_type ≡ sw_trace
  pub at : e.index ≡ p.index
  pub id : e.trace_id ≡ trace_id c
  pub content : le_value e.extended_data_bytes ≡ p.payload
  pub size : length e.extended_data_bytes ≡ (w + 7) / 8
  pub width : e.payload.sw_trace_info.payload_pkt_bitsize ≡ w
  pub marked : e.payload.sw_trace_info.marker_packet ≡ p.has_marker
  pub timed : e.has_ts ≡ p.has_ts

-- The element that a packet with a payload makes, from the information on the stream
abbrev sent_element : StmPacket → ℕ → SwtInfo → StmDecoder → Element
sent_element p w s d = record (new_element sw_trace) {
  elem_type = sw_trace;
  index = d.index_curr_pkt;
  trace_id = trace_id d.config;
  extended_data = true;
  extended_data_bytes = take (max 1 (w / 8)) (le_bytes 8 p.payload);
  has_ts = p.has_ts;
  timestamp_value = if p.has_ts then p.timestamp else 0;
  cpu_freq_change = false;
  payload = record ((new_element sw_trace).payload) {
    sw_trace_info = record s {
      payload_num_packets = 1;
      payload_pkt_bitsize = w;
      marker_packet = if p.has_marker then true else s.marker_packet;
      has_timestamp = if p.has_ts then true else s.has_timestamp;
    };
  };
}

send_payload-sent :
    (p : StmPacket) (d : StmDecoder)
    → d.emitter.element_sink ≡ true
    → (send_payload p d).emitter.log
      ≡ d.emitter.log ++ Event.element (sent_element p (payload_bits p.typ) d.swt_info d) ∷ []
unfolding send_payload send_element output_trace_element payload_element payload_info with_info
    set_extended_data set_timestamp set_swt_info emit_element new_element
send_payload-sent p d on = elim (Bool-cases p.has_ts) [
  | inl e ↦ elim (Bool-cases p.has_marker) [
    | inl m ↦ rw (e, m, on) refl
    | inr m ↦ rw (e, m, on) refl
  ]
  | inr e ↦ elim (Bool-cases p.has_marker) [
    | inl m ↦ rw (e, m, on) refl
    | inr m ↦ rw (e, m, on) refl
  ]
]

send_payload-curr_state :
    (p : StmPacket) (d : StmDecoder) → (send_payload p d).curr_state ≡ d.curr_state
unfolding send_payload send_element output_trace_element with_info
send_payload-curr_state p d = ground arith

sent_element-Carries :
    (p : StmPacket) (w : ℕ) (s : SwtInfo) (d : StmDecoder)
    → HasPayload p.typ w
    → p.payload < 2 ^ w
    → s.marker_packet ≡ false
    → d.index_curr_pkt ≡ p.index
    → Carries p w d.config (sent_element p (payload_bits p.typ) s d)
sent_element-Carries p w s d h hv unmarked at =
    let room = HasPayload-Room p.typ w h in
    rw (room.width, room.bytes)
      (record {
        kind = refl;
        at = at;
        id = refl;
        content = le_value-take ((w + 7) / 8) 8 p.payload room.few (omega (arith, room.fits));
        size = length-le_bytes ((w + 7) / 8) 8 p.payload room.few;
        width = refl;
        marked = ground (arith, unmarked);
        timed = refl;
      })

-- What a packet adds to the log `before`, and how it leaves the decoder
record Sent (p : StmPacket) (w : ℕ) (c : StmConfig) (before : List (Event StmPacket))
    (d' : StmDecoder) : Type 0 where
  elem' : Element
  log : d'.emitter.log ≡ before ++ Event.element elem' ∷ []
  carries : Carries p w c elem'
  same_state : d'.curr_state ≡ decode_pkts

send_payload-Sent :
    (p : StmPacket) (w : ℕ) (d : StmDecoder)
    → HasPayload p.typ w
    → p.payload < 2 ^ w
    → d.swt_info.marker_packet ≡ false
    → d.index_curr_pkt ≡ p.index
    → d.emitter.element_sink ≡ true
    → d.curr_state ≡ decode_pkts
    → Sent p w d.config d.emitter.log (send_payload p d)
send_payload-Sent p w d h hv unmarked at on s = record {
  elem' = sent_element p (payload_bits p.typ) d.swt_info d;
  log = send_payload-sent p d on;
  carries = sent_element-Carries p w d.swt_info d h hv unmarked at;
  same_state = send_payload-curr_state p d ∙ s;
}

-- A type with a payload has it sent; what the decoder notes before does not matter for it.
decode_typ-Sent :
    (t : StmPktType) (w : ℕ) (p : StmPacket) (d : StmDecoder)
    → HasPayload t w
    → HasPayload p.typ w
    → p.payload < 2 ^ w
    → d.swt_info.marker_packet ≡ false
    → d.index_curr_pkt ≡ p.index
    → d.emitter.element_sink ≡ true
    → d.curr_state ≡ decode_pkts
    → Sent p w d.config d.emitter.log (decode_typ t p d)
unfolding decode_typ with_info
decode_typ-Sent _ w p d nibble_data h hv m at on s = send_payload-Sent p _ _ h hv m at on s
decode_typ-Sent _ w p d byte_data h hv m at on s = send_payload-Sent p _ _ h hv m at on s
decode_typ-Sent _ w p d half_data h hv m at on s = send_payload-Sent p _ _ h hv m at on s
decode_typ-Sent _ w p d word_data h hv m at on s = send_payload-Sent p _ _ h hv m at on s
decode_typ-Sent _ w p d double_data h hv m at on s = send_payload-Sent p _ _ h hv m at on s
decode_typ-Sent _ w p d frequency_data h hv m at on s = send_payload-Sent p _ _ h hv m at on s
decode_typ-Sent _ w p d trigger_data h hv m at on s = send_payload-Sent p _ _ h hv m at on s
decode_typ-Sent _ w p d global_error_data h hv m at on s = send_payload-Sent p _ _ h hv m at on s
decode_typ-Sent _ w p d master_error_data h hv m at on s = send_payload-Sent p _ _ h hv m at on s

-- The decoder as decodePacket finds it
abbrev at_packet : StmPacket → StmDecoder → StmDecoder
at_packet p d = record d { curr_packet_in = some p; index_curr_pkt = p.index }

process_packet-decode_typ :
    (p : StmPacket) (d : StmDecoder)
    → d.curr_state ≡ decode_pkts
    → (process_packet (some p) d).0 ≡ decode_typ p.typ p (clear_swt_per_packet_info (at_packet p d))
unfolding process_packet packet_round decode_packet
process_packet-decode_typ p d s = ap (λ (st : DecodeState). packet_round st p (at_packet p d)) s

-- In a decoder that decodes packets, with an observer of its elements, a packet with a payload that
-- fits its width sends one element, of the type for software trace, and the decoding goes on. The
-- bytes of the element spell the payload, least significant byte first, and are as many as the
-- width needs. It has the index of the packet, the decoder's trace id, the width, and a marker and a
-- timestamp exactly when the packet has them.
pub process_packet-Carries :
    (p : StmPacket) (w : ℕ) (d : StmDecoder)
    → d.curr_state ≡ decode_pkts
    → d.emitter.element_sink ≡ true
    → HasPayload p.typ w
    → p.payload < 2 ^ w
    → let d' = (process_packet (some p) d).0 in
      (e : Element) × (d'.emitter.log ≡ d.emitter.log ++ Event.element e ∷ [])
      × Carries p w d.config e
      × (d'.curr_state ≡ decode_pkts)
unfolding clear_swt_per_packet_info
process_packet-Carries p w d s on h hv =
    let cleared = clear_swt_per_packet_info (at_packet p d) in
    let r = decode_typ-Sent p.typ w p cleared h h hv refl refl on s in
    rw (process_packet-decode_typ p d s) (r.elem', r.log, r.carries, r.same_state)

-- ===== src/Itm/Total.antt =====
-- itm_parser.go: the loop of processData ends.

use coresight.Errors.{Error}
use Prim.Native.Nat.{zero}
use coresight.Itm.Payloads.{decode_payload-Advances, decode_payload-can_process}
use coresight.ByteStream.{current_index}
use coresight.Itm.Sync.{wait_async, output_packet, note_packet, with_ctx}
use coresight.Itm.Reads.{reset_packet_state, read_next_byte, scratch_of}
use coresight.Prelude.{
  [], ◌∷◌, ℕ, ◌*◌, ◌≡◌, ◌+◌, none, false, ◌<◌, ◌≢◌, arith, true, Option-cases, inl, inr, ◌≤◌, some,
  suc, refl, Bool-cases, List, ◌∙◌, Option, length, u32,
}
use coresight.Itm.Block.{
  next_state, Stepped, state_step, read_header, has_work, recover, process_loop, process_data,
}
use coresight.Itm.Payload.{decode_header_byte, source_header}
use coresight.Itm.State.{
  ItmDecoder, ProcessState, DecodeState, wait_sync, ItmParseContext, send_pkt, proc_err, proc_hdr,
  proc_data, decode_pkts, decode_no_sync,
}
use coresight.ByteReader.{reset as reset_reader, remaining, feed as feed_reader}
use coresight.ByteStream.{feed, bytes_consumed}
use coresight.Itm.Consumed.{left, read_next_byte-Read}
use coresight.Itm.Waits.{process_packet-ctx, wait_async-Waited}

-- The rounds that may follow without a byte: data leads to a packet or an error, an error to a packet,
-- and a packet is sent once more when the decoder finds that it is not valid.
abbrev rank : ProcessState → DecodeState → ℕ
rank wait_sync s = 0
rank proc_hdr s = 0
rank send_pkt decode_pkts = 2
rank send_pkt _ = 1
rank proc_err s = 3
rank proc_data s = 4

abbrev measure : ItmDecoder → ℕ
measure d = 6 * left d.ctx + rank d.ctx.process_state d.curr_state

-- A decoder that waits for ASYNC is not synchronised.
abbrev pub IsUnsynced : ItmDecoder → Type 0
IsUnsynced d = d.ctx.process_state ≡ wait_sync → d.ctx.stream_sync ≡ false

-- What a round leaves that goes on
abbrev Descends : ItmDecoder → Stepped → Type 0
Descends d x = (x.1 ≡ none → measure x.0 < measure d) × IsUnsynced x.0

header-left :
    (b : ℕ) (c : ItmParseContext)
    → let c' = decode_header_byte b c in (left c' ≡ left c) × (c'.process_state ≢ wait_sync)
unfolding decode_header_byte source_header
header-left b c = ground arith

rank-small : (st : ProcessState) (s : DecodeState) → rank st s < 5
rank-small st s = ground arith

next_state-left :
    (c : ItmParseContext)
    → (left (next_state c) ≡ left c)
      × ((next_state c).process_state ≡ wait_sync → (next_state c).stream_sync ≡ false)
      × ((next_state c).process_state ≢ proc_data)
      × ((next_state c).process_state ≢ proc_err)
      × ((next_state c).process_state ≢ send_pkt)
unfolding next_state reset_packet_state remaining reset_reader
next_state-left c = ground arith

output_packet-ctx :
    (d : ItmDecoder)
    → let x = output_packet d in
      (left x.0.ctx ≡ left d.ctx)
      × (x.1 ≢ none → (d.curr_state ≡ decode_pkts) × (x.0.curr_state ≡ decode_no_sync))
unfolding output_packet note_packet remaining reset_reader
output_packet-ctx d =
    let n = note_packet (scratch_of d.ctx) d in
    ground (arith, process_packet-ctx n.ctx.curr_packet n)

module _ (growth : ℕ → ℕ) where
  wait-Descends :
      (d : ItmDecoder)
      → d.ctx.process_state ≡ wait_sync
      → IsUnsynced d
      → 0 < left d.ctx
      → Descends d (recover (state_step growth wait_sync d))
  unfolding state_step
  wait-Descends d e u h =
      let w = wait_async growth d in
      ground
        (arith, wait_async-Waited growth d (u e) h, rank-small w.ctx.process_state w.curr_state)

  header-Descends :
      (d : ItmDecoder)
      → d.ctx.process_state ≡ proc_hdr
      → 0 < left d.ctx
      → Descends d (recover (state_step growth proc_hdr d))
  unfolding state_step read_header
  header-Descends d e h =
      let at = record (d.ctx) { curr_packet_index = current_index d.ctx.stream } in
      let (c, byte) = read_next_byte growth at in
      elim (Option-cases byte) [
        | inl n ↦ absurd (ground (arith, n, read_next_byte-Read growth at))
        | inr (b, s) ↦
            let c' = decode_header_byte b (record c { header_byte = b }) in
            ground (
              arith,
              s,
              read_next_byte-Read growth at,
              header-left b (record c { header_byte = b }),
              rank-small c'.process_state d.curr_state,
            )
      ]

  data-Descends :
      (d : ItmDecoder)
      → d.ctx.process_state ≡ proc_data
      → has_work d.ctx ≡ true
      → Descends d (recover (state_step growth proc_data d))
  unfolding state_step has_work
  data-Descends d e h =
      ground (arith, decode_payload-Advances growth d.ctx, decode_payload-can_process growth d.ctx)

  send-Descends :
      (d : ItmDecoder)
      → d.ctx.process_state ≡ send_pkt
      → Descends d (recover (state_step growth send_pkt d))
  unfolding state_step
  send-Descends d e = ground (arith, output_packet-ctx d, next_state-left (output_packet d).0.ctx)

  error-Descends :
      (d : ItmDecoder)
      → d.ctx.process_state ≡ proc_err
      → Descends d (recover (state_step growth proc_err d))
  unfolding state_step
  error-Descends d e = ground arith

  state_step-Descends :
      (d : ItmDecoder)
      → IsUnsynced d
      → has_work d.ctx ≡ true
      → Descends d (recover (state_step growth d.ctx.process_state d))
  unfolding has_work
  state_step-Descends d u h = by_state d.ctx.process_state refl
    where
      by_state :
          (st : ProcessState)
          → d.ctx.process_state ≡ st
          → Descends d (recover (state_step growth st d))
      by_state wait_sync e = wait-Descends d e u (ground (arith, e, h))
      by_state proc_hdr e = header-Descends d e (ground (arith, e, h))
      by_state proc_data e = data-Descends d e h
      by_state send_pkt e = send-Descends d e
      by_state proc_err e = error-Descends d e

  idle : (d : ItmDecoder) → measure d ≤ 0 → has_work d.ctx ≡ false
  unfolding has_work
  idle d h = ground arith

  loop_round :
      (rounds : ℕ) (d : ItmDecoder)
      → let r = recover (state_step growth d.ctx.process_state d) in
        (has_work d.ctx ≡ false → process_loop growth (suc rounds) d ≡ some (d, none))
        × (has_work d.ctx ≡ true
            → r.1 ≡ none
            → process_loop growth (suc rounds) d ≡ process_loop growth rounds r.0)
        × (has_work d.ctx ≡ true → r.1 ≢ none → process_loop growth (suc rounds) d ≡ some r)
  unfolding process_loop
  loop_round rounds d = ground arith

  process_loop-ends :
      (rounds : ℕ) (d : ItmDecoder)
      → IsUnsynced d
      → measure d ≤ rounds
      → (x : Stepped) × (process_loop growth rounds d ≡ some x) × IsUnsynced x.0
  unfolding process_loop
  process_loop-ends zero d u h = ((d, none), rw (idle d h) refl, u)
  process_loop-ends (suc rounds) d u h =
      let round = loop_round rounds d in
      let r = recover (state_step growth d.ctx.process_state d) in
      elim (Bool-cases (has_work d.ctx)) [
        | inr e ↦ ((d, none), round.0 e, u)
        | inl e ↦
            let step = state_step-Descends d u e in
            elim (Option-cases r.1) [
              | inr (er, k) ↦ (r, round.2 e (ground (arith, k)), step.1)
              | inl k ↦
                  let rest = process_loop-ends rounds r.0 step.1 (omega (arith, h, step.0 k)) in
                  (rest.0, round.1 e k ∙ rest.1, rest.2)
            ]
      ]

  -- The blocks that Write is called with, one after the other, errors included; none when the loop of
  -- one does not end
  unfoldable pub write_all : List (ℕ × List ℕ) → ItmDecoder → Option ItmDecoder
  write_all [] d = some d
  write_all ((index, block) ∷ blocks) d = elim (process_data growth index block d) [
    | none ↦ none
    | some r ↦ write_all blocks r.0
  ]

  returned :
      (index : ℕ) (block : List ℕ) (d : ItmDecoder) (x : Stepped)
      → process_loop growth
          (6 * length block + 4)
          (with_ctx (λ c. record c { stream = feed index block c.stream }) d)
        ≡ some x
      → process_data growth index block d ≡ some (x.0, u32 (bytes_consumed x.0.ctx.stream), x.1)
  unfolding process_data
  returned index block d x h = rw (h, process_data) refl

  process_data-ends :
      (index : ℕ) (block : List ℕ) (d : ItmDecoder)
      → IsUnsynced d
      → (r : ItmDecoder × ℕ × Option Error) × (process_data growth index block d ≡ some r)
        × IsUnsynced r.0
  unfolding process_data feed feed_reader remaining
  process_data-ends index block d u =
      let fed = with_ctx (λ c. record c { stream = feed index block c.stream }) d in
      let e =
        process_loop-ends (6 * length block + 4) fed u
          (omega (arith, rank-small fed.ctx.process_state fed.curr_state)) in
      ((e.0.0, u32 (bytes_consumed e.0.0.ctx.stream), e.0.1), returned index block d e.0 e.1, e.2)

  -- processData returns on every block, and after every sequence of blocks before, errors included, from
  -- every decoder that is not synchronised when it waits for ASYNC, as after a reset.
  pub write_all-ends :
      (blocks : List (ℕ × List ℕ)) (d : ItmDecoder) → IsUnsynced d → write_all blocks d ≢ none
  unfolding write_all
  write_all-ends [] d u = ground arith
  write_all-ends ((index, block) ∷ blocks) d u =
      let e = process_data-ends index block d u in
      rw (e.1, write_all) (write_all-ends blocks e.0.0 e.2)

-- ===== src/Stm/Progress/Short.antt =====
-- How far the methods of the packets without data and the methods that fail get.
use coresight.Prelude.{
  ℕ, zero, suc, ◌+◌, ◌<◌, ◌≡◌, inl, inr, sym, arith, false, Bool-cases, some, ◌==◌, length, ◌*◌,
}
use mathlib.Core.Path.{subst}
use coresight.Stm.Packet.{StmPktType, m8, null, merr, c8, gerr, c16, freq, trig, version, set_type}
use coresight.Stm.State.{
  StmParseContext, PktFn, fn_m8, fn_merr, fn_c8, fn_gerr, fn_c16, fn_freq, fn_trigger, fn_version,
  fn_reserved, fn_reserved_fn, fn_reserved_f0n, fn_async,
}
use coresight.Stm.Nibbles.{read_nibble, clear_sync_count}
use coresight.Stm.Nibbles.Frame.{read_nibble-Frame}
use coresight.Stm.Fields.{
  set_payload, on_packet, send_packet, throw_bad_sequence, throw_reserved_hdr,
}
use coresight.Stm.Fields.Registers.{w8, w16, w32, extract_val}
use coresight.Stm.Packets.{
  starting, stm_pkt_m8, stm_pkt_merr, stm_pkt_c8, stm_pkt_null, stm_pkt_reserved,
}
use coresight.Stm.Extended.{
  stm_pkt_gerr, stm_pkt_c16, stm_pkt_freq, stm_pkt_trigger, async_loop, stm_pkt_async,
  stm_pkt_version, stm_pkt_reserved_fn, stm_pkt_reserved_f0n,
}
use coresight.Stm.Progress.{left, NoTsYet, Short, Resumable, ResumableFn, Step, InPacket}
use coresight.Stm.Progress.Loops.{extract_val-Extracted, read_nibble-left}
use coresight.Stm.Parser.Sync.{pending-nibble_bound}
use coresight.Stm.Progress.Timestamps.{finish-Step}

resumable :
    (f : PktFn) (c : StmParseContext) → c.curr_fn ≡ some f → Resumable f c → ResumableFn c.curr_fn c
resumable f c h r = subst (λ g. ResumableFn g c) (sym h) r

-- What the start of a method leaves: the packet's type, at most.
record Begun (c d : StmParseContext) : Type 0 where
  state_kept : d.process_state ≡ c.process_state
  stream_kept : d.stream_sync ≡ c.stream_sync
  fn_kept : d.curr_fn ≡ c.curr_fn
  block_kept : d.block ≡ c.block
  left_kept : left d ≡ left c
  num_kept : d.num_nibbles ≡ c.num_nibbles
  ts_kept : NoTsYet c → NoTsYet d

starting-Begun :
    (n : ℕ) (t : StmPktType) (c : StmParseContext)
    → Begun c (starting n (λ s. on_packet (set_type t false) s) c)
unfolding starting on_packet set_type
starting-Begun n t c = ground arith

pub stm_pkt_m8-Step :
    (c : StmParseContext) → InPacket c → c.curr_fn ≡ some fn_m8 → Short 3 c → Step c (stm_pkt_m8 c)
unfolding stm_pkt_m8
stm_pkt_m8-Step c h hf hs =
    let s = starting 1 (λ s. on_packet (set_type m8 false) s) c in
    let b = starting-Begun 1 m8 c in
    let d = extract_val w8 3 s in
    let x = extract_val-Extracted w8 3 s (ground (arith, b)) (omega arith) in
    elim (Bool-cases (d.num_nibbles == 3)) [
      | inl whole ↦ ground (arith, b, x)
      | inr cut ↦
          ground (arith, b, x, resumable fn_m8 d (ground (arith, b, x)) (ground (arith, b, x)))
    ]

pub stm_pkt_merr-Step :
    (c : StmParseContext)
    → InPacket c
    → c.curr_fn ≡ some fn_merr
    → Short 3 c
    → Step c (stm_pkt_merr c)
unfolding stm_pkt_merr
stm_pkt_merr-Step c h hf hs =
    let s = starting 1 (λ s. on_packet (set_type merr false) s) c in
    let b = starting-Begun 1 merr c in
    let d = extract_val w8 3 s in
    let x = extract_val-Extracted w8 3 s (ground (arith, b)) (omega arith) in
    elim (Bool-cases (d.num_nibbles == 3)) [
      | inl whole ↦ ground (arith, b, x)
      | inr cut ↦
          ground (arith, b, x, resumable fn_merr d (ground (arith, b, x)) (ground (arith, b, x)))
    ]

pub stm_pkt_c8-Step :
    (c : StmParseContext) → InPacket c → c.curr_fn ≡ some fn_c8 → Short 3 c → Step c (stm_pkt_c8 c)
unfolding stm_pkt_c8
stm_pkt_c8-Step c h hf hs =
    let s = starting 1 (λ s. on_packet (set_type c8 false) s) c in
    let b = starting-Begun 1 c8 c in
    let d = extract_val w8 3 s in
    let x = extract_val-Extracted w8 3 s (ground (arith, b)) (omega arith) in
    elim (Bool-cases (d.num_nibbles == 3)) [
      | inl whole ↦ ground (arith, b, x)
      | inr cut ↦
          ground (arith, b, x, resumable fn_c8 d (ground (arith, b, x)) (ground (arith, b, x)))
    ]

pub stm_pkt_gerr-Step :
    (c : StmParseContext)
    → InPacket c
    → c.curr_fn ≡ some fn_gerr
    → Short 4 c
    → Step c (stm_pkt_gerr c)
unfolding stm_pkt_gerr
stm_pkt_gerr-Step c h hf hs =
    let s = starting 2 (λ s. on_packet (set_type gerr false) s) c in
    let b = starting-Begun 2 gerr c in
    let d = extract_val w8 4 s in
    let x = extract_val-Extracted w8 4 s (ground (arith, b)) (omega arith) in
    elim (Bool-cases (d.num_nibbles == 4)) [
      | inl whole ↦ ground (arith, b, x)
      | inr cut ↦
          ground (arith, b, x, resumable fn_gerr d (ground (arith, b, x)) (ground (arith, b, x)))
    ]

pub stm_pkt_c16-Step :
    (c : StmParseContext)
    → InPacket c
    → c.curr_fn ≡ some fn_c16
    → Short 6 c
    → Step c (stm_pkt_c16 c)
unfolding stm_pkt_c16
stm_pkt_c16-Step c h hf hs =
    let s = starting 2 (λ s. on_packet (set_type c16 false) s) c in
    let b = starting-Begun 2 c16 c in
    let d = extract_val w16 6 s in
    let x = extract_val-Extracted w16 6 s (ground (arith, b)) (omega arith) in
    elim (Bool-cases (d.num_nibbles == 6)) [
      | inl whole ↦ ground (arith, b, x)
      | inr cut ↦
          ground (arith, b, x, resumable fn_c16 d (ground (arith, b, x)) (ground (arith, b, x)))
    ]

freq-Begun :
    (c : StmParseContext)
    → Begun c (starting 3 (λ s. record (on_packet (set_type freq false) s) { val32 = 0 }) c)
unfolding starting on_packet set_type
freq-Begun c = ground arith

pub stm_pkt_freq-Step :
    (c : StmParseContext)
    → InPacket c
    → c.curr_fn ≡ some fn_freq
    → Short 11 c
    → Step c (stm_pkt_freq c)
unfolding stm_pkt_freq
stm_pkt_freq-Step c h hf hs =
    let s = starting 3 (λ s. record (on_packet (set_type freq false) s) { val32 = 0 }) c in
    let b = freq-Begun c in
    let d = extract_val w32 11 s in
    let x = extract_val-Extracted w32 11 s (ground (arith, b)) (omega arith) in
    elim (Bool-cases (d.num_nibbles == 11)) [
      | inl whole ↦ ground (arith, b, x)
      | inr cut ↦
          ground (arith, b, x, resumable fn_freq d (ground (arith, b, x)) (ground (arith, b, x)))
    ]

pub stm_pkt_trigger-Step :
    (c : StmParseContext)
    → InPacket c
    → c.curr_fn ≡ some fn_trigger
    → Short 5 c
    → Step c (stm_pkt_trigger c)
unfolding stm_pkt_trigger
stm_pkt_trigger-Step c h hf hs =
    let s = starting 3 (λ s. on_packet (set_type trig false) s) c in
    let b = starting-Begun 3 trig c in
    let d = extract_val w8 5 s in
    let x = extract_val-Extracted w8 5 s (ground (arith, b)) (omega arith) in
    elim (Bool-cases (d.num_nibbles == 5)) [
      | inl whole ↦
          let e =
            finish-Step (set_payload d.val8 d) (unfold set_payload in ground (arith, b, x))
              (unfold set_payload in ground (arith, b, x)) in
          unfold set_payload in ground (arith, b, x, e)
      | inr cut ↦
          ground (arith, b, x, resumable fn_trigger d (ground (arith, b, x)) (ground (arith, b, x)))
    ]

pub stm_pkt_version-Step :
    (c : StmParseContext) → InPacket c → c.curr_fn ≡ some fn_version → Step c (stm_pkt_version c)
unfolding stm_pkt_version throw_bad_sequence set_payload on_packet send_packet
stm_pkt_version-Step c h hf =
    let s = starting 3 (λ s. on_packet (set_type version false) s) c in
    let b = starting-Begun 3 version c in
    let f = read_nibble-Frame s in
    let r : StmParseContext = (read_nibble s).0 in
    let bad = (throw_bad_sequence (set_payload r.nibble r)).0 in
    elim (read_nibble-left s) [
      | inl (t, n) ↦ ground (arith, b, f, resumable fn_version bad (ground (arith, b, f)) tt)
      | inr (e, z, same) ↦ ground (arith, b, f, resumable fn_version r (ground (arith, b, f)) tt)
    ]

pub stm_pkt_null-Step : (c : StmParseContext) → InPacket c → NoTsYet c → Step c (stm_pkt_null c)
unfolding stm_pkt_null on_packet set_type
stm_pkt_null-Step c h ht =
    let s = on_packet (set_type null false) c in
    let e = finish-Step s (ground arith) (ground arith) in ground (arith, e)

pub stm_pkt_reserved-Step :
    (c : StmParseContext) → InPacket c → c.curr_fn ≡ some fn_reserved → Step c (stm_pkt_reserved c)
unfolding stm_pkt_reserved throw_reserved_hdr on_packet set_payload
stm_pkt_reserved-Step c h hf = ground (arith, resumable fn_reserved (stm_pkt_reserved c).0 hf tt)

pub stm_pkt_reserved_fn-Step :
    (c : StmParseContext)
    → InPacket c
    → c.curr_fn ≡ some fn_reserved_fn
    → Step c (stm_pkt_reserved_fn c)
unfolding stm_pkt_reserved_fn throw_reserved_hdr on_packet set_payload
stm_pkt_reserved_fn-Step c h hf =
    ground (arith, resumable fn_reserved_fn (stm_pkt_reserved_fn c).0 hf tt)

pub stm_pkt_reserved_f0n-Step :
    (c : StmParseContext)
    → InPacket c
    → c.curr_fn ≡ some fn_reserved_f0n
    → Step c (stm_pkt_reserved_f0n c)
unfolding stm_pkt_reserved_f0n throw_reserved_hdr on_packet set_payload
stm_pkt_reserved_f0n-Step c h hf =
    ground (arith, resumable fn_reserved_f0n (stm_pkt_reserved_f0n c).0 hf tt)

async_loop-Step :
    (rounds : ℕ) (c : StmParseContext)
    → InPacket c
    → c.curr_fn ≡ some fn_async
    → left c < rounds
    → Step c (async_loop rounds c)
unfolding async_loop throw_bad_sequence on_packet send_packet clear_sync_count
async_loop-Step zero c h hf hr = absurd (omega arith)
async_loop-Step (suc rounds) c h hf hr =
    let f = read_nibble-Frame c in
    let r : StmParseContext = (read_nibble c).0 in
    let bad = (throw_bad_sequence r).0 in
    elim (read_nibble-left c) [
      | inl (t, n) ↦
          let rest =
            async_loop-Step rounds r (ground (arith, f)) (ground (arith, f)) (omega arith) in
          ground (arith, f, rest, resumable fn_async bad (ground (arith, f)) tt)
      | inr (e, z, same) ↦ ground (arith, f, resumable fn_async r (ground (arith, f)) tt)
    ]

pub stm_pkt_async-Step :
    (c : StmParseContext) → InPacket c → c.curr_fn ≡ some fn_async → Step c (stm_pkt_async c)
unfolding stm_pkt_async
stm_pkt_async-Step c h hf = async_loop-Step (2 * length c.block + 2) c h hf (pending-nibble_bound c)

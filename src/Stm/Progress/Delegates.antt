-- ===== src/Stm/Progress/Delegates.antt =====
-- How far the methods get that set up a timestamp or a marker and call another method.
use coresight.Prelude.{ℕ, ◌≤◌, ◌<◌, ◌≡◌, refl, ◌∙◌, arith, Bool, true, false, some}
use coresight.Stm.Packet.{StmPktType, d4, d8, d16, d32, d64, flag, set_type}
use coresight.Stm.State.{
  StmParseContext, PktFn, fn_null, fn_d4, fn_d8, fn_d16, fn_d32, fn_d64, fn_trigger, fn_extract_ts,
}
use coresight.Stm.Fields.{Outcome, set_fn, pkt_needs_ts, on_packet, send_packet}
use coresight.Stm.Fields.Registers.{w8, w16, w32, w64}
use coresight.Stm.Packets.{
  marked_ts, stm_pkt_flag_ts, stm_pkt_null_ts, stm_pkt_d4_mts, stm_pkt_d8_mts, stm_pkt_d16_mts,
  stm_pkt_d32_mts, stm_pkt_d64_mts,
}
use coresight.Stm.Extended.{
  typed, stm_pkt_flag, stm_pkt_trigger_ts, stm_pkt_d4_ts, stm_pkt_d4_m, stm_pkt_d8_ts, stm_pkt_d8_m,
  stm_pkt_d16_ts, stm_pkt_d16_m, stm_pkt_d32_ts, stm_pkt_d32_m, stm_pkt_d64_ts, stm_pkt_d64_m,
}
use coresight.Stm.Progress.{left, NoTsYet, ShortData, Step, InPacket}
use coresight.Stm.Progress.Timestamps.{stm_extract_ts-Step}
use coresight.Stm.Progress.Data.{data-Step, stm_pkt_d4-Step}
use coresight.Stm.Progress.Short.{stm_pkt_trigger-Step, stm_pkt_null-Step}

marked-Step :
    (f : PktFn) (c : StmParseContext)
    → InPacket c
    → c.num_nibbles ≡ 1
    → InPacket (marked_ts f c)
      × ((marked_ts f c).curr_fn ≡ some f)
      × ShortData (marked_ts f c)
      × (left (marked_ts f c) ≡ left c)
      × ((marked_ts f c).block ≡ c.block)
unfolding marked_ts pkt_needs_ts set_fn
marked-Step f c h hn = ground arith

typed-Step :
    (t : StmPktType) (marker : Bool) (n : ℕ) (f : PktFn) (c : StmParseContext)
    → InPacket c
    → c.num_nibbles ≡ 2
    → NoTsYet c
    → 2 < n
    → n ≤ 18
    → let d = typed t marker n f c in
      InPacket d × (d.curr_fn ≡ some f) × ShortData d × (left d ≡ left c) × (d.block ≡ c.block)
unfolding typed on_packet set_type set_fn
typed-Step t marker n f c h hn ht h2 h18 = ground arith

needs-Step :
    (c : StmParseContext)
    → InPacket c
    → let d = pkt_needs_ts c in
      InPacket d
      × (d.num_nibbles ≡ c.num_nibbles)
      × NoTsYet d
      × (left d ≡ left c)
      × (d.block ≡ c.block)
unfolding pkt_needs_ts
needs-Step c h = ground arith

-- A step from a context that differs from `c` in no input is a step from `c`.
Step-same_input :
    (c d : StmParseContext) (out : Outcome)
    → left d ≡ left c
    → d.block ≡ c.block
    → Step d out
    → Step c out
Step-same_input c d out hl hb s = ground (arith, s)

pub d4_mts-Step : (c : StmParseContext) → InPacket c → c.num_nibbles ≡ 1 → Step c (stm_pkt_d4_mts c)
unfolding stm_pkt_d4_mts
d4_mts-Step c h hn =
    let (p, g, r, l, b) = marked-Step fn_d4 c h hn in
    Step-same_input c (marked_ts fn_d4 c) _ l b (stm_pkt_d4-Step (marked_ts fn_d4 c) p g r)

pub d4_ts-Step : (c : StmParseContext) → InPacket c → c.num_nibbles ≡ 2 → Step c (stm_pkt_d4_ts c)
unfolding stm_pkt_d4_ts
d4_ts-Step c h hn =
    let (p, m, t, l, b) = needs-Step c h in
    let (p', g, r, l', b') =
      typed-Step d4 false 3 fn_d4 (pkt_needs_ts c) p (ground arith) t (omega arith) (omega arith) in
    Step-same_input c (typed d4 false 3 fn_d4 (pkt_needs_ts c)) _ (l' ∙ l) (b' ∙ b)
      (stm_pkt_d4-Step (typed d4 false 3 fn_d4 (pkt_needs_ts c)) p' g r)

pub d4_m-Step :
    (c : StmParseContext) → InPacket c → c.num_nibbles ≡ 2 → NoTsYet c → Step c (stm_pkt_d4_m c)
unfolding stm_pkt_d4_m
d4_m-Step c h hn ht =
    let (p, g, r, l, b) = typed-Step d4 true 3 fn_d4 c h hn ht (omega arith) (omega arith) in
    Step-same_input c (typed d4 true 3 fn_d4 c) _ l b
      (stm_pkt_d4-Step (typed d4 true 3 fn_d4 c) p g r)

pub d8_mts-Step : (c : StmParseContext) → InPacket c → c.num_nibbles ≡ 1 → Step c (stm_pkt_d8_mts c)
unfolding stm_pkt_d8_mts
d8_mts-Step c h hn =
    let (p, g, r, l, b) = marked-Step fn_d8 c h hn in
    Step-same_input c (marked_ts fn_d8 c) _ l b (data-Step w8 (marked_ts fn_d8 c) p g r)

pub d8_ts-Step : (c : StmParseContext) → InPacket c → c.num_nibbles ≡ 2 → Step c (stm_pkt_d8_ts c)
unfolding stm_pkt_d8_ts
d8_ts-Step c h hn =
    let (p, m, t, l, b) = needs-Step c h in
    let (p', g, r, l', b') =
      typed-Step d8 false 4 fn_d8 (pkt_needs_ts c) p (ground arith) t (omega arith) (omega arith) in
    Step-same_input c (typed d8 false 4 fn_d8 (pkt_needs_ts c)) _ (l' ∙ l) (b' ∙ b)
      (data-Step w8 (typed d8 false 4 fn_d8 (pkt_needs_ts c)) p' g r)

pub d8_m-Step :
    (c : StmParseContext) → InPacket c → c.num_nibbles ≡ 2 → NoTsYet c → Step c (stm_pkt_d8_m c)
unfolding stm_pkt_d8_m
d8_m-Step c h hn ht =
    let (p, g, r, l, b) = typed-Step d8 true 4 fn_d8 c h hn ht (omega arith) (omega arith) in
    Step-same_input c (typed d8 true 4 fn_d8 c) _ l b (data-Step w8 (typed d8 true 4 fn_d8 c) p g r)

pub d16_mts-Step :
    (c : StmParseContext) → InPacket c → c.num_nibbles ≡ 1 → Step c (stm_pkt_d16_mts c)
unfolding stm_pkt_d16_mts
d16_mts-Step c h hn =
    let (p, g, r, l, b) = marked-Step fn_d16 c h hn in
    Step-same_input c (marked_ts fn_d16 c) _ l b (data-Step w16 (marked_ts fn_d16 c) p g r)

pub d16_ts-Step : (c : StmParseContext) → InPacket c → c.num_nibbles ≡ 2 → Step c (stm_pkt_d16_ts c)
unfolding stm_pkt_d16_ts
d16_ts-Step c h hn =
    let (p, m, t, l, b) = needs-Step c h in
    let (p', g, r, l', b') =
      typed-Step d16 false 6 fn_d16 (pkt_needs_ts c) p (ground arith) t (omega arith)
        (omega arith) in
    Step-same_input c (typed d16 false 6 fn_d16 (pkt_needs_ts c)) _ (l' ∙ l) (b' ∙ b)
      (data-Step w16 (typed d16 false 6 fn_d16 (pkt_needs_ts c)) p' g r)

pub d16_m-Step :
    (c : StmParseContext) → InPacket c → c.num_nibbles ≡ 2 → NoTsYet c → Step c (stm_pkt_d16_m c)
unfolding stm_pkt_d16_m
d16_m-Step c h hn ht =
    let (p, g, r, l, b) = typed-Step d16 true 6 fn_d16 c h hn ht (omega arith) (omega arith) in
    Step-same_input c (typed d16 true 6 fn_d16 c) _ l b
      (data-Step w16 (typed d16 true 6 fn_d16 c) p g r)

pub d32_mts-Step :
    (c : StmParseContext) → InPacket c → c.num_nibbles ≡ 1 → Step c (stm_pkt_d32_mts c)
unfolding stm_pkt_d32_mts
d32_mts-Step c h hn =
    let (p, g, r, l, b) = marked-Step fn_d32 c h hn in
    Step-same_input c (marked_ts fn_d32 c) _ l b (data-Step w32 (marked_ts fn_d32 c) p g r)

pub d32_ts-Step : (c : StmParseContext) → InPacket c → c.num_nibbles ≡ 2 → Step c (stm_pkt_d32_ts c)
unfolding stm_pkt_d32_ts
d32_ts-Step c h hn =
    let (p, m, t, l, b) = needs-Step c h in
    let (p', g, r, l', b') =
      typed-Step d32 false 10 fn_d32 (pkt_needs_ts c) p (ground arith) t (omega arith)
        (omega arith) in
    Step-same_input c (typed d32 false 10 fn_d32 (pkt_needs_ts c)) _ (l' ∙ l) (b' ∙ b)
      (data-Step w32 (typed d32 false 10 fn_d32 (pkt_needs_ts c)) p' g r)

pub d32_m-Step :
    (c : StmParseContext) → InPacket c → c.num_nibbles ≡ 2 → NoTsYet c → Step c (stm_pkt_d32_m c)
unfolding stm_pkt_d32_m
d32_m-Step c h hn ht =
    let (p, g, r, l, b) = typed-Step d32 true 10 fn_d32 c h hn ht (omega arith) (omega arith) in
    Step-same_input c (typed d32 true 10 fn_d32 c) _ l b
      (data-Step w32 (typed d32 true 10 fn_d32 c) p g r)

pub d64_mts-Step :
    (c : StmParseContext) → InPacket c → c.num_nibbles ≡ 1 → Step c (stm_pkt_d64_mts c)
unfolding stm_pkt_d64_mts
d64_mts-Step c h hn =
    let (p, g, r, l, b) = marked-Step fn_d64 c h hn in
    Step-same_input c (marked_ts fn_d64 c) _ l b (data-Step w64 (marked_ts fn_d64 c) p g r)

pub d64_ts-Step : (c : StmParseContext) → InPacket c → c.num_nibbles ≡ 2 → Step c (stm_pkt_d64_ts c)
unfolding stm_pkt_d64_ts
d64_ts-Step c h hn =
    let (p, m, t, l, b) = needs-Step c h in
    let (p', g, r, l', b') =
      typed-Step d64 false 18 fn_d64 (pkt_needs_ts c) p (ground arith) t (omega arith)
        (omega arith) in
    Step-same_input c (typed d64 false 18 fn_d64 (pkt_needs_ts c)) _ (l' ∙ l) (b' ∙ b)
      (data-Step w64 (typed d64 false 18 fn_d64 (pkt_needs_ts c)) p' g r)

pub d64_m-Step :
    (c : StmParseContext) → InPacket c → c.num_nibbles ≡ 2 → NoTsYet c → Step c (stm_pkt_d64_m c)
unfolding stm_pkt_d64_m
d64_m-Step c h hn ht =
    let (p, g, r, l, b) = typed-Step d64 true 18 fn_d64 c h hn ht (omega arith) (omega arith) in
    Step-same_input c (typed d64 true 18 fn_d64 c) _ l b
      (data-Step w64 (typed d64 true 18 fn_d64 c) p g r)

pub flag_ts-Step : (c : StmParseContext) → InPacket c → Step c (stm_pkt_flag_ts c)
unfolding stm_pkt_flag_ts set_fn on_packet set_type pkt_needs_ts
flag_ts-Step c h =
    let d = set_fn fn_extract_ts (on_packet (set_type flag false) (pkt_needs_ts c)) in
    let s = stm_extract_ts-Step d (ground arith) (ground arith) in ground (arith, s)

pub flag-Step : (c : StmParseContext) → InPacket c → Step c (stm_pkt_flag c)
unfolding stm_pkt_flag send_packet on_packet set_type
flag-Step c h = ground arith

pub null_ts-Step : (c : StmParseContext) → InPacket c → Step c (stm_pkt_null_ts c)
unfolding stm_pkt_null_ts set_fn pkt_needs_ts
null_ts-Step c h =
    let s = stm_pkt_null-Step (set_fn fn_null (pkt_needs_ts c)) (ground arith) (ground arith) in
    ground (arith, s)

pub trigger_ts-Step :
    (c : StmParseContext) → InPacket c → c.num_nibbles ≡ 3 → Step c (stm_pkt_trigger_ts c)
unfolding stm_pkt_trigger_ts set_fn pkt_needs_ts
trigger_ts-Step c h hn =
    let d = set_fn fn_trigger (pkt_needs_ts c) in
    let s = stm_pkt_trigger-Step d (ground arith) refl (ground arith) in ground (arith, s)

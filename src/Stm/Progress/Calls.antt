-- ===== src/Stm/Progress/Calls.antt =====
-- How far every call of a packet method gets.
use coresight.Prelude.{
  ℕ, zero, suc, ◌+◌, ◌<◌, ◌≡◌, inl, inr, sym, arith, true, false, some, List, [], ◌∷◌, All, get_or,
}
use mathlib.Core.Path.{subst}
use coresight.Stm.State.{
  StmParseContext, PktFn, fn_reserved, fn_null, fn_m8, fn_merr, fn_c8, fn_d4, fn_d8, fn_d16, fn_d32,
  fn_d64, fn_d4_mts, fn_d8_mts, fn_d16_mts, fn_d32_mts, fn_d64_mts, fn_flag_ts, fn_fext, fn_f0_ext,
  fn_gerr, fn_c16, fn_d4_ts, fn_d8_ts, fn_d16_ts, fn_d32_ts, fn_d64_ts, fn_d4_m, fn_d8_m, fn_d16_m,
  fn_d32_m, fn_d64_m, fn_flag, fn_async, fn_reserved_fn, fn_version, fn_null_ts, fn_trigger,
  fn_trigger_ts, fn_freq, fn_reserved_f0n, fn_extract_ts,
}
use coresight.Stm.Nibbles.{read_nibble}
use coresight.Stm.Nibbles.Frame.{read_nibble-Frame, read_nibble-num}
use coresight.Stm.Fields.{set_fn}
use coresight.Stm.Dispatch.{op1, op2, op3, call_second, call_fn, stm_pkt_f0_ext, stm_pkt_fext}
use coresight.Stm.Progress.{left, Resumable, ResumableFn, Step, InPacket}
use coresight.Stm.Progress.Loops.{read_nibble-left}
use coresight.Stm.Progress.Leaves.{LeafReady, call_leaf-Step}

get_or-All :
    (P : PktFn → Type 0) (fs : List PktFn) (n : ℕ) (f : PktFn) → All P fs → P f → P (get_or fs n f)
get_or-All P [] n f h p = p
get_or-All P (g ∷ gs) zero f h p = h.0
get_or-All P (g ∷ gs) (suc n) f h p = get_or-All P gs n f h.1 p

-- A header of one nibble more was read.
record Header (n : ℕ) (c : StmParseContext) : Type 0 where
  header_num : c.num_nibbles ≡ n
  header_plain : c.needs_ts ≡ false

op3-LeafReady : (n : ℕ) (c : StmParseContext) → Header 3 c → LeafReady (op3 n) c
unfolding op3
op3-LeafReady n c h =
    get_or-All (λ f. LeafReady f c)
      (fn_version ∷ fn_null_ts ∷ fn_reserved_f0n ∷ fn_reserved_f0n ∷ fn_reserved_f0n
        ∷ fn_reserved_f0n ∷ fn_trigger ∷ fn_trigger_ts ∷ fn_freq ∷ [])
      n fn_reserved_f0n (ground arith) tt

chosen :
    (f : PktFn) (n : ℕ) (c : StmParseContext)
    → InPacket c
    → Header n c
    → InPacket (set_fn f c)
      × Header n (set_fn f c)
      × ((set_fn f c).curr_fn ≡ some f)
      × (left (set_fn f c) ≡ left c)
      × ((set_fn f c).block ≡ c.block)
unfolding set_fn
chosen f n c h e = ground arith

-- The nibble after a header of `n` nibbles.
next-Header :
    (n : ℕ) (c : StmParseContext)
    → InPacket c
    → Header n c
    → n < 3
    → (read_nibble c).1 ≡ true
    → InPacket (read_nibble c).0 × Header (n + 1) (read_nibble c).0
next-Header n c h e hn t = ground (arith, read_nibble-Frame c, read_nibble-num c t)

f0_ext-Step :
    (c : StmParseContext)
    → InPacket c
    → c.curr_fn ≡ some fn_f0_ext
    → Header 2 c
    → Step c (stm_pkt_f0_ext c)
unfolding stm_pkt_f0_ext
f0_ext-Step c h g e =
    let f = read_nibble-Frame c in
    let r : StmParseContext = (read_nibble c).0 in
    elim (read_nibble-left c) [
      | inl (t, n) ↦
          let (p, q) = next-Header 2 c h e (omega arith) t in
          let (p', q', g', l, b) = chosen (op3 r.nibble) 3 r p q in
          let s =
            call_leaf-Step (op3 r.nibble) (set_fn (op3 r.nibble) r) p' g'
              (op3-LeafReady r.nibble (set_fn (op3 r.nibble) r) q') in
          ground (arith, f, s, l, b)
      | inr (z, n, same) ↦
          let kept : r.curr_fn ≡ some fn_f0_ext = ground (arith, f) in
          let again : Resumable fn_f0_ext r = ground (arith, same) in
          ground (arith, f, subst (λ g. ResumableFn g r) (sym kept) again)
    ]

abbrev SecondReady : PktFn → StmParseContext → Type 0
SecondReady fn_f0_ext c = Header 2 c
SecondReady f c = LeafReady f c

call_second-Step :
    (f : PktFn) (c : StmParseContext)
    → InPacket c
    → c.curr_fn ≡ some f
    → SecondReady f c
    → Step c (call_second f c)
unfolding call_second
call_second-Step fn_reserved c h g r = call_leaf-Step fn_reserved c h g r
call_second-Step fn_null c h g r = call_leaf-Step fn_null c h g r
call_second-Step fn_m8 c h g r = call_leaf-Step fn_m8 c h g r
call_second-Step fn_merr c h g r = call_leaf-Step fn_merr c h g r
call_second-Step fn_c8 c h g r = call_leaf-Step fn_c8 c h g r
call_second-Step fn_d4 c h g r = call_leaf-Step fn_d4 c h g r
call_second-Step fn_d8 c h g r = call_leaf-Step fn_d8 c h g r
call_second-Step fn_d16 c h g r = call_leaf-Step fn_d16 c h g r
call_second-Step fn_d32 c h g r = call_leaf-Step fn_d32 c h g r
call_second-Step fn_d64 c h g r = call_leaf-Step fn_d64 c h g r
call_second-Step fn_d4_mts c h g r = call_leaf-Step fn_d4_mts c h g r
call_second-Step fn_d8_mts c h g r = call_leaf-Step fn_d8_mts c h g r
call_second-Step fn_d16_mts c h g r = call_leaf-Step fn_d16_mts c h g r
call_second-Step fn_d32_mts c h g r = call_leaf-Step fn_d32_mts c h g r
call_second-Step fn_d64_mts c h g r = call_leaf-Step fn_d64_mts c h g r
call_second-Step fn_flag_ts c h g r = call_leaf-Step fn_flag_ts c h g r
call_second-Step fn_fext c h g r = call_leaf-Step fn_fext c h g r
call_second-Step fn_f0_ext c h g r = f0_ext-Step c h g r
call_second-Step fn_gerr c h g r = call_leaf-Step fn_gerr c h g r
call_second-Step fn_c16 c h g r = call_leaf-Step fn_c16 c h g r
call_second-Step fn_d4_ts c h g r = call_leaf-Step fn_d4_ts c h g r
call_second-Step fn_d8_ts c h g r = call_leaf-Step fn_d8_ts c h g r
call_second-Step fn_d16_ts c h g r = call_leaf-Step fn_d16_ts c h g r
call_second-Step fn_d32_ts c h g r = call_leaf-Step fn_d32_ts c h g r
call_second-Step fn_d64_ts c h g r = call_leaf-Step fn_d64_ts c h g r
call_second-Step fn_d4_m c h g r = call_leaf-Step fn_d4_m c h g r
call_second-Step fn_d8_m c h g r = call_leaf-Step fn_d8_m c h g r
call_second-Step fn_d16_m c h g r = call_leaf-Step fn_d16_m c h g r
call_second-Step fn_d32_m c h g r = call_leaf-Step fn_d32_m c h g r
call_second-Step fn_d64_m c h g r = call_leaf-Step fn_d64_m c h g r
call_second-Step fn_flag c h g r = call_leaf-Step fn_flag c h g r
call_second-Step fn_async c h g r = call_leaf-Step fn_async c h g r
call_second-Step fn_reserved_fn c h g r = call_leaf-Step fn_reserved_fn c h g r
call_second-Step fn_version c h g r = call_leaf-Step fn_version c h g r
call_second-Step fn_null_ts c h g r = call_leaf-Step fn_null_ts c h g r
call_second-Step fn_trigger c h g r = call_leaf-Step fn_trigger c h g r
call_second-Step fn_trigger_ts c h g r = call_leaf-Step fn_trigger_ts c h g r
call_second-Step fn_freq c h g r = call_leaf-Step fn_freq c h g r
call_second-Step fn_reserved_f0n c h g r = call_leaf-Step fn_reserved_f0n c h g r
call_second-Step fn_extract_ts c h g r = call_leaf-Step fn_extract_ts c h g r

op2-SecondReady : (n : ℕ) (c : StmParseContext) → Header 2 c → SecondReady (op2 n) c
unfolding op2
op2-SecondReady n c h =
    get_or-All (λ f. SecondReady f c)
      (fn_f0_ext ∷ fn_reserved_fn ∷ fn_gerr ∷ fn_c16 ∷ fn_d8_ts ∷ fn_d16_ts ∷ fn_d32_ts ∷ fn_d64_ts
        ∷ fn_d8_m ∷ fn_d16_m ∷ fn_d32_m ∷ fn_d64_m ∷ fn_d4_ts ∷ fn_d4_m ∷ fn_flag ∷ fn_async ∷ [])
      n fn_reserved_fn (ground arith) tt

fext-Step :
    (c : StmParseContext)
    → InPacket c
    → c.curr_fn ≡ some fn_fext
    → Header 1 c
    → Step c (stm_pkt_fext c)
unfolding stm_pkt_fext
fext-Step c h g e =
    let f = read_nibble-Frame c in
    let r : StmParseContext = (read_nibble c).0 in
    elim (read_nibble-left c) [
      | inl (t, n) ↦
          let (p, q) = next-Header 1 c h e (omega arith) t in
          let (p', q', g', l, b) = chosen (op2 r.nibble) 2 r p q in
          let s =
            call_second-Step (op2 r.nibble) (set_fn (op2 r.nibble) r) p' g'
              (op2-SecondReady r.nibble (set_fn (op2 r.nibble) r) q') in
          ground (arith, f, s, l, b)
      | inr (z, n, same) ↦
          let kept : r.curr_fn ≡ some fn_fext = ground (arith, f) in
          let again : Resumable fn_fext r = ground (arith, same) in
          ground (arith, f, subst (λ g. ResumableFn g r) (sym kept) again)
    ]

abbrev CallReady : PktFn → StmParseContext → Type 0
CallReady fn_fext c = Header 1 c
CallReady f c = SecondReady f c

call_fn-Ready :
    (f : PktFn) (c : StmParseContext)
    → InPacket c
    → c.curr_fn ≡ some f
    → CallReady f c
    → Step c (call_fn f c)
unfolding call_fn
call_fn-Ready fn_reserved c h g r = call_second-Step fn_reserved c h g r
call_fn-Ready fn_null c h g r = call_second-Step fn_null c h g r
call_fn-Ready fn_m8 c h g r = call_second-Step fn_m8 c h g r
call_fn-Ready fn_merr c h g r = call_second-Step fn_merr c h g r
call_fn-Ready fn_c8 c h g r = call_second-Step fn_c8 c h g r
call_fn-Ready fn_d4 c h g r = call_second-Step fn_d4 c h g r
call_fn-Ready fn_d8 c h g r = call_second-Step fn_d8 c h g r
call_fn-Ready fn_d16 c h g r = call_second-Step fn_d16 c h g r
call_fn-Ready fn_d32 c h g r = call_second-Step fn_d32 c h g r
call_fn-Ready fn_d64 c h g r = call_second-Step fn_d64 c h g r
call_fn-Ready fn_d4_mts c h g r = call_second-Step fn_d4_mts c h g r
call_fn-Ready fn_d8_mts c h g r = call_second-Step fn_d8_mts c h g r
call_fn-Ready fn_d16_mts c h g r = call_second-Step fn_d16_mts c h g r
call_fn-Ready fn_d32_mts c h g r = call_second-Step fn_d32_mts c h g r
call_fn-Ready fn_d64_mts c h g r = call_second-Step fn_d64_mts c h g r
call_fn-Ready fn_flag_ts c h g r = call_second-Step fn_flag_ts c h g r
call_fn-Ready fn_fext c h g r = fext-Step c h g r
call_fn-Ready fn_f0_ext c h g r = call_second-Step fn_f0_ext c h g r
call_fn-Ready fn_gerr c h g r = call_second-Step fn_gerr c h g r
call_fn-Ready fn_c16 c h g r = call_second-Step fn_c16 c h g r
call_fn-Ready fn_d4_ts c h g r = call_second-Step fn_d4_ts c h g r
call_fn-Ready fn_d8_ts c h g r = call_second-Step fn_d8_ts c h g r
call_fn-Ready fn_d16_ts c h g r = call_second-Step fn_d16_ts c h g r
call_fn-Ready fn_d32_ts c h g r = call_second-Step fn_d32_ts c h g r
call_fn-Ready fn_d64_ts c h g r = call_second-Step fn_d64_ts c h g r
call_fn-Ready fn_d4_m c h g r = call_second-Step fn_d4_m c h g r
call_fn-Ready fn_d8_m c h g r = call_second-Step fn_d8_m c h g r
call_fn-Ready fn_d16_m c h g r = call_second-Step fn_d16_m c h g r
call_fn-Ready fn_d32_m c h g r = call_second-Step fn_d32_m c h g r
call_fn-Ready fn_d64_m c h g r = call_second-Step fn_d64_m c h g r
call_fn-Ready fn_flag c h g r = call_second-Step fn_flag c h g r
call_fn-Ready fn_async c h g r = call_second-Step fn_async c h g r
call_fn-Ready fn_reserved_fn c h g r = call_second-Step fn_reserved_fn c h g r
call_fn-Ready fn_version c h g r = call_second-Step fn_version c h g r
call_fn-Ready fn_null_ts c h g r = call_second-Step fn_null_ts c h g r
call_fn-Ready fn_trigger c h g r = call_second-Step fn_trigger c h g r
call_fn-Ready fn_trigger_ts c h g r = call_second-Step fn_trigger_ts c h g r
call_fn-Ready fn_freq c h g r = call_second-Step fn_freq c h g r
call_fn-Ready fn_reserved_f0n c h g r = call_second-Step fn_reserved_f0n c h g r
call_fn-Ready fn_extract_ts c h g r = call_second-Step fn_extract_ts c h g r

op1-CallReady : (n : ℕ) (c : StmParseContext) → Header 1 c → CallReady (op1 n) c
unfolding op1
op1-CallReady n c h =
    get_or-All (λ f. CallReady f c)
      (fn_null ∷ fn_m8 ∷ fn_merr ∷ fn_c8 ∷ fn_d8 ∷ fn_d16 ∷ fn_d32 ∷ fn_d64 ∷ fn_d8_mts ∷ fn_d16_mts
        ∷ fn_d32_mts ∷ fn_d64_mts ∷ fn_d4 ∷ fn_d4_mts ∷ fn_flag_ts ∷ fn_fext ∷ [])
      n fn_reserved (ground arith) tt

Resumable-CallReady : (f : PktFn) (c : StmParseContext) → Resumable f c → CallReady f c
Resumable-CallReady fn_reserved c r = r
Resumable-CallReady fn_null c r = absurd r
Resumable-CallReady fn_m8 c r = r
Resumable-CallReady fn_merr c r = r
Resumable-CallReady fn_c8 c r = r
Resumable-CallReady fn_d4 c r = r
Resumable-CallReady fn_d8 c r = r
Resumable-CallReady fn_d16 c r = r
Resumable-CallReady fn_d32 c r = r
Resumable-CallReady fn_d64 c r = r
Resumable-CallReady fn_d4_mts c r = absurd r
Resumable-CallReady fn_d8_mts c r = absurd r
Resumable-CallReady fn_d16_mts c r = absurd r
Resumable-CallReady fn_d32_mts c r = absurd r
Resumable-CallReady fn_d64_mts c r = absurd r
Resumable-CallReady fn_flag_ts c r = absurd r
Resumable-CallReady fn_fext c r = record { header_num = r.0; header_plain = r.1 }
Resumable-CallReady fn_f0_ext c r = record { header_num = r.0; header_plain = r.1 }
Resumable-CallReady fn_gerr c r = r
Resumable-CallReady fn_c16 c r = r
Resumable-CallReady fn_d4_ts c r = absurd r
Resumable-CallReady fn_d8_ts c r = absurd r
Resumable-CallReady fn_d16_ts c r = absurd r
Resumable-CallReady fn_d32_ts c r = absurd r
Resumable-CallReady fn_d64_ts c r = absurd r
Resumable-CallReady fn_d4_m c r = absurd r
Resumable-CallReady fn_d8_m c r = absurd r
Resumable-CallReady fn_d16_m c r = absurd r
Resumable-CallReady fn_d32_m c r = absurd r
Resumable-CallReady fn_d64_m c r = absurd r
Resumable-CallReady fn_flag c r = absurd r
Resumable-CallReady fn_async c r = r
Resumable-CallReady fn_reserved_fn c r = r
Resumable-CallReady fn_version c r = r
Resumable-CallReady fn_null_ts c r = absurd r
Resumable-CallReady fn_trigger c r = r
Resumable-CallReady fn_trigger_ts c r = absurd r
Resumable-CallReady fn_freq c r = r
Resumable-CallReady fn_reserved_f0n c r = r
Resumable-CallReady fn_extract_ts c r = r

-- A call of the method that the last header nibble chooses.
pub call_header-Step :
    (c : StmParseContext)
    → InPacket c
    → c.num_nibbles ≡ 1
    → c.needs_ts ≡ false
    → Step c (call_fn (op1 c.nibble) (set_fn (op1 c.nibble) c))
call_header-Step c h hn ht =
    let (p, q, g, l, b) = chosen (op1 c.nibble) 1 c h (ground arith) in
    let s =
      call_fn-Ready (op1 c.nibble) (set_fn (op1 c.nibble) c) p g
        (op1-CallReady c.nibble (set_fn (op1 c.nibble) c) q) in
    ground (arith, s, l, b)

-- A call of the method that waits for the rest of its packet.
pub call_fn-Step :
    (f : PktFn) (c : StmParseContext)
    → InPacket c
    → c.curr_fn ≡ some f
    → Resumable f c
    → Step c (call_fn f c)
call_fn-Step f c h g r = call_fn-Ready f c h g (Resumable-CallReady f c r)

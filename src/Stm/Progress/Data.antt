-- ===== src/Stm/Progress/Data.antt =====
-- How far the methods of the data packets get.
use coresight.Prelude.{
  ℕ, ◌+◌, ◌≤◌, ◌<◌, ◌≡◌, ◌⊎◌, inl, inr, sym, arith, Bool-cases, some, ◌==◌, bit_and,
}
use mathlib.Core.Path.{subst}
use coresight.Stm.Packet.{StmPktType, d4}
use coresight.Stm.State.{StmParseContext, PktFn, fn_d4, fn_d8, fn_d16, fn_d32, fn_d64}
use coresight.Stm.Nibbles.{read_nibble}
use coresight.Stm.Nibbles.Frame.{read_nibble-Frame}
use coresight.Stm.Fields.{set_payload}
use coresight.Stm.Fields.Registers.{Width, w8, w16, w32, w64, digits, register, extract_val}
use coresight.Stm.Packets.{start_data, end_data, stm_pkt_d4}
use coresight.Stm.Packets.Payload.{method, method-common, packet_type, digits-le}
use coresight.Stm.Progress.{left, NoTsYet, ShortData, Resumable, ResumableFn, Step, InPacket}
use coresight.Stm.Progress.Loops.{extract_val-Extracted, read_nibble-left}
use coresight.Stm.Progress.Timestamps.{finish-Step}

abbrev pub data_fn : Width → PktFn
data_fn w8 = fn_d8
data_fn w16 = fn_d16
data_fn w32 = fn_d32
data_fn w64 = fn_d64

data_Resumable : (w : Width) (c : StmParseContext) → ShortData c → Resumable (data_fn w) c
data_Resumable w8 c h = h
data_Resumable w16 c h = h
data_Resumable w32 c h = h
data_Resumable w64 c h = h

-- Between the header and the end of a data packet.
pub record InData (c d : StmParseContext) : Type 0 where
  pub state_kept : d.process_state ≡ c.process_state
  pub stream_kept : d.stream_sync ≡ c.stream_sync
  pub fn_kept : d.curr_fn ≡ c.curr_fn
  pub block_kept : d.block ≡ c.block
  pub left_kept : left d ≡ left c
  pub num_kept : d.num_nibbles ≡ c.num_nibbles
  pub ts_kept : NoTsYet d
  pub short : d.num_nibbles < d.num_data_nibbles
  pub small : d.num_data_nibbles ≤ 18

start_data-InData :
    (t : StmPktType) (n : ℕ) (c : StmParseContext)
    → ShortData c
    → 2 ≤ n
    → n ≤ 17
    → InData c (start_data t n c)
unfolding start_data
start_data-InData t n c h h2 hn = ground arith

end_data-Step :
    (w : Width) (v : ℕ) (c : StmParseContext)
    → InPacket c
    → c.curr_fn ≡ some (data_fn w)
    → NoTsYet c
    → c.num_nibbles ≤ c.num_data_nibbles
    → c.num_data_nibbles ≤ 18
    → (c.num_nibbles ≡ c.num_data_nibbles) ⊎ (left c ≡ 0)
    → Step c (end_data v c)
unfolding end_data
end_data-Step w v c h hf ht hn hs he = elim (Bool-cases (c.num_nibbles == c.num_data_nibbles)) [
  | inl whole ↦
      let s =
        finish-Step (set_payload v c) (unfold set_payload in ground arith)
          (unfold set_payload in ht) in
      unfold set_payload in ground (arith, s)
  | inr cut ↦ ground (
    arith,
    subst (λ f. ResumableFn f c) (sym hf) (data_Resumable w c (inr (ground arith, hs), ht)),
  )
]

pub data-Step :
    (w : Width) (c : StmParseContext)
    → InPacket c
    → c.curr_fn ≡ some (data_fn w)
    → ShortData c
    → Step c (method w c)
data-Step w c h hf hd =
    let s = start_data (packet_type w) (digits w + 1) c in
    let i =
      start_data-InData (packet_type w) (digits w + 1) c hd (two w) (omega (arith, digits-le w)) in
    let d = extract_val w s.num_data_nibbles s in
    let x = extract_val-Extracted w s.num_data_nibbles s (ground arith) (ground arith) in
    let e =
      end_data-Step w (register w d) d (ground (arith, i, x)) (ground (arith, i, x))
        (ground (arith, i, x)) (ground (arith, i, x)) (ground (arith, i, x))
        (ground (arith, i, x)) in
    rw (method-common w c) (ground (arith, i, x, e))
  where
    two : (w : Width) → 2 ≤ digits w + 1
    two w8 = omega arith
    two w16 = omega arith
    two w32 = omega arith
    two w64 = omega arith

pub stm_pkt_d4-Step :
    (c : StmParseContext)
    → InPacket c
    → c.curr_fn ≡ some fn_d4
    → ShortData c
    → Step c (stm_pkt_d4 c)
unfolding stm_pkt_d4
stm_pkt_d4-Step c h hf hd =
    let s = start_data d4 2 c in
    let i = start_data-InData d4 2 c hd (omega arith) (omega arith) in
    let f = read_nibble-Frame s in
    let r : StmParseContext = (read_nibble s).0 in
    elim (read_nibble-left s) [
      | inl (t, n) ↦
          let e =
            finish-Step (set_payload (bit_and r.nibble 0xf) r)
              (unfold set_payload in ground (arith, i, f))
              (unfold set_payload in ground (arith, i, f)) in
          unfold set_payload in ground (arith, i, f, e)
      | inr (e, z, same) ↦
          let kept : r.curr_fn ≡ some fn_d4 = ground (arith, i, f) in
          let again : ShortData r = ground (arith, i, same) in
          ground (arith, i, f, subst (λ g. ResumableFn g r) (sym kept) again)
    ]

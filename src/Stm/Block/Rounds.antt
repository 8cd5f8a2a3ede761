-- ===== src/Stm/Block/Rounds.antt =====
-- Every round of the loop of `processData` that goes on uses input or gets nearer to a header.
use coresight.Prelude.{
  ℕ, zero, suc, ◌+◌, ◌*◌, ◌≤◌, ◌<◌, ◌≡◌, inl, inr, refl, arith, Bool, true, false, Bool-cases,
  Option-cases, if◌then◌else◌, u8, u64, get_elem?,
}
use coresight.Stm.Packet.{not_sync, set_type}
use coresight.Stm.State.{StmParseContext, ProcessState, wait_sync, proc_hdr, proc_data, send_pkt}
use coresight.Stm.Nibbles.{
  read_nibble, take_held, take_fresh, check_sync_nibble, clear_sync_count, note_sync_start,
}
use coresight.Stm.Nibbles.Frame.{read_nibble-Frame}
use coresight.Stm.Fields.{on_packet, send_packet}
use coresight.Stm.Parser.{wait_for_sync, sync_loop, nibble_bound, synced, cut_async_bytes}
use coresight.Stm.Block.{Round, next, return}
use coresight.Stm.Progress.{left, ResumableFn}
use coresight.Stm.Progress.Loops.{read_nibble-left}

abbrev pub StateOk : ProcessState → StmParseContext → Type 0
StateOk wait_sync c = c.is_sync ≡ true → c.num_f_nibs ≡ 21
StateOk proc_hdr c = (c.stream_sync ≡ true) × (c.num_nibbles ≡ 0) × (c.needs_ts ≡ false)
StateOk proc_data c = (c.stream_sync ≡ true) × ResumableFn c.curr_fn c
StateOk send_pkt c = Unit

-- The contexts that the loop meets.
pub record Inv (c : StmParseContext) : Type 0 where
  pub unsynced : c.stream_sync ≡ false → c.is_sync ≡ true → c.num_f_nibs ≡ 21
  pub state_ok : StateOk c.process_state c

abbrev pub rank : ProcessState → StmParseContext → ℕ
rank wait_sync c = if c.is_sync then 2 else 0
rank proc_hdr c = 0
rank proc_data c = 2
rank send_pkt c = if c.stream_sync then 1 else 3

abbrev pub measure : StmParseContext → ℕ
measure c = 4 * left c + rank c.process_state c

-- What a round leaves: less to do, or the return.
abbrev pub Less : ℕ → Round → Type 0
Less m (next d) = Inv d.ctx × (measure d.ctx < m)
Less m (return d err) = Inv d.ctx

check_sync_nibble-found :
    (c : StmParseContext)
    → c.is_sync ≡ false
    → (check_sync_nibble c).is_sync ≡ true
    → (check_sync_nibble c).num_f_nibs ≡ 21
unfolding check_sync_nibble note_sync_start clear_sync_count
check_sync_nibble-found c h g = ground arith

read_nibble-found :
    (c : StmParseContext)
    → c.is_sync ≡ false
    → (read_nibble c).0.is_sync ≡ true
    → (read_nibble c).0.num_f_nibs ≡ 21
unfolding read_nibble take_held take_fresh
read_nibble-found c h g = elim (Option-cases (get_elem? c.block c.offset)) [
  | inl e ↦ ground (arith, check_sync_nibble-found (take_held c))
  | inr (b, e) ↦
      ground
        (arith, check_sync_nibble-found (take_held c), check_sync_nibble-found (take_fresh b c))
]

record Read (c d : StmParseContext) : Type 0 where
  state_kept : d.process_state ≡ c.process_state
  stream_kept : d.stream_sync ≡ c.stream_sync
  less_left : left d ≤ left c
  found : d.is_sync ≡ true → d.num_f_nibs ≡ 21

sync_loop-Read :
    (rounds : ℕ) (c : StmParseContext)
    → (c.is_sync ≡ true → c.num_f_nibs ≡ 21)
    → Read c (sync_loop rounds c)
unfolding sync_loop
sync_loop-Read zero c h = ground arith
sync_loop-Read (suc rounds) c h = elim (Bool-cases c.is_sync) [
  | inl on ↦ ground arith
  | inr off ↦
      let f = read_nibble-Frame c in
      let g = read_nibble-found c off in
      let rest = sync_loop-Read rounds (read_nibble c).0 g in
      ground (arith, f, g, rest, read_nibble-left c)
]

sync_loop-on : (rounds : ℕ) (c : StmParseContext) → c.is_sync ≡ true → sync_loop rounds c ≡ c
unfolding sync_loop
sync_loop-on zero c h = refl
sync_loop-on (suc rounds) c h = ground arith

sync_loop-less :
    (rounds : ℕ) (c : StmParseContext)
    → c.is_sync ≡ false
    → 0 < left c
    → 0 < rounds
    → left (sync_loop rounds c) < left c
unfolding sync_loop
sync_loop-less zero c h hl hr = absurd (omega arith)
sync_loop-less (suc rounds) c h hl hr =
    ground
      (arith, read_nibble-left c, sync_loop-Read rounds (read_nibble c).0 (read_nibble-found c h))

-- What the end of `waitForSync` leaves when it sends a packet.
record Sent (c d : StmParseContext) : Type 0 where
  sent : d.process_state ≡ send_pkt
  left_kept : left d ≡ left c
  counted : d.stream_sync ≡ false → (d.is_sync ≡ c.is_sync) × (d.num_f_nibs ≡ c.num_f_nibs)

abbrev not_synced : StmParseContext → StmParseContext
not_synced c = send_packet (on_packet (set_type not_sync false) c)

not_synced-Sent : (c : StmParseContext) → Sent c (not_synced c)
unfolding send_packet on_packet set_type
not_synced-Sent c = ground arith

cut-Sent : (c : StmParseContext) → Sent c (not_synced (cut_async_bytes c))
unfolding send_packet on_packet set_type cut_async_bytes
cut-Sent c = ground arith

synced-Sent :
    (on_entry : Bool) (c : StmParseContext)
    → Sent c (send_packet (synced on_entry c))
      × ((send_packet (synced on_entry c)).stream_sync ≡ true)
unfolding send_packet synced on_packet set_type clear_sync_count
synced-Sent on_entry c = ground arith

-- The context in which `waitForSync` reads.
abbrev entry : ℕ → StmParseContext → StmParseContext
entry index c = record c {
  packet_idx = u64 (index + c.offset);
  num_nibbles = if c.is_sync then u8 (c.num_f_nibs + 1) else c.num_f_nibs;
}

pub wait-Less :
    (index : ℕ) (c : StmParseContext)
    → c.process_state ≡ wait_sync
    → Inv c
    → 0 < left c
    → Inv (wait_for_sync index c) × (measure (wait_for_sync index c) < measure c)
unfolding wait_for_sync
wait-Less index c hs h hl = elim (Bool-cases c.is_sync) [
  | inl on ↦
      let nibs : c.num_f_nibs ≡ 21 = ground arith in
      let same = sync_loop-on (nibble_bound e) e on in ground (arith, same, synced-Sent c.is_sync e)
  | inr off ↦
      let r = sync_loop-Read (nibble_bound e) e (ground arith) in
      let less = sync_loop-less (nibble_bound e) e off hl (omega arith) in
      let d = sync_loop (nibble_bound e) e in
      ground (arith, r, less, synced-Sent c.is_sync d, not_synced-Sent d, cut-Sent d)
]
  where
    e : StmParseContext
    e = entry index c

-- ===== src/Stm/Parser.antt =====
-- stm_parser.go: the wait for ASYNC, and the sending of a complete packet.
pub mod Sync
mod Examples
use coresight.Prelude.{
  ℕ, zero, suc, ◌+◌, ◌*◌, ◌-◌, Bool, true, false, not, ◌&&◌, ◌||◌, Option, some, [], ◌∷◌, ◌++◌,
  length, take, replicate, shl, u8, u64, ltb, leb, ◌==◌, if◌then◌else◌,
}
use coresight.Errors.{Error}
use coresight.Emitter.{emit_packet}
use coresight.Stm.Packet.{async, not_sync, init_next_packet as packet_init_next, set_type}
use coresight.Stm.State.{StmParseContext, wait_sync, proc_hdr, send_pkt}
use coresight.Stm.Nibbles.{read_nibble, clear_sync_count, save_packet_byte}
use coresight.Stm.Fields.{on_packet, send_packet}
use coresight.Stm.Decoder.{StmDecoder, process_packet}

unfoldable pub data_to_process : StmParseContext → Bool
data_to_process c =
    ltb c.offset (length c.block)
    || c.nibble_second_valid
    || elim (c.process_state) [ send_pkt ↦ true | _ ↦ false ]

unfoldable pub init_next_packet : StmParseContext → StmParseContext
init_next_packet c = record c {
  needs_ts = false;
  is_marker = false;
  num_nibbles = 0;
  num_data_nibbles = 0;
  curr_packet = packet_init_next c.curr_packet;
  packet_data = [];
  val8 = 0;
  val16 = 0;
  val32 = 0;
  val64 = 0;
}

-- The context after the packet was sent: a nibble that is held back opens the next packet's bytes.
unfoldable pub next_packet : StmParseContext → StmParseContext
unfolding init_next_packet save_packet_byte
next_packet c =
    let c1 = init_next_packet c in
    let c2 =
      if c1.nibble_second_valid then save_packet_byte (u8 (shl c1.nibble_second 4)) c1 else c1 in
    record c2 { process_state = if c2.stream_sync then proc_hdr else wait_sync }

unfoldable pub output_packet : StmDecoder → StmDecoder × Option Error
unfolding next_packet
output_packet d =
    let c = record (d.ctx) {
      curr_packet = record (d.ctx.curr_packet) { index = d.ctx.packet_idx };
    } in
    let o = emit_packet c.packet_idx c.curr_packet c.packet_data d.emitter in
    let (d', err) = process_packet (some c.curr_packet) (record d { ctx = c; emitter = o }) in
    (record d' { ctx = next_packet d'.ctx }, err)

-- `for !isSync && readNibble() {}` with the rounds that are left.
unfoldable pub sync_loop : ℕ → StmParseContext → StmParseContext
sync_loop zero c = c
sync_loop (suc rounds) c =
    let (c', done) = read_nibble c in
    let rest = sync_loop rounds c' in if c.is_sync then c else if done then rest else c'

-- Two nibbles for each byte of the block and one held back bound the rounds.
abbrev pub nibble_bound : StmParseContext → ℕ
nibble_bound c = 2 * length c.block + 2

unfoldable pub cut_async_bytes : StmParseContext → StmParseContext
cut_async_bytes c =
    if leb 11 (length c.packet_data)
    then record c { packet_data = take (length c.packet_data - 11) c.packet_data }
    else c

unfoldable pub synced : Bool → StmParseContext → StmParseContext
unfolding on_packet set_type clear_sync_count
synced sync_on_entry c =
    let c' =
      clear_sync_count (record (on_packet (set_type async false) c) { stream_sync = true }) in
    let c'' = record c' { packet_idx = c'.sync_index } in
    if sync_on_entry
    then record c'' { packet_data = c''.packet_data ++ (replicate 10 0xff ++ 0x0f ∷ []) }
    else c''

unfoldable pub wait_for_sync : ℕ → StmParseContext → StmParseContext
unfolding cut_async_bytes synced on_packet set_type send_packet
wait_for_sync block_start c0 =
    let c1 = record c0 {
      packet_idx = u64 (block_start + c0.offset);
      num_nibbles = if c0.is_sync then u8 (c0.num_f_nibs + 1) else c0.num_f_nibs;
    } in
    let c = sync_loop (nibble_bound c1) c1 in
    let preamble = c.is_sync && ltb 22 c.num_nibbles in
    if c.num_nibbles == 0
    then c
    else if not c.is_sync || preamble
    then send_packet
        (on_packet (set_type not_sync false) (if preamble then cut_async_bytes c else c))
    else send_packet (synced c0.is_sync c)

-- ===== src/Stm/Packets/Payload.antt =====
-- The data packets D8 to D64: the payload that the decoder sees is the value that was sent, also when
-- the packet's nibbles come in two blocks.
use coresight.Prelude.{ℕ, ◌+◌, ◌^◌, ◌≤◌, ◌<◌, ◌≡◌, refl, ap, arith, false, none, List, ◌++◌, length}
use coresight.Stm.Packet.{StmPktType, d8, d16, d32, d64}
use coresight.Stm.State.{StmParseContext, send_pkt}
use coresight.Stm.Nibbles.Stream.{pending}
use coresight.Stm.Fields.{Outcome, finish}
use coresight.Stm.Fields.Values.{fold_nibbles}
use coresight.Stm.Fields.Registers.{
  Width, w8, w16, w32, w64, bits, digits, register, extract_val, sent_as, store_step, fold-sent_as,
  length-sent_as, extract_val-Gathered,
}
use coresight.Stm.Packets.{start_data, end_data, stm_pkt_d8, stm_pkt_d16, stm_pkt_d32, stm_pkt_d64}

abbrev pub method : Width → StmParseContext → Outcome
method w8 = stm_pkt_d8
method w16 = stm_pkt_d16
method w32 = stm_pkt_d32
method w64 = stm_pkt_d64

abbrev pub packet_type : Width → StmPktType
packet_type w8 = d8
packet_type w16 = d16
packet_type w32 = d32
packet_type w64 = d64

-- A one-nibble header of a packet without timestamp was just read.
pub record AtHeader (w : Width) (c : StmParseContext) : Type 0 where
  pub header_read : c.num_nibbles ≡ 1
  pub no_timestamp : c.needs_ts ≡ false
  pub empty_register : register w c ≡ 0

-- The packet is complete, with the payload `v`, and `rest` is not touched.
pub record Complete (w : Width) (v : ℕ) (rest : List ℕ) (out : Outcome) : Type 0 where
  pub complete : out.0.process_state ≡ send_pkt
  pub right_type : out.0.curr_packet.typ ≡ packet_type w
  pub right_payload : out.0.curr_packet.payload ≡ v
  pub rest_pending : pending out.0 ≡ rest
  pub no_error : out.1 ≡ none

-- The common form of the four methods.
abbrev pub common : Width → StmParseContext → Outcome
common w c =
    let s = start_data (packet_type w) (digits w + 1) c in
    let c' = extract_val w s.num_data_nibbles s in end_data (register w c') c'

pub method-common : (w : Width) (c : StmParseContext) → method w c ≡ common w c
unfolding stm_pkt_d8 stm_pkt_d16 stm_pkt_d32 stm_pkt_d64
method-common w8 c = refl
method-common w16 c = refl
method-common w32 c = refl
method-common w64 c = refl

pub digits-le : (w : Width) → digits w ≤ 16
digits-le w8 = omega arith
digits-le w16 = omega arith
digits-le w32 = omega arith
digits-le w64 = omega arith

-- The method between its header and its end.
pub record Started (w : Width) (xs : List ℕ) (v : ℕ) (c : StmParseContext) : Type 0 where
  pub in_packet : c.curr_packet.typ ≡ packet_type w
  pub plain : c.needs_ts ≡ false
  pub wanted : c.num_data_nibbles ≡ digits w + 1
  pub in_register : register w c ≡ v
  pub in_input : pending c ≡ xs

pub start-Started :
    (w : Width) (xs : List ℕ) (c : StmParseContext)
    → AtHeader w c
    → pending c ≡ xs
    → Started w xs 0 (start_data (packet_type w) (digits w + 1) c)
      × ((start_data (packet_type w) (digits w + 1) c).num_nibbles ≡ 1)
unfolding start_data
start-Started w8 xs c h p = ground arith
start-Started w16 xs c h p = ground arith
start-Started w32 xs c h p = ground arith
start-Started w64 xs c h p = ground arith

end-Complete :
    (w : Width) (v : ℕ) (rest : List ℕ) (c : StmParseContext)
    → c.curr_packet.typ ≡ packet_type w
    → c.needs_ts ≡ false
    → pending c ≡ rest
    → c.num_nibbles ≡ c.num_data_nibbles
    → Complete w v rest (end_data v c)
unfolding end_data finish
end-Complete w v rest c ht hn hp hs = ground arith

-- The rest of the method, on a context where some nibbles of the value may have been read already.
pub finish-Complete :
    (w : Width) (u v : ℕ) (xs rest : List ℕ) (c : StmParseContext)
    → Started w (xs ++ rest) u c
    → c.num_nibbles + length xs ≡ digits w + 1
    → fold_nibbles (store_step w) u xs ≡ v
    → Complete w v rest (let c' = extract_val w c.num_data_nibbles c in end_data (register w c') c')
finish-Complete w u v xs rest c h hn hv =
    let g =
      extract_val-Gathered w c.num_data_nibbles xs rest c h.in_input (omega arith)
        (omega (arith, digits-le w)) in
    let c' = extract_val w c.num_data_nibbles c in
    let value : register w c' ≡ v =
      ground (arith, ap (λ t. fold_nibbles (store_step w) t xs) h.in_register) in
    rw value (end-Complete w v rest c' (ground arith) (ground arith) g.gathered_rest (ground arith))

pub powers : (w : Width) → 16 ^ digits w ≡ 2 ^ bits w
powers w8 = refl
powers w16 = refl
powers w32 = refl
powers w64 = refl

-- A data packet without timestamp of 8, 16, 32 or 64 bits, when all its nibbles are at hand: the
-- method completes the packet with its type and the value that the nibbles spell, most significant
-- first, returns no error, and leaves what follows the packet to be read.
pub method-Complete :
    (w : Width) (v : ℕ) (rest : List ℕ) (c : StmParseContext)
    → AtHeader w c
    → v < 2 ^ bits w
    → pending c ≡ sent_as (digits w) v ++ rest
    → Complete w v rest (method w c)
method-Complete w v rest c h hv hp =
    let (s, one) = start-Started w (sent_as (digits w) v ++ rest) c h hp in
    rw (method-common w c) (
      finish-Complete w 0 v (sent_as (digits w) v) rest _ s
        (omega (arith, one, length-sent_as (digits w) v))
        (fold-sent_as w (digits w) v (rw (powers w) hv) hv))

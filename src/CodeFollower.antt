-- ===== src/CodeFollower.antt =====
-- etmv3_code_follower.go: the follower, which decodes instructions from memory up to the next waypoint.
-- The memory and the instruction decoder are the interfaces that it is given: `memory_read` with a
-- state of the memory (MemAcc/Mapper is one) and `id_decode` (Idec/Decode is one).
pub mod Limit
pub mod Waypoints
mod Examples
use Prim.Native.Nat.{zero}
use coresight.Errors.{Error, mem_nacc, no_accessor, invalid_opcode, i_range_limit_overrun}
use coresight.Idec.Info.{
  InstrInfo, Isa, InstrType, ArchProfile, isa_aarch64, instr_other, instr_br, zero_instr_info,
  instr_br_indirect,
}
use coresight.Prelude.{
  ℕ, Bool, List, get_or, true, Option, false, if◌then◌else◌, ◌+◌, some, ◌==◌, ◌&&◌, u64, none, ◌*◌,
  ◌/=◌, u32, bit_and, suc, ◌^◌, ltb,
}

-- atmVal
pub data AtmVal : Type 0 where
  atom_n atom_e : AtmVal

abbrev opcode_bytes : ℕ
opcode_bytes = 4

-- codeFollower
pub record CodeFollower {ℓ} (M : Type ℓ) : Type ℓ where
  pub instr_info : InstrInfo
  pub mem_access : M
  pub mem_space : ℕ
  pub trace_id : ℕ
  pub arch : ArchProfile
  pub isa : Isa
  pub err_on_aa64_bad_opcode : Bool
  pub instr_range_limit : ℕ  -- uint32
  pub read_buf : List ℕ
  pub temp_instr : InstrInfo

-- followResult
pub record FollowResult : Type 0 where
  pub has_next : Bool
  pub has_nacc : Bool
  pub nacc_addr : ℕ
  pub num_instr : ℕ  -- uint32
  pub range_st : ℕ
  pub range_en : ℕ
  pub next_addr : ℕ
  pub instr_info : InstrInfo

-- binary.LittleEndian.Uint32
unfoldable pub uint32_le : List ℕ → ℕ
uint32_le bs =
    get_or bs 0 0 + get_or bs 1 0 * 2 ^ 8 + get_or bs 2 0 * 2 ^ 16 + get_or bs 3 0 * 2 ^ 24

abbrev is_aarch64 : Isa → Bool
is_aarch64 isa_aarch64 = true
is_aarch64 _ = false

abbrev is_mem_nacc : Error → Bool
is_mem_nacc mem_nacc = true
is_mem_nacc _ = false

-- The errors of the memory that mean that there is none at the address
abbrev read_error : ℕ → Option Error → Option Error
read_error n (some no_accessor) = some mem_nacc
read_error n (some e) = some e
read_error n none = if n /= opcode_bytes then some mem_nacc else none

-- The switch on the type of the instruction: a waypoint ends the range.
unfoldable pub is_waypoint : InstrType → Bool
is_waypoint instr_other = false
is_waypoint _ = true

-- An executed branch leads elsewhere.
unfoldable pub take_atom : AtmVal → FollowResult → FollowResult
take_atom atom_n res = res
take_atom atom_e res = elim res.instr_info.typ [
  | instr_br ↦ record res { next_addr = res.instr_info.branch_addr }
  | instr_br_indirect ↦ record res { has_next = false }
  | _ ↦ res
]

-- `out` with the result of one more instruction; `first` is `out.NumInstr == 0`.
unfoldable pub extend : ℕ → FollowResult → FollowResult → FollowResult
extend range_start out res =
    if out.num_instr == 0 then record res { range_st = range_start } else record out {
      range_en = res.range_en;
      next_addr = res.next_addr;
      has_next = res.has_next;
      has_nacc = res.has_nacc;
      nacc_addr = res.nacc_addr;
      num_instr = u32 (out.num_instr + res.num_instr);
      instr_info = res.instr_info;
    }

abbrev at_address : ℕ → InstrInfo → InstrInfo
at_address a i = record i { instr_addr = a }

-- The result when the instruction is not decoded
unfoldable pub not_followed : ℕ → Error → InstrInfo → FollowResult
not_followed addr e i = record {
  has_next = false;
  has_nacc = is_mem_nacc e;
  nacc_addr = addr;
  num_instr = 0;
  range_st = addr;
  range_en = addr;
  next_addr = addr;
  instr_info = i;
}

unfoldable pub followed : ℕ → AtmVal → InstrInfo → FollowResult
followed addr atom i =
    let after = u64 (i.instr_addr + i.instr_size) in
    let res : FollowResult = record {
      has_next = true;
      has_nacc = false;
      nacc_addr = addr;
      num_instr = 1;
      range_st = addr;
      range_en = after;
      next_addr = after;
      instr_info = i;
    } in
    take_atom atom res

-- var out followResult
abbrev pub zero_result : FollowResult
zero_result = record {
  has_next = false;
  has_nacc = false;
  nacc_addr = 0;
  num_instr = 0;
  range_st = 0;
  range_en = 0;
  next_addr = 0;
  instr_info = zero_instr_info;
}

module _ {ℓ} {M : Type ℓ} (memory_read : ℕ → ℕ → ℕ → ℕ → List ℕ → M → M × List ℕ × ℕ × Option Error)
    (id_decode : InstrInfo → InstrInfo × Option Error) where
  -- The decoder of an opcode that was read
  unfoldable pub decode_opcode :
      CodeFollower M → InstrInfo → CodeFollower M × InstrInfo × Option Error
  decode_opcode cf i =
      let d : InstrInfo = record i { opcode = uint32_le cf.read_buf } in
      let (d', err) = id_decode d in
      if cf.err_on_aa64_bad_opcode && is_aarch64 d.isa && bit_and d.opcode 0xffff0000 == 0
      then (cf, d, some invalid_opcode)
      else (cf, d', err)

  unfoldable pub decode_single_op_code :
      InstrInfo → ℕ → ℕ → CodeFollower M → CodeFollower M × InstrInfo × Option Error
  decode_single_op_code i id space cf =
      let (m, buf, n, err) =
        memory_read i.instr_addr id space opcode_bytes cf.read_buf cf.mem_access in
      let cf' : CodeFollower M = record cf { mem_access = m; read_buf = buf } in
      elim (read_error n err) [ none ↦ decode_opcode cf' i | some e ↦ (cf', i, some e) ]

  unfoldable pub follow_single_atom :
      ℕ → AtmVal → CodeFollower M → CodeFollower M × FollowResult × Option Error
  follow_single_atom addr atom cf =
      let (cf', i, err) =
        decode_single_op_code (at_address addr cf.instr_info) cf.trace_id cf.mem_space cf in
      let cf'' : CodeFollower M = record cf' { temp_instr = i } in
      elim err [
        | none ↦ (cf'', followed addr atom i, none)
        | some e ↦ (cf'', not_followed addr e i, some e)
      ]

  -- The loop of followAtomWaypoint, on a number of rounds; none when they do not suffice
  unfoldable pub waypoint_loop :
      ℕ
      → ℕ
      → AtmVal
      → ℕ
      → FollowResult
      → CodeFollower M
      → Option (CodeFollower M × FollowResult × Option Error)
  waypoint_loop zero range_start atom addr out cf = none
  waypoint_loop (suc rounds) range_start atom addr out cf =
      let (cf', res, err) = follow_single_atom addr atom cf in
      let out' = extend range_start out res in
      let i = res.instr_info in
      let next : CodeFollower M = record cf' { instr_info = at_address res.range_en i } in
      let more = waypoint_loop rounds range_start atom res.range_en out' next in
      elim err [
        | some e ↦ some (
          cf',
          record res { range_st = range_start; num_instr = u32 (res.num_instr + out.num_instr) },
          some e,
        )
        | none ↦
            if ltb 0 cf.instr_range_limit && ltb cf.instr_range_limit out'.num_instr
            then some (cf', out', some i_range_limit_overrun)
            else if is_waypoint i.typ
            then some (record cf' { instr_info = i }, out', none)
            else more
      ]

  unfoldable pub follow_atom_waypoint :
      ℕ → ℕ → AtmVal → CodeFollower M → Option (CodeFollower M × FollowResult × Option Error)
  follow_atom_waypoint rounds addr atom cf = waypoint_loop rounds addr atom addr zero_result cf

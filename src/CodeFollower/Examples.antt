-- ===== src/CodeFollower/Examples.antt =====
-- etmv3_code_follower.go: the theorems for the memory mapper and the instruction decoder of the
-- program, at a block of two A32 instructions.
use coresight.Idec.Barriers.{inst_arm_barrier}
use coresight.Idec.A32.{inst_arm_is_indirect_branch, inst_arm_is_direct_branch}
use coresight.CodeFollower.Waypoints.{Reached, follow_atom_waypoint-Reached}
use coresight.CodeFollower.Limit.{follow_atom_waypoint-ends}
use coresight.MemAcc.Spaces.{any_space}
use coresight.Errors.{Error}
use coresight.Idec.Decode.{
  decode_instruction, decode_a32, a32_switch, reset_instr_info, a32_other, apply_barrier,
  a32_direct,
}
use coresight.Idec.Info.{zero_instr_info, isa_arm}
use coresight.MemAcc.Mapper.{
  GlobalMapper, read, add_accessor, new_global_mapper, read_found, find_accessor, overlaps_existing,
}
use coresight.MemAcc.Accessors.{new_buffer_accessor}
use coresight.Prelude.{Option, ◌∷◌, [], some, ◌≢◌, none, true, arith, refl}
use coresight.CodeFollower.{
  CodeFollower, follow_atom_waypoint, waypoint_loop, FollowResult, follow_single_atom, atom_e,
  decode_single_op_code, zero_result, decode_opcode, uint32_le, followed, take_atom, extend,
  is_waypoint,
}
use coresight.MemAcc.{Accessor}

-- mov r0, r0; b .
abbrev code : Accessor
code =
    new_buffer_accessor 0x1000 (0x00 ∷ 0x00 ∷ 0xa0 ∷ 0xe1 ∷ 0xfe ∷ 0xff ∷ 0xff ∷ 0xea ∷ [])
      any_space

abbrev start : CodeFollower GlobalMapper
start = record {
  instr_info = zero_instr_info;
  mem_access = (add_accessor (some code) new_global_mapper).0;
  mem_space = any_space;
  trace_id = 0x10;
  arch = record { arch = 0x0700; profile = 3 };
  isa = isa_arm;
  err_on_aa64_bad_opcode = true;
  instr_range_limit = 5;
  read_buf = 0 ∷ 0 ∷ 0 ∷ 0 ∷ [];
  temp_instr = zero_instr_info;
}

follow_atom_waypoint-ends_example :
    follow_atom_waypoint read decode_instruction 6 0x1000 atom_e start ≢ none
follow_atom_waypoint-ends_example =
    follow_atom_waypoint-ends read decode_instruction 6 0x1000 atom_e start (omega arith)
      (omega arith) (omega arith)

abbrev found :
    Option (CodeFollower GlobalMapper × FollowResult × Option Error)
    → CodeFollower GlobalMapper × FollowResult
found none = (start, zero_result)
found (some (cf, out, err)) = (cf, out)

abbrev reached : CodeFollower GlobalMapper × FollowResult
reached = found (follow_atom_waypoint read decode_instruction 6 0x1000 atom_e start)

follow_atom_waypoint-Reached_example :
    Reached read decode_instruction atom_e 0 0x1000 start 0x1000 reached.0 reached.1
unfolding follow_atom_waypoint waypoint_loop follow_single_atom decode_single_op_code decode_opcode
    uint32_le followed take_atom extend is_waypoint read read_found find_accessor add_accessor
    new_buffer_accessor overlaps_existing new_global_mapper decode_instruction decode_a32 a32_switch
    inst_arm_is_indirect_branch reset_instr_info a32_other inst_arm_is_direct_branch apply_barrier
    inst_arm_barrier a32_direct
follow_atom_waypoint-Reached_example =
    follow_atom_waypoint-Reached read decode_instruction 6 0x1000 atom_e start reached.0 reached.1
      refl

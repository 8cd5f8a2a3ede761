-- ===== src/CodeFollower/Limit.antt =====
-- etmv3_code_follower.go: the loop of followAtomWaypoint ends when the range is limited.
use Prim.Native.Nat.{zero}
use coresight.CodeFollower.{
  decode_single_op_code, follow_single_atom, waypoint_loop, decode_opcode, followed, extend,
  CodeFollower, take_atom, AtmVal, FollowResult, at_address, follow_atom_waypoint, zero_result,
}
use coresight.Idec.Info.{InstrInfo}
use coresight.Errors.{Error}
use coresight.Prelude.{ℕ, List, Option, ◌≡◌, arith, none, ◌<◌, ◌^◌, ◌-◌, ◌≤◌, ◌+◌, ◌≢◌, suc}

module _ {ℓ} {M : Type ℓ} (memory_read : ℕ → ℕ → ℕ → ℕ → List ℕ → M → M × List ℕ × ℕ × Option Error)
    (id_decode : InstrInfo → InstrInfo × Option Error) where
  decode_single-limit :
      (i : InstrInfo) (id space : ℕ) (cf : CodeFollower M)
      → (decode_single_op_code memory_read id_decode i id space cf).0.instr_range_limit
        ≡ cf.instr_range_limit
  unfolding decode_single_op_code decode_opcode
  decode_single-limit i id space cf = ground arith

  -- The result of one instruction: it counts one, or there is an error.
  pub follow_single-result :
      (addr : ℕ) (atom : AtmVal) (cf : CodeFollower M)
      → let r = follow_single_atom memory_read id_decode addr atom cf in
        (r.0.instr_range_limit ≡ cf.instr_range_limit) × (r.2 ≡ none → r.1.num_instr ≡ 1)
  unfolding follow_single_atom followed take_atom
  follow_single-result addr atom cf =
      ground
        (arith, decode_single-limit (at_address addr cf.instr_info) cf.trace_id cf.mem_space cf)

  loop-ends :
      (rounds start : ℕ) (atom : AtmVal) (addr : ℕ) (out : FollowResult) (cf : CodeFollower M)
      → 0 < cf.instr_range_limit
      → cf.instr_range_limit < 2 ^ 32 - 1
      → out.num_instr ≤ cf.instr_range_limit
      → cf.instr_range_limit < out.num_instr + rounds
      → waypoint_loop memory_read id_decode rounds start atom addr out cf ≢ none
  unfolding waypoint_loop extend
  loop-ends zero start atom addr out cf pos small below enough = absurd (omega arith)
  loop-ends (suc rounds) start atom addr out cf pos small below enough =
      let r = follow_single_atom memory_read id_decode addr atom cf in
      let res = r.1 in
      let next : CodeFollower M = record (r.0) {
        instr_info = at_address res.range_en res.instr_info;
      } in
      let s = follow_single-result addr atom cf in
      ground (arith, s, loop-ends rounds start atom res.range_en (extend start out res) next)

  -- followAtomWaypoint returns, whatever the memory and the instruction decoder answer, when the
  -- number of instructions is limited and the limit is below the largest uint32: one round for each
  -- instruction of the limit and one more are enough.
  pub follow_atom_waypoint-ends :
      (rounds addr : ℕ) (atom : AtmVal) (cf : CodeFollower M)
      → 0 < cf.instr_range_limit
      → cf.instr_range_limit < 2 ^ 32 - 1
      → cf.instr_range_limit < rounds
      → follow_atom_waypoint memory_read id_decode rounds addr atom cf ≢ none
  unfolding follow_atom_waypoint
  follow_atom_waypoint-ends rounds addr atom cf pos small enough =
      loop-ends rounds addr atom addr zero_result cf pos small (omega arith) (omega arith)

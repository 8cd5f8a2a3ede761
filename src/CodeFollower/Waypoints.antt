-- ===== src/CodeFollower/Waypoints.antt =====
-- etmv3_code_follower.go: what followAtomWaypoint reports when it reaches a waypoint.
use Prim.Native.Nat.{zero}
use mathlib.Core.Path.{subst}
use coresight.CodeFollower.Limit.{follow_single-result}
use coresight.Errors.{Error}
use coresight.Idec.Info.{InstrInfo, instr_br, instr_br_indirect}
use coresight.Prelude.{
  ℕ, List, Option, ◌≡◌, some, u64, ◌+◌, if◌then◌else◌, arith, none, false, suc, true, ◌⊎◌, u32, ◌<◌,
  ◌^◌, inl, ap, ◌∙◌, sym, inr,
}
use coresight.CodeFollower.{
  AtmVal, FollowResult, followed, follow_single_atom, extend, take_atom, CodeFollower, atom_n,
  decode_single_op_code, atom_e, at_address, is_waypoint, waypoint_loop, follow_atom_waypoint,
  zero_result,
}

-- Where execution goes on behind an instruction, for the atom: none when the code does not tell
unfoldable pub next_after : AtmVal → InstrInfo → Option ℕ
next_after atom_n i = some (u64 (i.instr_addr + i.instr_size))
next_after atom_e i = elim i.typ [
  | instr_br ↦ some i.branch_addr
  | instr_br_indirect ↦ none
  | _ ↦ some (u64 (i.instr_addr + i.instr_size))
]

-- A report that agrees with its last instruction
abbrev pub Reports : AtmVal → FollowResult → Type 0
Reports atom r =
    (r.range_en ≡ u64 (r.instr_info.instr_addr + r.instr_info.instr_size))
    × ((if r.has_next then some r.next_addr else none) ≡ next_after atom r.instr_info)

module _ {ℓ} {M : Type ℓ} (memory_read : ℕ → ℕ → ℕ → ℕ → List ℕ → M → M × List ℕ × ℕ × Option Error)
    (id_decode : InstrInfo → InstrInfo × Option Error) where
  followed-Reports :
      (addr : ℕ) (atom : AtmVal) (i : InstrInfo) → Reports atom (followed addr atom i)
  unfolding followed take_atom next_after
  followed-Reports addr atom i = ground arith

  follow_single-Reports :
      (addr : ℕ) (atom : AtmVal) (cf : CodeFollower M)
      → let r = follow_single_atom memory_read id_decode addr atom cf in
        r.2 ≡ none → Reports atom r.1
  unfolding follow_single_atom
  follow_single-Reports addr atom cf = ground (
    arith,
    followed-Reports addr atom
        (decode_single_op_code memory_read id_decode (at_address addr cf.instr_info) cf.trace_id
          cf.mem_space cf).1,
  )

  extend-Reports :
      (atom : AtmVal) (start : ℕ) (out res : FollowResult)
      → Reports atom res
      → Reports atom (extend start out res)
  unfolding extend
  extend-Reports atom start out res h = ground arith

  abbrev pub single : ℕ → AtmVal → CodeFollower M → CodeFollower M × FollowResult × Option Error
  single addr atom cf = follow_single_atom memory_read id_decode addr atom cf

  -- The follower behind an instruction that is no waypoint
  abbrev pub passing : AtmVal → ℕ → CodeFollower M → CodeFollower M
  passing atom addr cf =
      let r = single addr atom cf in
      record (r.0) { instr_info = at_address r.1.range_en r.1.instr_info }

  -- `n` instructions that are decoded without an error, none of them a waypoint and each at the address
  -- where the one before it ends, lead from a follower at an address to `last` at `stop`.
  pub data Walk (atom : AtmVal) (last : CodeFollower M) (stop : ℕ)
      : CodeFollower M → ℕ → ℕ → Type ℓ where
    arrived : Walk atom last stop last stop 0
    passed :
        {cf : CodeFollower M} {addr n : ℕ}
        → (single addr atom cf).2 ≡ none
        → is_waypoint (single addr atom cf).1.instr_info.typ ≡ false
        → Walk atom last stop (passing atom addr cf) (single addr atom cf).1.range_en n
        → Walk atom last stop cf addr (suc n)

  loop-round :
      (rounds start : ℕ) (atom : AtmVal) (addr : ℕ) (out : FollowResult) (cf : CodeFollower M)
      (cf' : CodeFollower M) (out' : FollowResult)
      → waypoint_loop memory_read id_decode (suc rounds) start atom addr out cf
        ≡ some (cf', out', none)
      → let r = single addr atom cf in
        (r.2 ≡ none)
        × (((is_waypoint r.1.instr_info.typ ≡ true)
              × (out' ≡ extend start out r.1)
              × (cf'.instr_info ≡ r.1.instr_info))
            ⊎ ((is_waypoint r.1.instr_info.typ ≡ false)
                × (waypoint_loop memory_read id_decode rounds start atom r.1.range_en
                      (extend start out r.1)
                      (passing atom addr cf)
                    ≡ some (cf', out', none))))
  unfolding waypoint_loop
  loop-round rounds start atom addr out cf cf' out' h = ground arith

  -- The waypoint that a report is about: it is decoded behind `n` instructions of a walk.
  abbrev pub Reached : AtmVal → ℕ → ℕ → CodeFollower M → ℕ → CodeFollower M → FollowResult → Type ℓ
  Reached atom count start cf addr cf' out' =
      (last : CodeFollower M) × (stop : ℕ) × (n : ℕ) × Walk atom last stop cf addr n
      × ((single stop atom last).2 ≡ none)
      × (is_waypoint (single stop atom last).1.instr_info.typ ≡ true)
      × (out'.instr_info ≡ (single stop atom last).1.instr_info)
      × (cf'.instr_info ≡ (single stop atom last).1.instr_info)
      × (out'.num_instr ≡ u32 (count + suc n))
      × (out'.range_st ≡ start)
      × Reports atom out'

  -- What `extend` makes of the count and of the beginning
  abbrev Begun : ℕ → FollowResult → Type 0
  Begun start out = (out.num_instr < 2 ^ 32) × (0 < out.num_instr → out.range_st ≡ start)

  extend-Begun :
      (start : ℕ) (out res : FollowResult)
      → Begun start out
      → res.num_instr ≡ 1
      → let e = extend start out res in
        Begun start e
        × (e.range_st ≡ start)
        × (e.num_instr ≡ u32 (out.num_instr + 1))
        × (e.instr_info ≡ res.instr_info)
  unfolding extend
  extend-Begun start out res h k = ground arith

  loop-Reached :
      (rounds start : ℕ) (atom : AtmVal) (addr : ℕ) (out : FollowResult) (cf : CodeFollower M)
      (cf' : CodeFollower M) (out' : FollowResult)
      → Begun start out
      → waypoint_loop memory_read id_decode rounds start atom addr out cf ≡ some (cf', out', none)
      → Reached atom out.num_instr start cf addr cf' out'
  unfolding waypoint_loop
  loop-Reached zero start atom addr out cf cf' out' b h = absurd (ground (arith, h))
  loop-Reached (suc rounds) start atom addr out cf cf' out' b h =
      let round = loop-round rounds start atom addr out cf cf' out' h in
      let res = (single addr atom cf).1 in
      let e =
        extend-Begun start out res b
          ((follow_single-result memory_read id_decode addr atom cf).1 round.0) in
      elim round.1 [
        | inl (w, eo, ec) ↦ (
          cf,
          addr,
          0,
          arrived,
          round.0,
          w,
          ap (λ o. o.instr_info) eo ∙ e.3,
          ec,
          ap (λ o. o.num_instr) eo ∙ e.2,
          ap (λ o. o.range_st) eo ∙ e.1,
          subst (λ o. Reports atom o) (sym eo)
              (extend-Reports atom start out res (follow_single-Reports addr atom cf round.0)),
        )
        | inr (w, more) ↦
            let rest =
              loop-Reached rounds start atom res.range_en (extend start out res)
                (passing atom addr cf) cf' out' e.0 more in
            (
              rest.0,
              rest.1,
              suc rest.2,
              passed round.0 w rest.3,
              rest.4,
              rest.5,
              rest.6,
              rest.7,
              omega (arith, rest.8, e.2),
              rest.9,
              rest.10,
            )
      ]

  -- When followAtomWaypoint returns without an error, the instructions from the address on lead to a
  -- waypoint, each but that one no waypoint and each at the end of the one before it; the report counts
  -- them modulo 2 ^ 32, its range begins at the address and ends behind the waypoint, the waypoint is
  -- what the report and the follower keep, and the next address is what the waypoint and the atom tell.
  pub follow_atom_waypoint-Reached :
      (rounds addr : ℕ) (atom : AtmVal) (cf cf' : CodeFollower M) (out' : FollowResult)
      → follow_atom_waypoint memory_read id_decode rounds addr atom cf ≡ some (cf', out', none)
      → Reached atom 0 addr cf addr cf' out'
  unfolding follow_atom_waypoint
  follow_atom_waypoint-Reached rounds addr atom cf cf' out' h =
      loop-Reached rounds addr atom addr zero_result cf cf' out'
        (omega arith, λ k. absurd (omega (arith, k))) h

-- ===== src/ReturnStack.antt =====
-- idec_ret_stack.go: the stack of return addresses that a decoder keeps for calls, at most 16 deep.
-- The Go slice is a list with its oldest element first. A method returns the stack that it leaves.
pub mod Bounds
pub mod History
mod Examples
use coresight.Prelude.{
  ℕ, zero, suc, ◌-◌, ◌^◌, Bool, true, false, ◌&&◌, ◌||◌, not, List, [], ◌∷◌, ◌++◌, length, take,
  drop, get_or, ◌==◌, if◌then◌else◌,
}

pub record RetStackElement : Type 0 where
  pub ret_addr : ℕ  -- VAddr, a uint64
  pub ret_isa : ℕ  -- ISA, a uint32

abbrev pub ret_stack_cap : ℕ
ret_stack_cap = 16

pub record AddrReturnStack : Type 0 where
  pub active : Bool
  pub stack : List RetStackElement

-- ^uint64(0)
abbrev pub va_mask : ℕ
va_mask = 2 ^ 64 - 1

-- At capacity `copy(s.Stack, s.Stack[1:])` and the cut to 15 elements drop the oldest one.
pub push : AddrReturnStack → ℕ → ℕ → AddrReturnStack
push s addr isa =
    if not s.active
    then s
    else let kept = if length s.stack == ret_stack_cap then drop 1 s.stack else s.stack in
      record s { stack = kept ++ record { ret_addr = addr; ret_isa = isa } ∷ [] }

-- What `pop` returns: the address, the instruction set and whether there was an entry.
pub record Popped : Type 0 where
  pub addr : ℕ
  pub isa : ℕ
  pub ok : Bool

abbrev no_element : RetStackElement
no_element = record { ret_addr = 0; ret_isa = 0 }

pub pop : AddrReturnStack → AddrReturnStack × Popped
pop s =
    if not s.active || length s.stack == 0
    then (s, record { addr = va_mask; isa = 0; ok = false })
    else let top = length s.stack - 1 in
      let elem' = get_or s.stack top no_element in
      (
        record s { stack = take top s.stack },
        record { addr = elem'.ret_addr; isa = elem'.ret_isa; ok = true },
      )

pub flush : AddrReturnStack → AddrReturnStack
flush s = record s { stack = [] }

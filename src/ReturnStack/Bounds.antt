-- ===== src/ReturnStack/Bounds.antt =====
-- The stack never holds more than 16 return addresses.
use coresight.Prelude.{
  ℕ, ◌≤◌, arith, ◌-◌, [], ◌∷◌, length, length-append, length-drop, length-take, drop,
}
use coresight.ReturnStack.{AddrReturnStack, RetStackElement, ret_stack_cap, push, pop, flush}

abbrev pub IsBounded : AddrReturnStack → Type 0
IsBounded s = length s.stack ≤ ret_stack_cap

push-IsBounded : (s : AddrReturnStack) (addr isa : ℕ) → IsBounded s → IsBounded (push s addr isa)
unfolding push
push-IsBounded s addr isa h =
    let e : RetStackElement = record { ret_addr = addr; ret_isa = isa } in
    ground (
      arith,
      length-append s.stack (e ∷ []),
      length-append (drop 1 s.stack) (e ∷ []),
      length-drop 1 s.stack,
    )

pop-IsBounded : (s : AddrReturnStack) → IsBounded s → IsBounded (pop s).0
unfolding pop
pop-IsBounded s h = ground (arith, length-take (length s.stack - 1) s.stack)

-- Every operation keeps the stack within its capacity of 16, whether the stack is active or not.
pub ops-IsBounded :
    (s : AddrReturnStack) (addr isa : ℕ)
    → IsBounded s
    → IsBounded (push s addr isa) × IsBounded (pop s).0 × IsBounded (flush s)
unfolding flush
ops-IsBounded s addr isa h = (push-IsBounded s addr isa h, pop-IsBounded s h, omega arith)

-- ===== src/ReturnStack/Examples.antt =====
-- The theorems on the return stack at concrete stacks.
use coresight.Prelude.{◌≡◌, refl, arith, true, [], ◌∷◌, replicate}
use coresight.ReturnStack.{AddrReturnStack, RetStackElement, push, pop, flush}
use coresight.ReturnStack.Bounds.{IsBounded, ops-IsBounded}
use coresight.ReturnStack.History.{newest, push_all, drain, drain-push_all, pop-push}
use mathlib.Core.List.{reverse}

abbrev call : RetStackElement
call = record { ret_addr = 0x8000; ret_isa = 1 }

abbrev full : AddrReturnStack
full = record { active = true; stack = replicate 16 call }

ops-IsBounded_example :
    IsBounded (push full 0x9000 0) × IsBounded (pop full).0 × IsBounded (flush full)
ops-IsBounded_example = ops-IsBounded full 0x9000 0 (omega arith)

pop-push_example :
    pop (push full 0x9000 2)
    ≡ (record full { stack = newest 15 full.stack }, record { addr = 0x9000; isa = 2; ok = true })
pop-push_example = pop-push full 0x9000 2 refl (omega arith)

drain-push_all_example :
    drain 17 (push_all (record { active = true; stack = [] }) (call ∷ full.stack))
    ≡ reverse (newest 16 (call ∷ full.stack))
drain-push_all_example = drain-push_all (call ∷ full.stack)

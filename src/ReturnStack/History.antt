-- ===== src/ReturnStack/History.antt =====
-- The bounded stack against the whole history of calls: it is the newest 16 of all that was pushed.
use coresight.Prelude.{
  ℕ, zero, suc, ◌+◌, ◌-◌, ◌≤◌, ◌≡◌, refl, sym, ap, ◌∙◌, arith, true, false, ◌⊎◌, inl, inr, List, [],
  ◌∷◌, ◌++◌, append-nil, append_assoc, length, length-append, length-drop, length-take, take,
  take-append_front, take-last, get_or-append_next, drop, drop-append, drop-drop, get_or,
  if◌then◌else◌,
}
use coresight.ReturnStack.{AddrReturnStack, RetStackElement, no_element, push, pop}
use coresight.ReturnStack.Bounds.{IsBounded}
use mathlib.Core.List.{reverse, reverse-append}

-- The last `n` elements of a list, or all of a shorter one.
abbrev pub newest {ℓ} : {A : Type ℓ} → ℕ → List A → List A
newest n xs = drop (length xs - n) xs

abbrev pub push_all : AddrReturnStack → List RetStackElement → AddrReturnStack
push_all s [] = s
push_all s (e ∷ es) = push_all (push s e.ret_addr e.ret_isa) es

-- What a decoder gets that pops up to `n` times and stops at the first failure.
abbrev pub drain : ℕ → AddrReturnStack → List RetStackElement
drain zero s = []
drain (suc n) s =
    let (s', r) = pop s in
    let rest = drain n s' in
    if r.ok then record { ret_addr = r.addr; ret_isa = r.isa } ∷ rest else []

newest-append_newest {ℓ} :
    {A : Type ℓ} (n : ℕ) (xs ys : List A) → newest n (newest n xs ++ ys) ≡ newest n (xs ++ ys)
newest-append_newest n xs ys =
    ap (newest n) (sym (drop-append k xs ys (omega arith)))
    ∙ drop-drop _ k (xs ++ ys)
    ∙ ap (λ i. drop i (xs ++ ys)) same
  where
    k : ℕ
    k = length xs - n

    same : k + (length (drop k (xs ++ ys)) - n) ≡ length (xs ++ ys) - n
    same = omega (arith, length-drop k (xs ++ ys), length-append xs ys)

-- A push onto an active stack keeps the newest 16.
push-newest :
    (s : AddrReturnStack) (addr isa : ℕ)
    → s.active ≡ true
    → IsBounded s
    → push s addr isa
      ≡ record s { stack = newest 16 (s.stack ++ record { ret_addr = addr; ret_isa = isa } ∷ []) }
unfolding push
push-newest s addr isa on h =
    let e : RetStackElement = record { ret_addr = addr; ret_isa = isa } in
    ground (arith, length-append s.stack (e ∷ []), drop-append 1 s.stack (e ∷ []))

push_all-newest :
    (s : AddrReturnStack) (es : List RetStackElement)
    → s.active ≡ true
    → IsBounded s
    → push_all s es ≡ record s { stack = newest 16 (s.stack ++ es) }
push_all-newest s [] on h =
    ap (λ t. record s { stack = t }) (same ∙ ap (newest 16) (sym (append-nil s.stack)))
  where
    same : s.stack ≡ newest 16 s.stack
    same = let e : length s.stack - 16 ≡ 0 = omega arith in rw e
push_all-newest s (e ∷ es) on h = rw (push-newest s e.ret_addr e.ret_isa on h) (
    push_all-newest (record s { stack = newest 16 (s.stack ++ e ∷ []) }) es on
      (omega (arith, length-drop (length (s.stack ++ e ∷ []) - 16) (s.stack ++ e ∷ [])))
    ∙ ap (λ t. record s { stack = t })
        (newest-append_newest 16 (s.stack ++ e ∷ []) es
          ∙ ap (newest 16) (append_assoc s.stack (e ∷ []) es)))

pop-empty : (s : AddrReturnStack) → s.stack ≡ [] → (pop s).1.ok ≡ false
unfolding pop
pop-empty s h = ground arith

pop-last :
    (s : AddrReturnStack) (n : ℕ)
    → s.active ≡ true
    → length s.stack ≡ suc n
    → pop s ≡ (
      record s { stack = take n s.stack },
      record {
        addr = (get_or s.stack n no_element).ret_addr;
        isa = (get_or s.stack n no_element).ret_isa;
        ok = true;
      },
    )
unfolding pop
pop-last s n on h = let e : length s.stack - 1 ≡ n = omega arith in rw (on, e) (ground arith)

-- What an active stack pops, down to empty, is its content from the last element on.
drain-reverse :
    (n : ℕ) (s : AddrReturnStack)
    → s.active ≡ true
    → length s.stack ≤ n
    → drain n s ≡ reverse s.stack
drain-reverse zero s on h = ap reverse (sym (empty s.stack h))
  where
    empty : (xs : List RetStackElement) → length xs ≤ 0 → xs ≡ []
    empty [] h = refl
    empty (x ∷ xs) h = absurd (omega arith)
drain-reverse (suc n) s on h = elim (size_cases s.stack) [
  | inl e ↦ rw (pop-empty s e) (ap reverse (sym e))
  | inr (k, e) ↦ rw (pop-last s k on e) (
      ap (λ r. get_or s.stack k no_element ∷ r)
        (drain-reverse n (record s { stack = take k s.stack }) on
          (omega (arith, length-take k s.stack)))
      ∙ sym (reverse-append (take k s.stack) (get_or s.stack k no_element ∷ []))
      ∙ ap reverse (take-last s.stack no_element k e))
]
  where
    size_cases : (xs : List RetStackElement) → (xs ≡ []) ⊎ ((k : ℕ) × (length xs ≡ suc k))
    size_cases [] = inl refl
    size_cases (x ∷ xs) = inr (length xs, refl)

-- After any run of calls on an empty active stack, popping gives the addresses of the newest 16
-- calls, the newest first, and then fails.
pub drain-push_all :
    (es : List RetStackElement)
    → drain 17 (push_all (record { active = true; stack = [] }) es) ≡ reverse (newest 16 es)
drain-push_all es =
    let s : AddrReturnStack = record { active = true; stack = [] } in
    rw (push_all-newest s es refl (omega arith)) (
      drain-reverse 17 (record s { stack = newest 16 es }) refl
        (omega (arith, length-drop (length es - 16) es)))

push-snoc :
    (s : AddrReturnStack) (addr isa : ℕ)
    → s.active ≡ true
    → IsBounded s
    → push s addr isa
      ≡ record s { stack = newest 15 s.stack ++ record { ret_addr = addr; ret_isa = isa } ∷ [] }
unfolding push
push-snoc s addr isa on h = ground arith

pop-snoc :
    (s : AddrReturnStack) (xs : List RetStackElement) (e : RetStackElement)
    → s.active ≡ true
    → pop (record s { stack = xs ++ e ∷ [] })
      ≡ (record s { stack = xs }, record { addr = e.ret_addr; isa = e.ret_isa; ok = true })
pop-snoc s xs e on = rw (
  pop-last (record s { stack = xs ++ e ∷ [] }) (length xs) on
      (omega (arith, length-append xs (e ∷ []))),
  take-append_front xs (e ∷ []),
  get_or-append_next xs e no_element [],
)

-- On an active stack within its capacity a pop takes back the push before it: the same address and instruction set,
-- and the stack before the push, less its oldest element if it was full.
pub pop-push :
    (s : AddrReturnStack) (addr isa : ℕ)
    → s.active ≡ true
    → IsBounded s
    → pop (push s addr isa)
      ≡ (record s { stack = newest 15 s.stack }, record { addr = addr; isa = isa; ok = true })
pop-push s addr isa on h =
    rw (push-snoc s addr isa on h)
      (pop-snoc s (newest 15 s.stack) (record { ret_addr = addr; ret_isa = isa }) on)

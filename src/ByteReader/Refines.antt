-- ===== src/ByteReader/Refines.antt =====
-- Every sequence of calls on a byte reader as calls on the two sequences of bytes.
use mathlib.Core.Path.{subst}
use coresight.Prelude.{
  ℕ, zero, suc, ◌+◌, ◌-◌, ◌≡◌, refl, sym, ap, ◌∙◌, arith, List, [], ◌∷◌, ◌++◌, some, length, take,
  drop, inl, inr, ◌≤◌, append-nil, get_or, get_elem?, get_elem?-within, drop-get_elem?, length-drop,
  ◌<◌, append_assoc, Bool-cases, length-take, ltb, drop-append_front, drop-take, false, ltb→le, leb,
  le→ltb, Option-cases, drop_past, ◌==◌,
}
use coresight.ByteReader.{
  ByteReader, scratch_bytes, append_scratch, read_bytes, take_in, reset, feed, write_scratch,
  discard_scratch_prefix, discard_inner, copy, read_byte_raw, peek,
}
use coresight.ByteReader.Content.{
  IsWf, Plain, append_scratch-content, append_scratch-block, length-scratch_bytes,
  scratch_bytes_inner, copied, take-copy,
}
use coresight.ByteReader.Steps.{
  Op, op_feed, op_read, op_raw, op_peek, op_retry, op_reset, op_read_bytes, op_write, op_discard,
  Steps, IsAllowed, view, read_byte-Steps, op_retry-Steps, moved-IsWf, at_end, placed-IsWf,
  reset-IsWf,
}

take_in-content :
    (growth : ℕ → ℕ) (n : ℕ) (r : ByteReader)
    → IsWf r
    → r.off + n ≤ length r.block
    → let r' = take_in growth n r in
      IsWf r'
      × (scratch_bytes r' ≡ scratch_bytes r ++ take n (drop r.off r.block))
      × (drop r'.off r'.block ≡ drop n (drop r.off r.block))
unfolding take_in
take_in-content growth zero r wf h = (wf, sym (append-nil (scratch_bytes r)), refl)
take_in-content growth (suc n) r wf h =
    let b = get_or r.block r.off 0 in
    let e : get_elem? r.block r.off ≡ some b =
      get_elem?-within r.block r.off 0 (omega (arith, h)) in
    let s = append_scratch growth b r in
    let (wf1, c) = append_scratch-content growth b r wf in
    let (bl, o, _) = append_scratch-block growth b r in
    let e1 : get_elem? s.block s.off ≡ some b = ground (arith, e, bl, o) in
    let r' : ByteReader = record s { off = suc s.off } in
    let (wf2, same) = moved-IsWf s b wf1 e1 in
    let room : suc s.off + n ≤ length s.block = ground (arith, h, bl, o) in
    let (wf3, all, rest) = take_in-content growth n r' wf2 room in
    let head : drop r.off r.block ≡ b ∷ drop (suc r.off) r.block =
      drop-get_elem? r.block r.off b e in
    let tail : drop (suc s.off) s.block ≡ drop (suc r.off) r.block =
      ap (λ (x : List ℕ). drop (suc s.off) x) bl ∙ ap (λ (k : ℕ). drop (suc k) r.block) o in
    let joined : (scratch_bytes r ++ b ∷ []) ++ take n (drop (suc r.off) r.block)
        ≡ scratch_bytes r ++ b ∷ take n (drop (suc r.off) r.block) =
      append_assoc (scratch_bytes r) (b ∷ []) (take n (drop (suc r.off) r.block)) in
    (wf3, ground (arith, all, same, c, tail, joined, head), ground (arith, rest, tail, head))

op_read_bytes-Steps :
    (growth : ℕ → ℕ) (n : ℕ) (r : ByteReader) → IsWf r → Steps growth (op_read_bytes n) r
unfolding read_bytes
op_read_bytes-Steps growth n r wf =
    let m = length-drop r.off r.block in
    elim (Bool-cases (ltb (length r.block) (r.off + n))) [
      | inl e ↦ ground (arith, m, wf.within, e)
      | inr e ↦
          let k : r.off + n ≤ length r.block = ltb→le (length r.block) (r.off + n) e in
          let (wf', all, rest) = take_in-content growth n r wf k in
          let len = length-scratch_bytes r wf in
          let out : drop r.scratch_len (scratch_bytes r ++ take n (drop r.off r.block))
              ≡ take n (drop r.off r.block) =
            subst
              (λ (k : ℕ).
                drop k (scratch_bytes r ++ take n (drop r.off r.block))
                ≡ take n (drop r.off r.block))
              len (drop-append_front (scratch_bytes r) (take n (drop r.off r.block))) in
          let f : ltb (length (drop r.off r.block)) n ≡ false =
            le→ltb (length (drop r.off r.block)) n (omega (arith, m, k)) in
          let shown : drop r.scratch_len (scratch_bytes (take_in growth n r))
              ≡ take n (drop r.off r.block) =
            ap (λ (l : List ℕ). drop r.scratch_len l) all ∙ out in
          rw (e, f) (wf', λ i. (record { content = all i; rest = rest i }, some (shown i)))
    ]

discard_inner-content :
    (n : ℕ) (r : ByteReader)
    → IsWf r
    → Plain r
    → n < r.scratch_len
    → let r' = discard_inner n r in IsWf r' × (scratch_bytes r' ≡ drop n (scratch_bytes r))
unfolding discard_inner
discard_inner-content n r wf p h =
    let left = r.scratch_len - n in
    let kept = take left (drop n r.scratch) in
    let m : length kept ≡ left =
      omega
        (arith, length-take left (drop n r.scratch), length-drop n r.scratch, wf.inner, p.short) in
    let same : length (copy r.scratch kept) ≡ length r.scratch =
      copied r.scratch kept (omega (arith, m, wf.inner, p.short)) in
    let front : take left (copy r.scratch kept) ≡ kept =
      subst (λ (k : ℕ). take k (copy r.scratch kept) ≡ kept) m (take-copy r.scratch kept) in
    let r' : ByteReader = record r { scratch = copy r.scratch kept; scratch_len = left } in
    let wf' : IsWf r' = ground (arith, wf.inner, wf.room, wf.within, p, same) in
    let cut = drop-take n r.scratch_len r.scratch (omega (arith, h)) in
    (
      wf',
      scratch_bytes_inner r' p.empty
          ∙ front
          ∙ sym cut
          ∙ ap (λ (l : List ℕ). drop n l) (sym (scratch_bytes_inner r p.empty)),
    )

reset-place : (r : ByteReader) → ((reset r).block ≡ r.block) × ((reset r).off ≡ r.off)
unfolding reset
reset-place r = (refl, refl)

discard_inner-place :
    (n : ℕ) (r : ByteReader)
    → ((discard_inner n r).block ≡ r.block) × ((discard_inner n r).off ≡ r.off)
unfolding discard_inner
discard_inner-place n r = (refl, refl)

op_raw-Steps : (growth : ℕ → ℕ) (r : ByteReader) → IsWf r → Steps growth op_raw r
unfolding read_byte_raw
op_raw-Steps growth r wf = elim (Option-cases (get_elem? r.block r.off)) [
  | inl e ↦ ground (arith, at_end r e)
  | inr (b, e) ↦ ground (arith, moved-IsWf r b wf e, drop-get_elem? r.block r.off b e)
]

op_peek-Steps : (growth : ℕ → ℕ) (r : ByteReader) → IsWf r → Steps growth op_peek r
unfolding peek
op_peek-Steps growth r wf = elim (Option-cases (get_elem? r.block r.off)) [
  | inl e ↦ ground (arith, wf, at_end r e)
  | inr (b, e) ↦ ground (arith, wf, drop-get_elem? r.block r.off b e)
]

op_discard-Steps :
    (growth : ℕ → ℕ) (n : ℕ) (r : ByteReader)
    → IsWf r
    → IsAllowed (op_discard n) (view r)
    → Steps growth (op_discard n) r
unfolding discard_scratch_prefix
op_discard-Steps growth n r wf h =
    let m = length-scratch_bytes r wf in
    elim (Bool-cases (leb r.scratch_len n)) [
      | inl e ↦
          let gone : drop n (scratch_bytes r) ≡ [] =
            drop_past (scratch_bytes r) n (ground (arith, m, e)) in
          elim (Bool-cases (n == 0)) [
            | inl z ↦ ground (arith, z, wf)
            | inr z ↦ ground (arith, z, e, gone, reset-IsWf r wf, reset-place r)
          ]
      | inr e ↦ elim wf.mode [
        | inl p ↦
            let (wf', c) = discard_inner-content n r wf p (ground (arith, e)) in
            elim (Bool-cases (n == 0)) [
              | inl z ↦ ground (arith, z, wf)
              | inr z ↦ ground (arith, z, e, p.empty, wf', c, discard_inner-place n r)
            ]
        | inr x ↦ absurd (ground (arith, m, x.long, h, e))
      ]
    ]

-- Any call
pub step-Steps :
    (growth : ℕ → ℕ) (op : Op) (r : ByteReader) → IsWf r → IsAllowed op (view r) → Steps growth op r
unfolding feed write_scratch
step-Steps growth (op_feed block) r wf h = ground (arith, placed-IsWf r block 0 wf (omega arith))
step-Steps growth op_read r wf h = read_byte-Steps growth r wf
step-Steps growth op_raw r wf h = op_raw-Steps growth r wf
step-Steps growth op_peek r wf h = op_peek-Steps growth r wf
step-Steps growth op_retry r wf h = op_retry-Steps growth r wf
step-Steps growth op_reset r wf h = ground (arith, reset-IsWf r wf, reset-place r)
step-Steps growth (op_read_bytes n) r wf h = op_read_bytes-Steps growth n r wf
step-Steps growth (op_write b) r wf h =
    ground (arith, append_scratch-content growth b r wf, append_scratch-block growth b r)
step-Steps growth (op_discard n) r wf h = op_discard-Steps growth n r wf h

-- ===== src/ByteReader/Steps.antt =====
-- Each operation of the byte reader as an operation on two sequences: the bytes of the packet so
-- far, and the bytes of the block that are still to be read.
use mathlib.Core.Path.{subst}
use coresight.Prelude.{
  ℕ, suc, ◌-◌, ◌≡◌, refl, sym, arith, List, [], ◌∷◌, ◌++◌, Option, none, some, Option-cases, length,
  take, drop, get_elem?, inl, inr, drop-get_elem?, ltb, if◌then◌else◌, ◌<◌, ◌⊎◌, length-drop, ◌≤◌,
  ap, drop_past, get_elem?-none, take-take, take-append_front,
}
use coresight.ByteReader.{
  Slice, ByteReader, scratch_cap, scratch_bytes, append_scratch, read_byte, read_byte_raw, peek,
  unread_byte, read_bytes, reset, feed, write_scratch, discard_scratch_prefix,
}
use coresight.ByteReader.Content.{
  IsWf, Plain, append_scratch-content, append_scratch-block, length-scratch_bytes,
  scratch_bytes_inner, scratch_bytes_ext, append_scratch-mode,
}

-- The calls, a ReadByte with the UnreadByte behind it as one.
pub data Op : Type 0 where
  op_feed : List ℕ → Op
  op_read op_raw op_peek op_retry op_reset : Op
  op_read_bytes op_write op_discard : ℕ → Op

abbrev pub bytes_of : Option ℕ → Option (List ℕ)
bytes_of none = none
bytes_of (some b) = some (b ∷ [])

-- The reader that a call leaves and the bytes that it returns.
abbrev pub step : (ℕ → ℕ) → Op → ByteReader → ByteReader × Option (List ℕ)
step growth (op_feed block) r = (feed block r, none)
step growth op_read r = let (r', b) = read_byte growth r in (r', bytes_of b)
step growth op_raw r = let (r', b) = read_byte_raw r in (r', bytes_of b)
step growth op_peek r = (r, bytes_of (peek r))
step growth op_retry r =
    let (r', b) = read_byte growth r in
    elim b [ none ↦ (r', none) | some c ↦ ((unread_byte r').0, some (c ∷ [])) ]
step growth op_reset r = (reset r, none)
step growth (op_read_bytes n) r = read_bytes growth n r
step growth (op_write b) r = (write_scratch growth b r, none)
step growth (op_discard n) r = (discard_scratch_prefix n r, none)

pub record View : Type 0 where
  pub content : List ℕ
  pub rest : List ℕ

abbrev pub view : ByteReader → View
view r = record { content = scratch_bytes r; rest = drop r.off r.block }

abbrev pub view_step : Op → View → View × Option (List ℕ)
view_step (op_feed block) v = (record v { rest = block }, none)
view_step op_read v = elim v.rest [
  | [] ↦ (v, none)
  | b ∷ bs ↦ (record { content = v.content ++ b ∷ []; rest = bs }, some (b ∷ []))
]
view_step op_raw v = elim v.rest [
  | [] ↦ (v, none)
  | b ∷ bs ↦ (record v { rest = bs }, some (b ∷ []))
]
view_step op_peek v = elim v.rest [ [] ↦ (v, none) | b ∷ bs ↦ (v, some (b ∷ [])) ]
view_step op_retry v = elim v.rest [ [] ↦ (v, none) | b ∷ bs ↦ (v, some (b ∷ [])) ]
view_step op_reset v = (record v { content = [] }, none)
view_step (op_read_bytes n) v = if ltb (length v.rest) n then (v, none) else (
  record { content = v.content ++ take n v.rest; rest = drop n v.rest },
  some (take n v.rest),
)
view_step (op_write b) v = (record v { content = v.content ++ b ∷ [] }, none)
view_step (op_discard n) v = (record v { content = drop n v.content }, none)

-- A prefix is discarded from less than 64 bytes, or nothing is left.
abbrev pub IsAllowed : Op → View → Type 0
IsAllowed (op_discard n) v = (length v.content < scratch_cap) ⊎ (length v.content ≤ n)
IsAllowed _ v = Unit

abbrev pub Steps : (ℕ → ℕ) → Op → ByteReader → Type 0
Steps growth op r =
    let (r', out) = step growth op r in IsWf r' × ((view r', out) ≡ view_step op (view r))

pub passed : (xs : List ℕ) (i b : ℕ) → get_elem? xs i ≡ some b → i < length xs
passed xs i b e =
    omega (arith, length-drop i xs, ap (λ (l : List ℕ). length l) (drop-get_elem? xs i b e))

-- The reader at another place of a block
pub placed-IsWf :
    (r : ByteReader) (block : List ℕ) (off : ℕ)
    → IsWf r
    → off ≤ length block
    → let r' : ByteReader = record r { block = block; off = off } in
      IsWf r' × (scratch_bytes r' ≡ scratch_bytes r)
unfolding scratch_bytes
placed-IsWf r block off wf h = elim wf.mode [
  | inl p ↦ ground (arith, wf.inner, wf.room, p)
  | inr x ↦ ground (arith, wf.inner, wf.room, x)
]

-- One byte further in the block
pub moved-IsWf :
    (r : ByteReader) (b : ℕ)
    → IsWf r
    → get_elem? r.block r.off ≡ some b
    → let r' : ByteReader = record r { off = suc r.off } in
      IsWf r' × (scratch_bytes r' ≡ scratch_bytes r)
moved-IsWf r b wf e = placed-IsWf r r.block (suc r.off) wf (passed r.block r.off b e)

pub reset-IsWf : (r : ByteReader) → IsWf r → IsWf (reset r) × (scratch_bytes (reset r) ≡ [])
unfolding reset scratch_bytes
reset-IsWf r wf = ground (arith, wf.inner, wf.within, wf.room)

pub at_end : (r : ByteReader) → get_elem? r.block r.off ≡ none → drop r.off r.block ≡ []
at_end r e = drop_past r.block r.off (get_elem?-none r.block r.off e)

pub read_byte-Steps : (growth : ℕ → ℕ) (r : ByteReader) → IsWf r → Steps growth op_read r
unfolding read_byte
read_byte-Steps growth r wf = elim (Option-cases (get_elem? r.block r.off)) [
  | inl e ↦ ground (arith, at_end r e)
  | inr (b, e) ↦
      let r' : ByteReader = record r { off = suc r.off } in
      let (wf', same) = moved-IsWf r b wf e in
      ground (
        arith,
        append_scratch-content growth b r' wf',
        append_scratch-block growth b r',
        same,
        drop-get_elem? r.block r.off b e,
      )
]

-- What UnreadByte leaves, with the extension cut when it shows the byte.
unread_byte_cut :
    (r : ByteReader) (s : Slice)
    → 1 ≤ r.off
    → 1 ≤ r.scratch_len
    → (if ltb (r.scratch_len - 1) r.ext.len
        then record { backing = r.ext.backing; len = r.scratch_len - 1 }
        else r.ext)
      ≡ s
    → (unread_byte r).0 ≡ record r { off = r.off - 1; scratch_len = r.scratch_len - 1; ext = s }
unfolding unread_byte
unread_byte_cut r s off len e = ground (arith, e)

abbrev TookBack : ByteReader → ByteReader → Type 0
TookBack r r' =
    IsWf r'
    × (scratch_bytes r' ≡ take (r.scratch_len - 1) (scratch_bytes r))
    × (r'.block ≡ r.block)
    × (r'.off ≡ r.off - 1)

unread_byte-TookBack :
    (r : ByteReader)
    → IsWf r
    → Plain r ⊎ (scratch_cap < r.scratch_len)
    → 1 ≤ r.off
    → 1 ≤ r.scratch_len
    → TookBack r (unread_byte r).0
unread_byte-TookBack r wf m off len =
    let left = r.scratch_len - 1 in
    let inner = take-take left r.scratch_len r.scratch (omega arith) in
    let outer = take-take left r.scratch_len r.ext.backing (omega arith) in
    elim wf.mode [
      | inl p ↦
          let r' : ByteReader = record r { off = r.off - 1; scratch_len = left } in
          let wf' : IsWf r' = ground (arith, wf.inner, wf.room, wf.within, p) in
          subst (λ (q : ByteReader). TookBack r q)
            (sym (unread_byte_cut r r.ext off len (ground (arith, p))))
            (
              wf',
              ground (arith, p, scratch_bytes_inner r, scratch_bytes_inner r', inner),
              refl,
              refl,
            )
      | inr x ↦ elim m [
        | inl p ↦ absurd (omega (arith, x.same, x.long, p.empty))
        | inr k ↦
            let s : Slice = record { backing = r.ext.backing; len = left } in
            let r' : ByteReader = record r { off = r.off - 1; scratch_len = left; ext = s } in
            let wf' : IsWf r' = ground (arith, wf.inner, wf.room, wf.within, x, k) in
            subst (λ (q : ByteReader). TookBack r q)
              (sym (unread_byte_cut r s off len (ground (arith, x, len))))
              (
                wf',
                ground (arith, x, k, scratch_bytes_ext r, scratch_bytes_ext r', outer),
                refl,
                refl,
              )
      ]
    ]

pub op_retry-Steps : (growth : ℕ → ℕ) (r : ByteReader) → IsWf r → Steps growth op_retry r
unfolding read_byte
op_retry-Steps growth r wf = elim (Option-cases (get_elem? r.block r.off)) [
  | inl e ↦ ground (arith, at_end r e)
  | inr (b, e) ↦
      let r' : ByteReader = record r { off = suc r.off } in
      let (wf', same) = moved-IsWf r b wf e in
      let s = append_scratch growth b r' in
      let (wf2, c) = append_scratch-content growth b r' wf' in
      let (bl, o, n) = append_scratch-block growth b r' in
      let u =
        unread_byte-TookBack s wf2 (append_scratch-mode growth b r' wf') (omega (arith, o))
          (omega (arith, n)) in
      let back : take r.scratch_len (scratch_bytes r ++ b ∷ []) ≡ scratch_bytes r =
        subst (λ (k : ℕ). take k (scratch_bytes r ++ b ∷ []) ≡ scratch_bytes r)
          (length-scratch_bytes r wf) (take-append_front (scratch_bytes r) (b ∷ [])) in
      ground (arith, u, c, bl, o, n, same, back, drop-get_elem? r.block r.off b e)
]

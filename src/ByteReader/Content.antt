-- ===== src/ByteReader/Content.antt =====
-- What a byte reader holds: the scratch bytes and the unread rest of its block, under the invariant
-- that ties the scratch buffer to its extension.
use mathlib.Core.Path.{subst}
use coresight.Prelude.{
  ℕ, suc, ◌≤◌, ◌<◌, ◌≡◌, sym, ap, ◌∙◌, arith, List, [], ◌∷◌, ◌++◌, false, ltb, ltb→lt, ltb→le,
  Bool-cases, ◌⊎◌, inl, inr, length, set, take, drop, length-append, length-take, length-drop,
  length-set, take-set_next, take-append_front, take_past, ◌==◌, refl, le→ltb,
}
use coresight.ByteReader.{
  Slice, ByteReader, scratch_cap, scratch_bytes, append, copy, base_ext, append_scratch,
  fresh_backing,
}
use coresight.ByteReader.Slices.{Extends, append-Extends}

-- The packet fits the scratch buffer, and the extension shows nothing.
pub record Plain (r : ByteReader) : Type 0 where
  pub empty : r.ext.len ≡ 0
  pub short : r.scratch_len ≤ scratch_cap

-- The packet stands in the extension, and its first 64 bytes in the scratch buffer too.
pub record Extended (r : ByteReader) : Type 0 where
  pub same : r.ext.len ≡ r.scratch_len
  pub fits : r.scratch_len ≤ length r.ext.backing
  pub long : scratch_cap ≤ r.scratch_len
  pub held : take scratch_cap r.ext.backing ≡ r.scratch

pub record IsWf (r : ByteReader) : Type 0 where
  pub inner : length r.scratch ≡ scratch_cap
  pub within : r.off ≤ length r.block
  pub room : (length r.ext.backing ≡ 0) ⊎ (scratch_cap ≤ length r.ext.backing)
  pub mode : Plain r ⊎ Extended r

pub scratch_bytes_ext :
    (r : ByteReader) → 1 ≤ r.ext.len → scratch_bytes r ≡ take r.scratch_len r.ext.backing
unfolding scratch_bytes
scratch_bytes_ext r h = ground arith

pub scratch_bytes_inner :
    (r : ByteReader) → r.ext.len ≡ 0 → scratch_bytes r ≡ take r.scratch_len r.scratch
unfolding scratch_bytes
scratch_bytes_inner r h = ground arith

-- A slice that shows what the reader has so far.
record Shows (r : ByteReader) (s : Slice) : Type 0 where
  same : s.len ≡ r.scratch_len
  fits : s.len ≤ length s.backing
  held : take scratch_cap s.backing ≡ r.scratch
  shows : take s.len s.backing ≡ scratch_bytes r

pub copied : (xs ys : List ℕ) → length ys ≤ length xs → length (copy xs ys) ≡ length xs
unfolding copy
copied xs ys h = omega (arith, length-append ys (drop (length ys) xs), length-drop (length ys) xs)

pub take-copy : (xs ys : List ℕ) → take (length ys) (copy xs ys) ≡ ys
unfolding copy
take-copy xs ys = take-append_front ys (drop (length ys) xs)

-- At just 64 bytes the scratch buffer is the content.
full_bytes : (r : ByteReader) → IsWf r → r.scratch_len ≡ scratch_cap → scratch_bytes r ≡ r.scratch
full_bytes r wf e = elim wf.mode [
  | inl p ↦
      let all : take r.scratch_len r.scratch ≡ r.scratch =
        take_past r.scratch_len r.scratch (omega (arith, wf.inner, e)) in
      scratch_bytes_inner r p.empty ∙ all
  | inr x ↦
      let at : take r.scratch_len r.ext.backing ≡ r.scratch =
        ap (λ (k : ℕ). take k r.ext.backing) e ∙ x.held in
      scratch_bytes_ext r (omega (arith, x.same, e)) ∙ at
]

copied-Shows :
    (r : ByteReader) (xs : List ℕ)
    → IsWf r
    → r.scratch_len ≡ scratch_cap
    → scratch_cap ≤ length xs
    → Shows r (record { backing = copy xs r.scratch; len = scratch_cap })
copied-Shows r xs wf e h =
    let n : length (copy xs r.scratch) ≡ length xs =
      copied xs r.scratch (omega (arith, wf.inner, h)) in
    let kept : take scratch_cap (copy xs r.scratch) ≡ r.scratch =
      subst (λ (k : ℕ). take k (copy xs r.scratch) ≡ r.scratch) wf.inner (take-copy xs r.scratch) in
    let full : scratch_bytes r ≡ r.scratch = full_bytes r wf e in
    record { same = sym e; fits = omega (arith, n, h); held = kept; shows = kept ∙ sym full }

length-fresh_backing : length fresh_backing ≡ 128
unfolding fresh_backing
length-fresh_backing = refl

base_ext-Shows : (r : ByteReader) → IsWf r → scratch_cap ≤ r.scratch_len → Shows r (base_ext r)
unfolding base_ext
base_ext-Shows r wf h =
    let full = Bool-cases (r.scratch_len == scratch_cap) in
    elim (Bool-cases (ltb 0 (length r.ext.backing))) [
      | inl e ↦ elim full [
        | inl f ↦
            let at : r.scratch_len ≡ scratch_cap = ground (arith, f) in
            let room : scratch_cap ≤ length r.ext.backing = ground (arith, wf.room, e) in
            ground (arith, copied-Shows r r.ext.backing wf at room, e, f)
        | inr f ↦ elim wf.mode [
          | inl p ↦ absurd (ground (arith, p.short, f, h))
          | inr x ↦
              let ends : r.ext.len ≤ length r.ext.backing = omega (arith, x.same, x.fits) in
              let cut : take r.ext.len r.ext.backing ≡ scratch_bytes r =
                ap (λ (k : ℕ). take k r.ext.backing) x.same
                ∙ sym (scratch_bytes_ext r (omega (arith, x.same, h))) in
              let kept : Shows r r.ext = record {
                same = x.same;
                fits = ends;
                held = x.held;
                shows = cut;
              } in
              ground (arith, kept, e, f)
        ]
      ]
      | inr e ↦ elim wf.mode [
        | inl p ↦
            let at : r.scratch_len ≡ scratch_cap = omega (arith, p.short, h) in
            ground
              (arith, copied-Shows r fresh_backing wf at (omega (arith, length-fresh_backing)), e)
        | inr x ↦ absurd (ground (arith, x.fits, x.long, e))
      ]
    ]

extended :
    (r : ByteReader) (s s' : Slice) (b : ℕ)
    → IsWf r
    → scratch_cap ≤ r.scratch_len
    → Shows r s
    → Extends s s' b
    → let r' : ByteReader = record r { ext = s'; scratch_len = suc r.scratch_len } in
      IsWf r' × (scratch_bytes r' ≡ scratch_bytes r ++ b ∷ [])
extended r s s' b wf h has x =
    let r' : ByteReader = record r { ext = s'; scratch_len = suc r.scratch_len } in
    let same : s'.len ≡ suc r.scratch_len = x.longer ∙ ap suc has.same in
    let fits : suc r.scratch_len ≤ length s'.backing = omega (arith, x.fits, same) in
    let held : take scratch_cap s'.backing ≡ r.scratch =
      x.keeps scratch_cap (omega (arith, h, has.same)) ∙ has.held in
    let now : Extended r' = record {
      same = same;
      fits = fits;
      long = omega (arith, h);
      held = held;
    } in
    let wf' : IsWf r' = record {
      inner = wf.inner;
      within = wf.within;
      room = inr (omega (arith, fits, h));
      mode = inr now;
    } in
    let shown : take (suc r.scratch_len) s'.backing ≡ scratch_bytes r ++ b ∷ [] =
      ap (λ (k : ℕ). take k s'.backing) (sym same)
      ∙ x.shows
      ∙ ap (λ (l : List ℕ). l ++ b ∷ []) has.shows in
    (wf', scratch_bytes_ext r' (omega (arith, same)) ∙ shown)

append_scratch-past :
    (growth : ℕ → ℕ) (b : ℕ) (r : ByteReader)
    → scratch_cap ≤ r.scratch_len
    → append_scratch growth b r
      ≡ record r { ext = append growth (base_ext r) b; scratch_len = suc r.scratch_len }
unfolding append_scratch
append_scratch-past growth b r h =
    let e : ltb r.scratch_len scratch_cap ≡ false = le→ltb r.scratch_len scratch_cap h in rw e

append_scratch-outer :
    (growth : ℕ → ℕ) (b : ℕ) (r : ByteReader)
    → IsWf r
    → scratch_cap ≤ r.scratch_len
    → let r' = append_scratch growth b r in IsWf r' × (scratch_bytes r' ≡ scratch_bytes r ++ b ∷ [])
append_scratch-outer growth b r wf h =
    let s = base_ext r in
    let has : Shows r s = base_ext-Shows r wf h in
    let x = append-Extends growth s b has.fits in
    subst (λ (q : ByteReader). IsWf q × (scratch_bytes q ≡ scratch_bytes r ++ b ∷ []))
      (sym (append_scratch-past growth b r h)) (extended r s (append growth s b) b wf h has x)

append_scratch-inner :
    (growth : ℕ → ℕ) (b : ℕ) (r : ByteReader)
    → IsWf r
    → Plain r
    → r.scratch_len < scratch_cap
    → let r' = append_scratch growth b r in IsWf r' × (scratch_bytes r' ≡ scratch_bytes r ++ b ∷ [])
unfolding append_scratch
append_scratch-inner growth b r wf p h =
    let lt : r.scratch_len < length r.scratch = omega (arith, wf.inner) in
    let r' : ByteReader = record r {
      scratch = set r.scratch r.scratch_len b;
      scratch_len = suc r.scratch_len;
    } in
    ground (
      arith,
      wf,
      p,
      scratch_bytes_inner r,
      scratch_bytes_inner r',
      length-set r.scratch r.scratch_len b,
      take-set_next r.scratch r.scratch_len b lt,
    )

pub append_scratch-content :
    (growth : ℕ → ℕ) (b : ℕ) (r : ByteReader)
    → IsWf r
    → let r' = append_scratch growth b r in IsWf r' × (scratch_bytes r' ≡ scratch_bytes r ++ b ∷ [])
append_scratch-content growth b r wf = elim (Bool-cases (ltb r.scratch_len scratch_cap)) [
  | inr e ↦ append_scratch-outer growth b r wf (ltb→le r.scratch_len scratch_cap e)
  | inl e ↦ elim wf.mode [
    | inl p ↦ append_scratch-inner growth b r wf p (ltb→lt r.scratch_len scratch_cap e)
    | inr x ↦ absurd (ground (arith, e, x.long))
  ]
]

pub append_scratch-block :
    (growth : ℕ → ℕ) (b : ℕ) (r : ByteReader)
    → let r' = append_scratch growth b r in
      (r'.block ≡ r.block) × (r'.off ≡ r.off) × (r'.scratch_len ≡ suc r.scratch_len)
unfolding append_scratch
append_scratch-block growth b r = ground arith

pub length-scratch_bytes : (r : ByteReader) → IsWf r → length (scratch_bytes r) ≡ r.scratch_len
length-scratch_bytes r wf = elim wf.mode [
  | inl p ↦
      let n : length (take r.scratch_len r.scratch) ≡ r.scratch_len =
        omega (arith, length-take r.scratch_len r.scratch, wf.inner, p.short) in
      ap (λ (l : List ℕ). length l) (scratch_bytes_inner r p.empty) ∙ n
  | inr x ↦
      let n : length (take r.scratch_len r.ext.backing) ≡ r.scratch_len =
        omega (arith, length-take r.scratch_len r.ext.backing, x.fits) in
      ap (λ (l : List ℕ). length l) (scratch_bytes_ext r (omega (arith, x.same, x.long))) ∙ n
]

append_scratch-Plain :
    (growth : ℕ → ℕ) (b : ℕ) (r : ByteReader)
    → Plain r
    → r.scratch_len < scratch_cap
    → Plain (append_scratch growth b r)
unfolding append_scratch
append_scratch-Plain growth b r p h = ground (arith, p)

-- A byte that was just appended can be taken back.
pub append_scratch-mode :
    (growth : ℕ → ℕ) (b : ℕ) (r : ByteReader)
    → IsWf r
    → let r' = append_scratch growth b r in Plain r' ⊎ (scratch_cap < r'.scratch_len)
append_scratch-mode growth b r wf =
    let (_, _, n) = append_scratch-block growth b r in
    elim (Bool-cases (ltb r.scratch_len scratch_cap)) [
      | inr e ↦ inr (ground (arith, n, e))
      | inl e ↦ elim wf.mode [
        | inl p ↦ inl (append_scratch-Plain growth b r p (ltb→lt r.scratch_len scratch_cap e))
        | inr x ↦ absurd (ground (arith, e, x.long))
      ]
    ]

-- ===== src/ByteReader/Discard.antt =====
-- DiscardScratchPrefix on a packet that stands in the extension.
use coresight.Prelude.{
  ℕ, suc, ◌-◌, ◌≤◌, ◌≡◌, sym, ap, ◌∙◌, List, [], ◌∷◌, ◌++◌, ◌<◌, take, drop, get_or, arith, refl,
  length, drop-take, length-take, get_or-take, length-drop, ◌+◌, take-drop_one, take-append_beyond,
}
use coresight.ByteReader.{
  ByteReader, scratch_cap, scratch_bytes, append_scratch, write_scratch, discard_scratch_prefix,
  discard_ext, copy,
}
use coresight.ByteReader.Content.{IsWf, Extended, scratch_bytes_ext}

discard_ext-backing :
    (n : ℕ) (r : ByteReader)
    → Extended r
    → 1 ≤ n
    → n < r.scratch_len
    → let left = r.scratch_len - n in
      take (suc left) (discard_ext n r).ext.backing
      ≡ take left (drop n r.ext.backing) ++ get_or r.ext.backing left 0 ∷ []
unfolding discard_ext copy
discard_ext-backing n r x pos h =
    let left = r.scratch_len - n in
    let kept = take left (drop n r.ext.backing) in
    let m : length kept ≡ left =
      omega (arith, length-take left (drop n r.ext.backing), length-drop n r.ext.backing, x.fits) in
    let shift : suc left ≡ length kept + 1 = omega (arith, m) in
    let behind : drop (length kept) r.ext.backing ≡ drop left r.ext.backing =
      ap (λ (k : ℕ). drop k r.ext.backing) m in
    let last = take-drop_one r.ext.backing left 0 (omega (arith, x.fits, x.long, h, pos)) in
    ap (λ (k : ℕ). take k (copy r.ext.backing kept)) shift
    ∙ take-append_beyond 1 kept (drop (length kept) r.ext.backing)
    ∙ ap (λ (l : List ℕ). kept ++ take 1 l) behind
    ∙ ap (λ (l : List ℕ). kept ++ l) last

discard_scratch_prefix-ext :
    (n : ℕ) (r : ByteReader)
    → Extended r
    → 1 ≤ n
    → n < r.scratch_len
    → discard_scratch_prefix n r ≡ discard_ext n r
unfolding discard_scratch_prefix
discard_scratch_prefix-ext n r x h k = ground (arith, x.same)

-- The appended byte goes to the scratch buffer, and the extension goes on showing.
append_scratch-shows :
    (growth : ℕ → ℕ) (b : ℕ) (r : ByteReader)
    → 1 ≤ r.ext.len
    → r.scratch_len < scratch_cap
    → scratch_bytes (append_scratch growth b r) ≡ take (suc r.scratch_len) r.ext.backing
unfolding append_scratch scratch_bytes
append_scratch-shows growth b r h k = ground arith

discard_ext-len :
    (n : ℕ) (r : ByteReader)
    → let r' = discard_ext n r in
      (r'.scratch_len ≡ r.scratch_len - n) × (r'.ext.len ≡ r.scratch_len - n)
unfolding discard_ext
discard_ext-len n r = (refl, refl)

-- When less than 64 bytes are left of a packet that stood in the extension, the next byte that is
-- appended is lost: whatever it is, the packet goes on with the old byte at that place.
pub write_scratch-discard_scratch_prefix :
    (growth : ℕ → ℕ) (b n : ℕ) (r : ByteReader)
    → IsWf r
    → Extended r
    → 1 ≤ n
    → n < r.scratch_len
    → r.scratch_len - n < scratch_cap
    → scratch_bytes (write_scratch growth b (discard_scratch_prefix n r))
      ≡ drop n (scratch_bytes r) ++ get_or (scratch_bytes r) (r.scratch_len - n) 0 ∷ []
unfolding write_scratch
write_scratch-discard_scratch_prefix growth b n r wf x h1 h2 h3 =
    let left = r.scratch_len - n in
    let s = discard_ext n r in
    let (len, ext_len) = discard_ext-len n r in
    let content : scratch_bytes r ≡ take r.scratch_len r.ext.backing =
      scratch_bytes_ext r (omega (arith, x.same, h2)) in
    let tail : drop n (scratch_bytes r) ≡ take left (drop n r.ext.backing) =
      ap (λ (l : List ℕ). drop n l) content
      ∙ drop-take n r.scratch_len r.ext.backing (omega (arith, h2)) in
    let old : get_or (scratch_bytes r) left 0 ≡ get_or r.ext.backing left 0 =
      ap (λ (l : List ℕ). get_or l left 0) content
      ∙ get_or-take r.ext.backing r.scratch_len left 0 (omega (arith, h1, h2)) in
    let shows =
      append_scratch-shows growth b s (omega (arith, ext_len, h2)) (omega (arith, len, h3)) in
    let moved = discard_ext-backing n r x h1 h2 in
    ap (λ (q : ByteReader). scratch_bytes (append_scratch growth b q))
      (discard_scratch_prefix-ext n r x h1 h2)
    ∙ shows
    ∙ ap (λ (k : ℕ). take (suc k) s.ext.backing) len
    ∙ moved
    ∙ (λ i. sym tail i ++ sym old i ∷ [])

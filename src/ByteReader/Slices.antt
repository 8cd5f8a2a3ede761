-- ===== src/ByteReader/Slices.antt =====
-- Go's `append` on a slice and `copy`, as operations on the elements that a slice shows.
use coresight.Prelude.{
  ℕ, suc, ◌+◌, ◌≤◌, ◌≡◌, ap, ◌∙◌, arith, List, [], ◌∷◌, ◌++◌, ltb, ltb→lt, ltb→le, Bool-cases, inl,
  inr, length, take, replicate, length-append, length-take, length-set, take-set_next,
  take-set_behind, take-append_within, take-append_beyond, take-take,
}
use coresight.ByteReader.{Slice, append}

-- What `append` makes of a slice: one more element, and room for it.
pub record Extends (s s' : Slice) (b : ℕ) : Type 0 where
  pub longer : s'.len ≡ suc s.len
  pub fits : s'.len ≤ length s'.backing
  pub roomy : length s.backing ≤ length s'.backing
  pub shows : take s'.len s'.backing ≡ take s.len s.backing ++ b ∷ []
  pub keeps : (n : ℕ) → n ≤ s.len → take n s'.backing ≡ take n s.backing

take-grown :
    (xs : List ℕ) (n b : ℕ) (more : List ℕ)
    → n ≤ length xs
    → take (suc n) (take n xs ++ b ∷ more) ≡ take n xs ++ b ∷ []
take-grown xs n b more h =
    let e : length (take n xs) ≡ n = omega (arith, length-take n xs) in
    let shift : suc n ≡ length (take n xs) + 1 = omega (arith, e) in
    ap (λ k. take k (take n xs ++ b ∷ more)) shift ∙ take-append_beyond 1 (take n xs) (b ∷ more)

take-grown_front :
    (xs ys : List ℕ) (m n : ℕ) → m ≤ length xs → n ≤ m → take n (take m xs ++ ys) ≡ take n xs
take-grown_front xs ys m n h k =
    take-append_within n (take m xs) ys (omega (arith, length-take m xs)) ∙ take-take n m xs k

pub append-Extends :
    (growth : ℕ → ℕ) (s : Slice) (b : ℕ)
    → s.len ≤ length s.backing
    → Extends s (append growth s b) b
unfolding append
append-Extends growth s b h = elim (Bool-cases (ltb s.len (length s.backing))) [
  | inl e ↦
      let lt = ltb→lt s.len (length s.backing) e in
      ground (
        arith,
        length-set s.backing s.len b,
        take-set_next s.backing s.len b lt,
        (λ (n : ℕ) (k : n ≤ s.len). take-set_behind s.backing s.len b n k),
      )
  | inr e ↦
      let more : List ℕ = replicate (growth (suc s.len)) 0 in
      let front : List ℕ = take s.len s.backing in
      ground (
        arith,
        ltb→le s.len (length s.backing) e,
        length-append front (b ∷ more),
        length-take s.len s.backing,
        take-grown s.backing s.len b more h,
        (λ (n : ℕ) (k : n ≤ s.len). take-grown_front s.backing (b ∷ more) s.len n h k),
      )
]

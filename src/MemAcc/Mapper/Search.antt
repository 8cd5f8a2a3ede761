-- ===== src/MemAcc/Mapper/Search.antt =====
-- What the search through the entries finds.
use coresight.Prelude.{
  ℕ, zero, suc, ◌/◌, ◌≤◌, ◌≡◌, ◌≢◌, refl, ap, arith, Bool, true, false, Option, none, some, List,
  [], ◌∷◌, All, ◌⊎◌, inl, inr, ltb, ◌==◌, if◌then◌else◌, ◌&&◌, bit_and,
}
use coresight.Prelude.Bits.{bit_and_comm, bit_and-zero}
use mathlib.Core.List.{map}
use mathlib.Core.Path.{subst}
use coresight.MemAcc.{Accessor}
use coresight.MemAcc.Mapper.{
  AccessorEntry, GlobalMapper, overlaps, entry_of, holds, scan, choose, mem_space_specificity,
  ones_count,
}
use coresight.MemAcc.Mapper.Overlap.{IsIn, Disjoint, IsRegistry}

abbrev pub Answer : Type 0
Answer = AccessorEntry ⊎ Option Accessor

-- What the answer of the loop says about the accessors that it went through, and the best before them.
abbrev pub Found : ℕ → ℕ → Option Accessor → List Accessor → Answer → Type 0
Found address space best es (inl e) =
    (a : Accessor) × IsIn a es
    × (e ≡ entry_of a)
    × (holds address space (entry_of a) ≡ true)
    × (a.mem_space ≡ space)
Found address space best es (inr (some a)) =
    (best ≡ some a) ⊎ (IsIn a es × (holds address space (entry_of a) ≡ true))
Found address space best es (inr none) =
    (best ≡ none) × All (λ a. holds address space (entry_of a) ≡ false) es

ones_count-le : (w x : ℕ) → ones_count w x ≤ w
ones_count-le zero x = omega arith
ones_count-le (suc w) x = omega (arith, ones_count-le w (x / 2))

specificity-le : (space : ℕ) → mem_space_specificity space ≤ 32
unfolding mem_space_specificity
specificity-le space = ones_count-le 32 _

-- Before the first entry that holds the address the best score is above every score.
abbrev pub Fresh : Option Accessor → ℕ → Type 0
Fresh none score = score ≡ 33
Fresh (some a) score = Unit

module _ (address space : ℕ) (best : Option Accessor) (e : Accessor) (es : List Accessor) where
  -- The step over an entry that becomes the best one.
  Found-better :
      (r : Answer)
      → holds address space (entry_of e) ≡ true
      → Found address space (some e) es r
      → Found address space best (e ∷ es) r
  Found-better (inl x) h f = ground (arith, f)
  Found-better (inr (some a)) h f = ground (arith, f)
  Found-better (inr none) h f = ground (arith, f)

  -- The step over an entry that is not better than the best one.
  Found-skip :
      (r : Answer)
      → ((holds address space (entry_of e) ≡ false) ⊎ (best ≢ none))
      → Found address space best es r
      → Found address space best (e ∷ es) r
  Found-skip (inl x) h f = ground (arith, f)
  Found-skip (inr (some a)) h f = ground (arith, f)
  Found-skip (inr none) h f = ground (arith, f)

pub scan-Found :
    (address space : ℕ) (best : Option Accessor) (score : ℕ) (es : List Accessor)
    → Fresh best score
    → Found address space best es (scan address space best score (map entry_of es))
unfolding scan
scan-Found address space none score [] h = (refl, tt)
scan-Found address space (some a) score [] h = inl refl
scan-Found address space best score (e ∷ es) h =
    scan-Found_next (holds address space (entry_of e)) (e.mem_space == space)
      (ltb (mem_space_specificity e.mem_space) score) (λ b i j. scan-Found address space b i es j)
      refl refl refl
  where
    scan-Found_next :
        (hit exact better : Bool)
        → ((b : Option Accessor) (i : ℕ)
            → Fresh b i
            → Found address space b es (scan address space b i (map entry_of es)))
        → holds address space (entry_of e) ≡ hit
        → (e.mem_space == space) ≡ exact
        → ltb (mem_space_specificity e.mem_space) score ≡ better
        → Found address space best (e ∷ es) (
            if hit && exact
            then inl (entry_of e)
            else scan address space
                (if hit && better then some e else best)
                (if hit && better then mem_space_specificity e.mem_space else score)
                (map entry_of es))
    scan-Found_next true true better ih a b c = (e, inl refl, refl, a, ground arith)
    scan-Found_next true false true ih a b c =
        Found-better address space best e es _ a (ih (some e) _ tt)
    scan-Found_next true false false ih a b c =
        Found-skip address space best e es _ (inr (full best h)) (ih best score h)
      where
        full : (o : Option Accessor) → Fresh o score → o ≢ none
        full none i = ground (arith, specificity-le e.mem_space)
        full (some x) i = ground arith
    scan-Found_next false exact better ih a b c =
        Found-skip address space best e es _ (inl a) (ih best score h)

-- What a lookup may answer.
abbrev pub IsAnswer : ℕ → ℕ → List Accessor → Option Accessor → Type 0
IsAnswer address space es none = All (λ a. holds address space (entry_of a) ≡ false) es
IsAnswer address space es (some a) = IsIn a es × (holds address space (entry_of a) ≡ true)

-- An accessor of no memory space holds nothing.
holds-nonzero :
    (address space : ℕ) (a : Accessor) → holds address space (entry_of a) ≡ true → a.mem_space ≢ 0
holds-nonzero address space a h z =
    ground (arith, ap (λ (t : ℕ). bit_and t space) z, bit_and_comm 0 space, bit_and-zero space)

pub choose-IsAnswer :
    (address space : ℕ) (m : GlobalMapper) (r : Answer)
    → Found address space none m.accessors r
    → IsRegistry m
    → IsAnswer address space m.accessors (choose m r).1 × IsRegistry (choose m r).0
unfolding choose
choose-IsAnswer address space m (inl e) (a, i, q, hold, s) h =
    rw q (ground (arith, holds-nonzero address space a hold))
choose-IsAnswer address space m (inr (some a)) (inl e) h = ground arith
choose-IsAnswer address space m (inr (some a)) (inr (i, hold)) h =
    ground (arith, holds-nonzero address space a hold)
choose-IsAnswer address space m (inr none) f h = ground arith

IsIn-All : (P : Accessor → Type 0) (a : Accessor) (es : List Accessor) → All P es → IsIn a es → P a
IsIn-All P a [] h i = absurd i
IsIn-All P a (e ∷ es) h (inl i) = subst P i h.0
IsIn-All P a (e ∷ es) h (inr i) = IsIn-All P a es h.1 i

pub scan-exact :
    (address space : ℕ) (best : Option Accessor) (score : ℕ) (a : Accessor) (es : List Accessor)
    → IsIn a es
    → Disjoint es
    → holds address space (entry_of a) ≡ true
    → a.mem_space ≡ space
    → scan address space best score (map entry_of es) ≡ inl (entry_of a)
unfolding scan
scan-exact address space best score a [] i d h s = absurd i
scan-exact address space best score a (e ∷ es) (inl i) d h s =
    ground
      (arith, ap (λ x. holds address space (entry_of x)) i, ap (λ x. x.mem_space) i, ap entry_of i)
scan-exact address space best score a (e ∷ es) (inr i) d h s = ground (
  arith,
  scan-exact address space (if better then some e else best)
      (if better then mem_space_specificity e.mem_space else score) a es i d.1 h s,
  IsIn-All (λ b. overlaps b e ≡ false) a es d.0 i,
  bit_and_comm e.mem_space a.mem_space,
  ap (λ (t : ℕ). bit_and e.mem_space t) s,
)
  where
    better : Bool
    better = holds address space (entry_of e) && ltb (mem_space_specificity e.mem_space) score

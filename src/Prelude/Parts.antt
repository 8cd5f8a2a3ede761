-- ===== src/Prelude/Parts.antt =====
-- Parts of lists: writes into a list, and `take` and `drop` of lists made of others.
use Prim.Native.Nat.{ℕ, zero, suc, ◌+◌, ◌-◌, ◌≤◌, ◌<◌}
use mathlib.Core.Path.{◌≡◌, refl, sym, ap}
use mathlib.Core.List.{List, [], ◌∷◌, ◌++◌}
use mathlib.Core.Option.{some}
use native.Mathlib.Omega.{arith}
use coresight.Prelude.Lists.{length, set, take, drop, get_or, get_elem?}

module _ {ℓ} {A : Type ℓ} where
  pub length-set : (xs : List A) (i : ℕ) (v : A) → length (set xs i v) ≡ length xs
  length-set [] i v = refl
  length-set (x ∷ xs) zero v = refl
  length-set (x ∷ xs) (suc i) v = ap suc (length-set xs i v)

  -- A write just behind a front part extends it.
  pub take-set_next :
      (xs : List A) (i : ℕ) (v : A)
      → i < length xs
      → take (suc i) (set xs i v) ≡ take i xs ++ v ∷ []
  take-set_next [] i v h = absurd (omega arith)
  take-set_next (x ∷ xs) zero v h = refl
  take-set_next (x ∷ xs) (suc i) v h = ap (λ r. x ∷ r) (take-set_next xs i v (omega arith))

  pub take-set_behind :
      (xs : List A) (i : ℕ) (v : A) (n : ℕ) → n ≤ i → take n (set xs i v) ≡ take n xs
  take-set_behind [] i v n h = refl
  take-set_behind (x ∷ xs) zero v zero h = refl
  take-set_behind (x ∷ xs) zero v (suc n) h = absurd (omega arith)
  take-set_behind (x ∷ xs) (suc i) v zero h = refl
  take-set_behind (x ∷ xs) (suc i) v (suc n) h =
      ap (λ r. x ∷ r) (take-set_behind xs i v n (omega arith))

  pub take-append_within : (n : ℕ) (xs ys : List A) → n ≤ length xs → take n (xs ++ ys) ≡ take n xs
  take-append_within zero xs ys h = refl
  take-append_within (suc n) [] ys h = absurd (omega arith)
  take-append_within (suc n) (x ∷ xs) ys h =
      ap (λ r. x ∷ r) (take-append_within n xs ys (omega arith))

  pub take-append_beyond :
      (n : ℕ) (xs ys : List A) → take (length xs + n) (xs ++ ys) ≡ xs ++ take n ys
  take-append_beyond n [] ys = let e : 0 + n ≡ n = omega arith in rw e
  take-append_beyond n (x ∷ xs) ys =
      let e : suc (length xs) + n ≡ suc (length xs + n) = omega arith in
      rw e (ap (λ r. x ∷ r) (take-append_beyond n xs ys))

  pub take-take : (n m : ℕ) (xs : List A) → n ≤ m → take n (take m xs) ≡ take n xs
  take-take zero m xs h = refl
  take-take (suc n) zero xs h = absurd (omega arith)
  take-take (suc n) (suc m) [] h = refl
  take-take (suc n) (suc m) (x ∷ xs) h = ap (λ r. x ∷ r) (take-take n m xs (omega arith))

  pub take-nil : (n : ℕ) → let nil : List A = [] in take n nil ≡ nil
  take-nil zero = refl
  take-nil (suc n) = refl

  pub drop-take : (n m : ℕ) (xs : List A) → n ≤ m → drop n (take m xs) ≡ take (m - n) (drop n xs)
  drop-take zero m xs h = let e : m - 0 ≡ m = omega arith in rw e
  drop-take (suc n) zero xs h = absurd (omega arith)
  drop-take (suc n) (suc m) [] h = sym (take-nil (suc m - suc n))
  drop-take (suc n) (suc m) (x ∷ xs) h =
      let e : suc m - suc n ≡ m - n = omega arith in rw e (drop-take n m xs (omega arith))

  pub get_elem?-within :
      (xs : List A) (i : ℕ) (d : A) → i < length xs → get_elem? xs i ≡ some (get_or xs i d)
  get_elem?-within [] i d h = absurd (omega arith)
  get_elem?-within (x ∷ xs) zero d h = refl
  get_elem?-within (x ∷ xs) (suc i) d h = get_elem?-within xs i d (omega arith)

  pub take-drop_one :
      (xs : List A) (i : ℕ) (d : A) → i < length xs → take 1 (drop i xs) ≡ get_or xs i d ∷ []
  take-drop_one [] i d h = absurd (omega arith)
  take-drop_one (x ∷ xs) zero d h = refl
  take-drop_one (x ∷ xs) (suc i) d h = take-drop_one xs i d (omega arith)

  pub get_or-take : (xs : List A) (n i : ℕ) (d : A) → i < n → get_or (take n xs) i d ≡ get_or xs i d
  get_or-take xs zero i d h = absurd (omega arith)
  get_or-take [] (suc n) i d h = refl
  get_or-take (x ∷ xs) (suc n) zero d h = refl
  get_or-take (x ∷ xs) (suc n) (suc i) d h = get_or-take xs n i d (omega arith)

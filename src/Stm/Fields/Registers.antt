-- ===== src/Stm/Fields/Registers.antt =====
-- The four registers that gather a value, and the nibbles that a value is sent as.
use coresight.Prelude.{
  ℕ, zero, suc, ◌+◌, ◌*◌, ◌/◌, ◌%◌, ◌^◌, ◌<◌, ◌≡◌, refl, ap, ◌∙◌, arith, List, [], ◌∷◌, ◌++◌,
  length, length-append, bit_or, shl,
}
use coresight.Prelude.Bits.{bit_or_fields}
use coresight.Stm.State.{StmParseContext}
use coresight.Stm.Nibbles.Stream.{pending}
use coresight.Stm.Nibbles.Frame.{read_nibble-Frame}
use coresight.Stm.Fields.{
  store8, store16, store32, store64, extract_val8, extract_val16, extract_val32, extract_val64,
}
use coresight.Stm.Fields.Values.{Gathered, fold_nibbles, extract-Gathered, extract-short}
use native.Mathlib.Nat.{pow-suc, mod-eq_of_lt}

-- The widths of a data register in bits.
pub data Width : Type 0 where
  w8 w16 w32 w64 : Width

abbrev pub bits : Width → ℕ
bits w8 = 8
bits w16 = 16
bits w32 = 32
bits w64 = 64

-- The nibbles of a value of that width.
abbrev pub digits : Width → ℕ
digits w8 = 2
digits w16 = 4
digits w32 = 8
digits w64 = 16

abbrev pub register : Width → StmParseContext → ℕ
register w8 c = c.val8
register w16 c = c.val16
register w32 c = c.val32
register w64 c = c.val64

abbrev pub extract_val : Width → ℕ → StmParseContext → StmParseContext
extract_val w8 = extract_val8
extract_val w16 = extract_val16
extract_val w32 = extract_val32
extract_val w64 = extract_val64

-- `n` nibbles of `v`, the most significant first.
abbrev pub sent_as : ℕ → ℕ → List ℕ
sent_as zero v = []
sent_as (suc n) v = sent_as n (v / 16) ++ v % 16 ∷ []

abbrev pub store_step : Width → ℕ → ℕ → ℕ
store_step w v x = bit_or (shl v 4 % 2 ^ bits w) x

store_step-lem : (w : Width) (v x : ℕ) → x < 16 → store_step w v x ≡ (v * 16 + x) % 2 ^ bits w
store_step-lem w8 v x h =
    omega (arith, bit_or_fields 4 (v % 2 ^ 4) x h, ap (λ t. bit_or t x) (same v))
  where
    same : (v : ℕ) → shl v 4 % 2 ^ 8 ≡ v % 2 ^ 4 * 2 ^ 4
    same v = omega arith
store_step-lem w16 v x h =
    omega (arith, bit_or_fields 4 (v % 2 ^ 12) x h, ap (λ t. bit_or t x) (same v))
  where
    same : (v : ℕ) → shl v 4 % 2 ^ 16 ≡ v % 2 ^ 12 * 2 ^ 4
    same v = omega arith
store_step-lem w32 v x h =
    omega (arith, bit_or_fields 4 (v % 2 ^ 28) x h, ap (λ t. bit_or t x) (same v))
  where
    same : (v : ℕ) → shl v 4 % 2 ^ 32 ≡ v % 2 ^ 28 * 2 ^ 4
    same v = omega arith
store_step-lem w64 v x h =
    omega (arith, bit_or_fields 4 (v % 2 ^ 60) x h, ap (λ t. bit_or t x) (same v))
  where
    same : (v : ℕ) → shl v 4 % 2 ^ 64 ≡ v % 2 ^ 60 * 2 ^ 4
    same v = omega arith

pub fold-append :
    (f : ℕ → ℕ → ℕ) (v : ℕ) (xs ys : List ℕ)
    → fold_nibbles f v (xs ++ ys) ≡ fold_nibbles f (fold_nibbles f v xs) ys
fold-append f v [] ys = refl
fold-append f v (x ∷ xs) ys = fold-append f (f v x) xs ys

-- The register takes back the value that the nibbles were made from.
pub fold-sent_as :
    (w : Width) (n v : ℕ)
    → v < 16 ^ n
    → v < 2 ^ bits w
    → fold_nibbles (store_step w) 0 (sent_as n v) ≡ v
fold-sent_as w zero v h hw = omega arith
fold-sent_as w (suc n) v h hw =
    fold-append (store_step w) 0 (sent_as n (v / 16)) (v % 16 ∷ [])
    ∙ ap (λ t. store_step w t (v % 16))
        (fold-sent_as w n (v / 16) (omega (arith, pow-suc 16 n)) (omega arith))
    ∙ store_step-lem w (v / 16) (v % 16) (omega arith)
    ∙ back (2 ^ bits w) hw
  where
    back : (m : ℕ) → v < m → (v / 16 * 16 + v % 16) % m ≡ v
    back m h = let e : v / 16 * 16 + v % 16 ≡ v = omega arith in rw e (mod-eq_of_lt h)

pub length-sent_as : (n v : ℕ) → length (sent_as n v) ≡ n
length-sent_as zero v = refl
length-sent_as (suc n) v =
    omega (arith, length-append (sent_as n (v / 16)) (v % 16 ∷ []), length-sent_as n (v / 16))

pub extract_val-Gathered :
    (w : Width) (nibbles : ℕ) (xs rest : List ℕ) (c : StmParseContext)
    → pending c ≡ xs ++ rest
    → c.num_nibbles + length xs ≡ nibbles
    → nibbles < 256
    → Gathered
        (register w)
        (fold_nibbles (store_step w) (register w c) xs)
        rest
        nibbles
        c
        (extract_val w nibbles c)
unfolding extract_val8 extract_val16 extract_val32 extract_val64
extract_val-Gathered w8 nibbles xs rest c hp hn hb =
    extract-Gathered store8 (register w8) (store_step w8) (λ c. (read_nibble-Frame c).same_val8)
      (λ c. refl) (λ c. ground arith) nibbles nibbles xs rest c hp hn hb (omega arith)
extract_val-Gathered w16 nibbles xs rest c hp hn hb =
    extract-Gathered store16 (register w16) (store_step w16) (λ c. (read_nibble-Frame c).same_val16)
      (λ c. refl) (λ c. ground arith) nibbles nibbles xs rest c hp hn hb (omega arith)
extract_val-Gathered w32 nibbles xs rest c hp hn hb =
    extract-Gathered store32 (register w32) (store_step w32) (λ c. (read_nibble-Frame c).same_val32)
      (λ c. refl) (λ c. ground arith) nibbles nibbles xs rest c hp hn hb (omega arith)
extract_val-Gathered w64 nibbles xs rest c hp hn hb =
    extract-Gathered store64 (register w64) (store_step w64) (λ c. (read_nibble-Frame c).same_val64)
      (λ c. refl) (λ c. ground arith) nibbles nibbles xs rest c hp hn hb (omega arith)

pub extract_val-short :
    (w : Width) (nibbles : ℕ) (xs : List ℕ) (c : StmParseContext)
    → pending c ≡ xs
    → c.num_nibbles + length xs < nibbles
    → nibbles < 256
    → Gathered
        (register w)
        (fold_nibbles (store_step w) (register w c) xs)
        []
        (c.num_nibbles + length xs)
        c
        (extract_val w nibbles c)
unfolding extract_val8 extract_val16 extract_val32 extract_val64
extract_val-short w8 nibbles xs c hp hn hb =
    extract-short store8 (register w8) (store_step w8) (λ c. (read_nibble-Frame c).same_val8)
      (λ c. refl) (λ c. ground arith) nibbles nibbles xs c hp hn hb (omega arith)
extract_val-short w16 nibbles xs c hp hn hb =
    extract-short store16 (register w16) (store_step w16) (λ c. (read_nibble-Frame c).same_val16)
      (λ c. refl) (λ c. ground arith) nibbles nibbles xs c hp hn hb (omega arith)
extract_val-short w32 nibbles xs c hp hn hb =
    extract-short store32 (register w32) (store_step w32) (λ c. (read_nibble-Frame c).same_val32)
      (λ c. refl) (λ c. ground arith) nibbles nibbles xs c hp hn hb (omega arith)
extract_val-short w64 nibbles xs c hp hn hb =
    extract-short store64 (register w64) (store_step w64) (λ c. (read_nibble-Frame c).same_val64)
      (λ c. refl) (λ c. ground arith) nibbles nibbles xs c hp hn hb (omega arith)

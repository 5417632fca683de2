-- ===== src/Prelude/Decimal.antt =====
-- Numbers as text: `String(n)` and template literals, and `parseInt(s, 10)`.
use Prim.Native.Char.{Char, code}
use Prim.Native.String.{String, [], ◌∷◌, char_at, ◌++◌}
use Prim.Native.Nat.{ℕ, zero, suc, ◌+◌, ◌-◌, ◌*◌, ◌/◌, ◌%◌, ◌<◌, ◌≤◌}
use mathlib.Core.Path.{◌≡◌, refl, sym, ap, ◌∙◌}
use mathlib.Core.Logic.{◌⊎◌, inl, inr}
use mathlib.Core.Bool.{true, false}
use native.Mathlib.Omega.{arith}
use text.Mathlib.TextLemmas.{cons-append}
use rome_solidity.Prelude.Tests.{ltb, ◌==◌, nat_eq, if◌then◌else◌}
use rome_solidity.Prelude.Text.{is_digit, is_space, trim_start}
use rome_solidity.Prelude.Number.{JsNumber, whole, negative, not_whole}

abbrev digit : ℕ → Char
digit n = char_at "0123456789" n

digits_from : ℕ → ℕ → String → String
digits_from zero n acc = acc
digits_from (suc fuel) n acc = elim (ltb n 10) [
  | true ↦ digit n ∷ acc
  | false ↦ digits_from fuel (n / 10) (digit (n % 10) ∷ acc)
]

-- A number has fewer digits than its successor.
unfoldable pub to_text : ℕ → String
unfolding digits_from
to_text n = digits_from (suc n) n ""

-- The digits at the start of the text, after those that were read
read_digits : ℕ → String → ℕ
read_digits n [] = n
read_digits n (c ∷ s) =
    let r = read_digits (10 * n + (code c - b'0')) s in if is_digit c then r else n

parse_unsigned : String → JsNumber
unfolding read_digits
parse_unsigned [] = not_whole
parse_unsigned (c ∷ s) = if is_digit c then whole (read_digits 0 (c ∷ s)) else not_whole

abbrev negate : JsNumber → JsNumber
negate (whole zero) = whole 0
negate (whole (suc n)) = negative n
negate x = x

parse_signed : String → JsNumber
unfolding parse_unsigned
parse_signed [] = not_whole
parse_signed (c ∷ s) =
    if code c == b'-'
    then negate (parse_unsigned s)
    else if code c == b'+'
    then parse_unsigned s
    else parse_unsigned (c ∷ s)

-- `parseInt(s, 10)`: NaN is `not_whole`.
unfoldable pub parse_int : String → JsNumber
unfolding trim_start parse_signed
parse_int s = parse_signed (trim_start s)

-- `s.split(sep)[0]`: the text before the first separator
unfoldable pub before : ℕ → String → String
before sep [] = []
before sep (c ∷ s) = let r = before sep s in if code c == sep then [] else c ∷ r

code-digit : (n : ℕ) → n < 10 → code (digit n) ≡ b'0' + n
code-digit zero h = refl
code-digit (suc zero) h = refl
code-digit (suc (suc zero)) h = refl
code-digit (suc (suc (suc zero))) h = refl
code-digit (suc (suc (suc (suc zero)))) h = refl
code-digit (suc (suc (suc (suc (suc zero))))) h = refl
code-digit (suc (suc (suc (suc (suc (suc zero)))))) h = refl
code-digit (suc (suc (suc (suc (suc (suc (suc zero))))))) h = refl
code-digit (suc (suc (suc (suc (suc (suc (suc (suc zero)))))))) h = refl
code-digit (suc (suc (suc (suc (suc (suc (suc (suc (suc zero))))))))) h = refl
code-digit (suc (suc (suc (suc (suc (suc (suc (suc (suc (suc n)))))))))) h = absurd (omega arith)

is_digit-digit : (n : ℕ) → n < 10 → is_digit (digit n) ≡ true
is_digit-digit n h = ground (arith, code-digit n h)

read_digits-cons :
    (a n : ℕ) (s : String) → n < 10 → read_digits a (digit n ∷ s) ≡ read_digits (10 * a + n) s
unfolding read_digits
read_digits-cons a n s h =
    let value : 10 * a + (code (digit n) - b'0') ≡ 10 * a + n = rw (code-digit n h) (omega arith) in
    rw (is_digit-digit n h) (ap (λ m. read_digits m s) value)

ten_cases : (n : ℕ) → (n < 10) ⊎ (10 ≤ n)
ten_cases n = ground arith

digits_from_small :
    (fuel n : ℕ) (acc : String) → n < 10 → digits_from (suc fuel) n acc ≡ digit n ∷ acc
unfolding digits_from
digits_from_small fuel n acc h = ground arith

digits_from_large :
    (fuel n : ℕ) (acc : String)
    → 10 ≤ n
    → digits_from (suc fuel) n acc ≡ digits_from fuel (n / 10) (digit (n % 10) ∷ acc)
unfolding digits_from
digits_from_large fuel n acc h = ground arith

read_digits-digits_from :
    (fuel n : ℕ) (acc : String)
    → n < fuel
    → read_digits 0 (digits_from fuel n acc) ≡ read_digits n acc
read_digits-digits_from zero n acc h = absurd (omega arith)
read_digits-digits_from (suc fuel) n acc h = elim (ten_cases n) [
  | inl small ↦
      rw (digits_from_small fuel n acc small)
        (read_digits-cons 0 n acc small ∙ ap (λ m. read_digits m acc) (omega arith))
  | inr large ↦ rw (digits_from_large fuel n acc large) (
      read_digits-digits_from fuel (n / 10) _ (omega arith)
      ∙ read_digits-cons (n / 10) (n % 10) acc (omega arith)
      ∙ ap (λ m. read_digits m acc) (omega arith))
]

digits_from-append :
    (fuel n : ℕ) (acc s : String) → digits_from fuel n acc ++ s ≡ digits_from fuel n (acc ++ s)
unfolding digits_from
digits_from-append zero n acc s = refl
digits_from-append (suc fuel) n acc s = elim (ten_cases n) [
  | inl small ↦
      rw (digits_from_small fuel n acc small, digits_from_small fuel n (acc ++ s) small)
        (cons-append (digit n) acc s)
  | inr large ↦
      rw (digits_from_large fuel n acc large, digits_from_large fuel n (acc ++ s) large)
        (digits_from-append fuel (n / 10) _ s
          ∙ ap (digits_from fuel (n / 10)) (cons-append (digit (n % 10)) acc s))
]

before-digit : (n : ℕ) (s : String) → n < 10 → before b'.' (digit n ∷ s) ≡ digit n ∷ before b'.' s
unfolding before
before-digit n s h = ground (arith, code-digit n h)

before-digits_from :
    (fuel n : ℕ) (acc : String)
    → before b'.' (digits_from fuel n acc) ≡ digits_from fuel n (before b'.' acc)
unfolding digits_from
before-digits_from zero n acc = refl
before-digits_from (suc fuel) n acc =
    let acc' = before b'.' acc in
    elim (ten_cases n) [
      | inl small ↦
          rw (digits_from_small fuel n acc small, digits_from_small fuel n acc' small)
            (before-digit n acc small)
      | inr large ↦
          rw (digits_from_large fuel n acc large, digits_from_large fuel n acc' large)
            (before-digits_from fuel (n / 10) _
              ∙ ap (digits_from fuel (n / 10)) (before-digit (n % 10) acc (omega arith)))
    ]

digits_from_starts :
    (fuel n : ℕ) (acc : String)
    → n < fuel
    → (d : ℕ) × (d < 10) × ((s : String) × (digits_from fuel n acc ≡ digit d ∷ s))
digits_from_starts zero n acc h = absurd (omega arith)
digits_from_starts (suc fuel) n acc h = elim (ten_cases n) [
  | inl small ↦ (n, small, (acc, digits_from_small fuel n acc small))
  | inr large ↦
      rw (digits_from_large fuel n acc large) (digits_from_starts fuel (n / 10) _ (omega arith))
]

parse_int-digit :
    (d : ℕ) (s : String) → d < 10 → parse_int (digit d ∷ s) ≡ whole (read_digits 0 (digit d ∷ s))
unfolding parse_int trim_start is_space parse_unsigned
parse_int-digit d s h = ground (arith, code-digit d h)

-- Reading what is before the first dot of `${n}.0.0` gives back the number.
pub parse_int-to_text : (n : ℕ) → parse_int (before b'.' (to_text n ++ ".0.0")) ≡ whole n
unfolding to_text read_digits before
parse_int-to_text n =
    let (d, lt, (s, starts)) = digits_from_starts (suc n) n "" (omega arith) in
    rw (digits_from-append (suc n) n "" ".0.0", before-digits_from (suc n) n ".0.0", starts)
      (parse_int-digit d s lt
        ∙ ap whole
            (ap (read_digits 0) (sym starts) ∙ read_digits-digits_from (suc n) n "" (omega arith)))

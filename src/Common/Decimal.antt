-- ===== src/Common/Decimal.antt =====
-- Decimal output: the verbs `%d` and `%02d` of package `fmt`.
use omnigo_app.Common.{
  ℕ, zero, suc, ◌+◌, ◌-◌, ◌*◌, ◌/◌, ◌%◌, ◌<◌, ◌≡◌, refl, arith, ltb, if◌then◌else◌, Bool-cases, leb,
  inl, inr, [], ◌∷◌, ◌&&◌, ◌∙◌, ◌++◌,
}
use omnigo_app.Common.Int.{ℤ, pos, negsuc}
use omnigo_app.Common.Text.{Text}

-- The digits of `n` before `out`. Every round divides by ten, so `n + 1` rounds are enough.
unfoldable pub emit : ℕ → ℕ → Text → Text
emit zero n out = out
emit (suc fuel) n out =
    let rest = emit fuel (n / 10) ((b'0' + n % 10) ∷ out) in
    if ltb n 10 then (b'0' + n) ∷ out else rest

unfoldable pub format_nat : ℕ → Text
unfolding emit
format_nat n = emit (suc n) n []

-- `%d`
unfoldable pub format_int : ℤ → Text
unfolding format_nat
format_int (pos n) = format_nat n
format_int (negsuc n) = b'-' ∷ format_nat (suc n)

-- `%02d` of a number that is not negative.
unfoldable pub format_two : ℕ → Text
unfolding format_nat
format_two n = if ltb n 10 then b'0' ∷ format_nat n else format_nat n

-- A value with one more byte read: a digit is appended, any other byte is skipped.
pub read_digit : ℕ → ℕ → ℕ
read_digit acc c = if leb b'0' c && leb c b'9' then acc * 10 + (c - b'0') else acc

unfoldable pub read_digits : ℕ → Text → ℕ
unfolding read_digit
read_digits acc [] = acc
read_digits acc (c ∷ s) = read_digits (read_digit acc c) s

last_digit : (n : ℕ) → n < 10 → read_digit 0 (b'0' + n) ≡ n
unfolding read_digit
last_digit n h = ground arith

pub next_digit : (n : ℕ) → read_digit (n / 10) (b'0' + n % 10) ≡ n
unfolding read_digit
next_digit n = ground arith

read_digits-cons :
    (acc c : ℕ) (s : Text) → read_digits acc (c ∷ s) ≡ read_digits (read_digit acc c) s
unfolding read_digits
read_digits-cons acc c s = refl

read_digits-emit :
    (fuel n : ℕ) (out : Text) → n < fuel → read_digits 0 (emit fuel n out) ≡ read_digits n out
unfolding emit
read_digits-emit zero n out h = elim h [ ]
read_digits-emit (suc fuel) n out h = elim (Bool-cases (ltb n 10)) [
  | inl small ↦ rw small (rw (read_digits-cons, last_digit n (ground arith)) refl)
  | inr large ↦ rw large (
      read_digits-emit fuel (n / 10) ((b'0' + n % 10) ∷ out) (ground arith)
      ∙ rw (read_digits-cons, next_digit n) refl)
]

pub read_digits-format_nat : (n : ℕ) → read_digits 0 (format_nat n) ≡ n
unfolding format_nat read_digits
read_digits-format_nat n = read_digits-emit (suc n) n [] (omega arith)

pub read_digits-append :
    (acc : ℕ) (s t : Text) → read_digits acc (s ++ t) ≡ read_digits (read_digits acc s) t
unfolding read_digits
read_digits-append acc [] t = refl
read_digits-append acc (c ∷ s) t = read_digits-append (read_digit acc c) s t

-- Below a hundred `%02d` writes two digits.
pub format_two_lem : (n : ℕ) → n < 100 → format_two n ≡ (b'0' + n / 10) ∷ (b'0' + n % 10) ∷ []
unfolding format_two emit
format_two_lem zero h = refl
format_two_lem (suc n) h = elim (Bool-cases (ltb (suc n) 10)) [
  | inl small ↦ ground arith
  | inr large ↦ rw large (ground arith)
]

pub read_digits-format_two : (acc n : ℕ) → n < 100 → read_digits acc (format_two n) ≡ acc * 100 + n
unfolding read_digits read_digit
read_digits-format_two acc n h = rw (format_two_lem n h) (ground arith)

-- ===== src/Common/Floats.antt =====
-- Go's `float64`, which the program converts amounts to and from: its operations as a parameter.
use omnigo_app.Common.{Bool, Option, some, ℕ, ◌+◌, ◌-◌, ◌*◌, ◌/◌, ltb}
use omnigo_app.Common.Text.{Text}
use omnigo_app.Common.Decimal.{read_digits}
use omnigo_app.Common.Int.{ℤ, pos, pos_part}

pub record Float : Type 1 where
  pub F : Type 0
  -- `float64(n)`
  pub of_int : ℤ → F
  pub add : F → F → F
  pub sub : F → F → F
  pub mul : F → F → F
  pub div : F → F → F
  -- `x < y`
  pub lt : F → F → Bool
  -- `int64(math.Round(x))`
  pub round_to_int : F → ℤ
  -- `strconv.ParseFloat(s, 64)`
  pub parse_float : Text → Option F

-- Numbers of two decimal places, cut off below, that the examples use for `float64`.
abbrev pub hundredths : Float
hundredths = record {
  F = ℕ;
  of_int = λ n. pos_part n * 100;
  add = λ x y. x + y;
  sub = λ x y. x - y;
  mul = λ x y. (x * y) / 100;
  div = λ x y. (x * 100) / y;
  lt = ltb;
  round_to_int = λ x. pos (x / 100);
  parse_float = λ s. some (read_digits 0 s);
}

-- ===== src/Money.antt =====
-- backend/go-services/internal/shared/money/paisa.go: amounts as `int64` paisa. `float64` is a
-- parameter (Common/Floats).

pub mod Laws
mod Tests
use mathlib.Core.Option
use omnigo_app.Common.{◌++◌, Bool, true, false, if◌then◌else◌, Option, none, some}
use omnigo_app.Common.Int.{ℤ, pos, neg, ltb_ℤ, quot, rem, pos_part, int64}
use omnigo_app.Common.Text.{Text, codes}
use omnigo_app.Common.Decimal.{format_int, format_two}
use omnigo_app.Common.Floats.{Float}

abbrev pub paisa_per_rupee : ℤ
paisa_per_rupee = pos 100

-- The sign of the remainder is dropped: it is never negative where `%02d` prints it.
unfoldable pub format_paisa : ℤ → Text
format_paisa paisa =
    let rupees = quot paisa 100 in
    let remaining_paisa = rem paisa 100 in
    let remaining_paisa =
      if ltb_ℤ remaining_paisa (pos 0) then int64 (neg remaining_paisa) else remaining_paisa in
    format_int rupees ++ (codes "." ++ format_two (pos_part remaining_paisa))

unfoldable pub paisa_to_pay_fast_string : ℤ → Text
unfolding format_paisa
paisa_to_pay_fast_string paisa = format_paisa paisa

unfoldable pub abs : ℤ → ℤ
abs p = if ltb_ℤ p (pos 0) then int64 (neg p) else p

unfoldable pub min : ℤ → ℤ → ℤ
min a b = if ltb_ℤ a b then a else b

unfoldable pub max : ℤ → ℤ → ℤ
max a b = if ltb_ℤ b a then a else b

module _ (float : Float) where
  open float use {F, of_int, div, mul, round_to_int, parse_float}

  unfoldable pub rupees_to_paisa : F → ℤ
  rupees_to_paisa rupees = round_to_int (mul rupees (of_int paisa_per_rupee))

  unfoldable pub paisa_to_rupees : ℤ → F
  paisa_to_rupees paisa = div (of_int paisa) (of_int paisa_per_rupee)

  -- `none` is the error of `strconv.ParseFloat`.
  unfoldable pub parse_pay_fast_amount : Text → Option ℤ
  unfolding rupees_to_paisa
  parse_pay_fast_amount s = Option.map rupees_to_paisa (parse_float s)

  unfoldable pub calculate_commission : ℤ → ℤ → ℤ
  calculate_commission amount_paisa rate_basis_points =
      round_to_int (div (mul (of_int amount_paisa) (of_int rate_basis_points)) (of_int (pos 10000)))

  unfoldable pub calculate_commission_from_rate : ℤ → F → ℤ
  calculate_commission_from_rate amount_paisa rate =
      round_to_int (div (mul (of_int amount_paisa) rate) (of_int (pos 100)))

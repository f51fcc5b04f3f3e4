-- ===== src/Commission/Tests.antt =====
-- The splits of one order, with numbers of two decimal places for `float64`.
use omnigo_app.Common.{some, arith}
use omnigo_app.Common.Int.{pos, ◌+ℤ◌}
use omnigo_app.Common.Text.{Text, codes, text_eq}
use omnigo_app.Common.Floats.{hundredths}
use omnigo_app.Commission.{
  share, fee_paisa, store_rate, cod_rate, calculate_split, calculate_cod_split, env_float,
}
use omnigo_app.Commission.Laws.{IsSplit, calculate_split-IsSplit, calculate_cod_split-IsSplit}

abbrev no_env : Text → Text
no_env key = codes ""

abbrev delivery : Text
delivery = codes "DLV-1"

-- 1000 rupees at 2.5%, with a delivery fee of 150 rupees.
calculate_split_example :
    IsSplit
      (pos 100000)
      (share hundredths (pos 100000) (store_rate hundredths no_env (some 250)))
      (fee_paisa hundredths delivery (some 15000))
      (calculate_split hundredths no_env (pos 100000) (some 250) delivery (some 15000))
unfolding share fee_paisa store_rate text_eq ◌+ℤ◌
calculate_split_example =
    calculate_split-IsSplit hundredths no_env (some 250) (pos 100000) delivery (some 15000)
      (ground arith)

-- The same order for cash on delivery; the surcharge of half a percent is the default.
calculate_cod_split_example :
    IsSplit
      (pos 100000)
      (share hundredths (pos 100000) (cod_rate hundredths no_env (some 250)))
      (fee_paisa hundredths delivery (some 15000))
      (calculate_cod_split hundredths no_env (pos 100000) (some 250) delivery (some 15000))
unfolding share fee_paisa cod_rate store_rate env_float text_eq ◌+ℤ◌
calculate_cod_split_example =
    calculate_cod_split-IsSplit hundredths no_env (some 250) (pos 100000) delivery (some 15000)
      (ground arith)

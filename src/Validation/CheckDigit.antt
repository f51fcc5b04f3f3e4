-- ===== src/Validation/CheckDigit.antt =====
-- What the check digit of an identity number protects.
use omnigo_app.Common.{ℕ, ◌≡◌, refl, ◌%◌, ◌<◌, false, [], ◌∷◌, ◌++◌, arith}
use omnigo_app.Common.Text.{Text}
use omnigo_app.Validation.{weighted_sum, check_digit, valid_cnic_check_digit}

-- A text of ten digits and the eleventh and twelfth.
abbrev pub twelve : (ℕ → ℕ) → ℕ → ℕ → Text
twelve c d e = c 1 ∷ c 2 ∷ c 3 ∷ c 4 ∷ c 5 ∷ c 6 ∷ c 7 ∷ c 8 ∷ c 9 ∷ c 10 ∷ d ∷ e ∷ []

weighted_sum-eleventh :
    (c : ℕ → ℕ) (d d' e : ℕ)
    → weighted_sum 1 (twelve c d e) % 11 ≡ weighted_sum 1 (twelve c d' e) % 11
unfolding weighted_sum
weighted_sum-eleventh c d d' e = omega arith

-- The eleventh digit has the weight 11, which the remainder by 11 does not see: whatever stands at
-- that place, the answer of the check is the same.
pub valid_cnic_check_digit-eleventh :
    (c : ℕ → ℕ) (d d' e last : ℕ)
    → valid_cnic_check_digit (twelve c d e ++ last ∷ [])
      ≡ valid_cnic_check_digit (twelve c d' e ++ last ∷ [])
unfolding valid_cnic_check_digit check_digit
valid_cnic_check_digit-eleventh c d d' e last = rw (weighted_sum-eleventh c d d' e) refl

-- If the weighted sum of the first twelve digits leaves the remainder 1, then no digit in the last
-- place passes the check: such numbers have no valid form.
pub valid_cnic_check_digit-one :
    (c : ℕ → ℕ) (d e last : ℕ)
    → weighted_sum 1 (twelve c d e) % 11 ≡ 1
    → last < 58
    → valid_cnic_check_digit (twelve c d e ++ last ∷ []) ≡ false
unfolding valid_cnic_check_digit check_digit
valid_cnic_check_digit-one c d e last one digit = rw one (ground arith)

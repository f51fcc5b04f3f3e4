-- ===== src/Validation/Tests.antt =====
-- Identity numbers and bank account numbers.
use omnigo_app.Common.{ℕ, true, ◌&&◌, ◌≡◌, refl, ◌+◌, ◌%◌, false}
use omnigo_app.Common.Text.{codes, trim_space}
use omnigo_app.Validation.{cnic_validate, cnic_format}
use omnigo_app.Common.Decimal.{format_nat, read_digits}
use omnigo_app.Validation.Iban.{cleaned_iban, mod97_check, iban_validate, panics}
use omnigo_app.Validation.Accepted.{accepts, has_shape, iban_validate-accepts}

-- The digits 0 to 9 and 0.
abbrev digits : ℕ → ℕ
digits n = 48 + n % 10

wrong_digit : (cnic_validate (codes "35202-1234567-3")).valid ≡ false
unfolding cnic_validate trim_space
wrong_digit = refl

printed : cnic_format (codes "3520212345671") ≡ codes "35202-1234567-1"
unfolding cnic_format trim_space
printed = refl

iban_validate-accepts_example :
    let s = cleaned_iban (codes "pk36 SCBL 0000 0011 2345 6702") in
    accepts (iban_validate (λ _. 0) (codes "pk36 SCBL 0000 0011 2345 6702"))
    ≡ (has_shape s && mod97_check (λ _. 0) s)
iban_validate-accepts_example =
    iban_validate-accepts (λ _. 0) (codes "pk36 SCBL 0000 0011 2345 6702")

account_accepted : accepts (iban_validate (λ _. 0) (codes "pk36 SCBL 0000 0011 2345 6702")) ≡ true
unfolding iban_validate format_nat read_digits
account_accepted = refl

-- Two characters short.
short_panics : iban_validate (λ _. 0) (codes "PK36SCBL00000011234567") ≡ panics
unfolding iban_validate
short_panics = refl

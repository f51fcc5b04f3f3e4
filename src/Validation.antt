-- ===== src/Validation.antt =====
-- backend/go-services/internal/shared/validation/cnic.go: national identity numbers.
pub mod CheckDigit
pub mod Iban
pub mod Accepted
mod Tests
use omnigo_app.Common.{
  ℕ, suc, zero, ◌+◌, ◌-◌, ◌*◌, ◌%◌, Bool, true, false, ◌&&◌, ◌||◌, not, leb, ltb, ◌==◌, List, [],
  ◌∷◌, ◌++◌, Option, none, some, if◌then◌else◌, all, take, drop, length, String,
}
use omnigo_app.Common.Text.{Text, codes, remove, contains, trim_space}

abbrev is_digit : ℕ → Bool
is_digit c = leb b'0' c && leb c b'9'

-- A text of bytes is made of digits exactly if its runes are.
unfoldable pub is_digits_only : Text → Bool
is_digits_only = all is_digit

-- `strings.ReplaceAll(strings.ReplaceAll(input, "-", ""), " ", "")`
unfoldable pub strip : Text → Text
unfolding remove
strip input = remove b' ' (remove b'-' input)

-- The products of digits and weights, from the given weight on.
unfoldable pub weighted_sum : ℕ → Text → ℕ
weighted_sum weight [] = 0
weighted_sum weight (c ∷ s) = (c - b'0') * weight + weighted_sum (suc weight) s

unfoldable pub check_digit : Text → ℕ
unfolding weighted_sum
check_digit cnic =
    let digit = 11 - weighted_sum 1 (take 12 cnic) % 11 in if digit == 11 then 0 else digit

abbrev first_digit : Text → ℕ
first_digit [] = 0
first_digit (c ∷ s) = c - b'0'

-- Called on digits only; `byte - '0'` is never negative there.
unfoldable pub valid_cnic_check_digit : Text → Bool
unfolding check_digit
valid_cnic_check_digit cnic =
    if not (length cnic == 13) then false else check_digit cnic == first_digit (drop 12 cnic)

pub record CnicValidationResult : Type 0 where
  pub valid : Bool
  pub formatted : Text
  pub raw : Text
  pub error : Text

-- The slices are in range: the text has 13 bytes by then.
unfoldable pub cnic_format : Text → Text
unfolding strip
cnic_format input =
    let cleaned = trim_space (strip input) in
    let cut = if ltb 13 (length cleaned) then take 13 cleaned else cleaned in
    if ltb (length cleaned) 13
    then input
    else take 5 cut ++ (codes "-" ++ (take 7 (drop 5 cut) ++ (codes "-" ++ take 1 (drop 12 cut))))

unfoldable pub count : ℕ → Text → ℕ
count b [] = 0
count b (c ∷ s) = if c == b then 1 + count b s else count b s

-- Splitting at the dashes gives three parts if there are two dashes.
unfoldable pub cleaned_cnic : Text → Text
unfolding strip count
cleaned_cnic input =
    let cleaned = trim_space (strip input) in
    if length cleaned == 15 && (contains b'-' input && count b'-' input == 2)
    then remove b'-' input
    else cleaned

abbrev rejected : String → CnicValidationResult
rejected message = record { valid = false; formatted = []; raw = []; error = codes message }

unfoldable pub cnic_validate : Text → CnicValidationResult
unfolding cleaned_cnic is_digits_only valid_cnic_check_digit cnic_format
cnic_validate input =
    let cleaned = cleaned_cnic input in
    if not (is_digits_only cleaned)
    then rejected "CNIC must contain only digits"
    else if not (length cleaned == 13)
    then rejected "CNIC must be exactly 13 digits"
    else if not (valid_cnic_check_digit cleaned)
    then rejected "Invalid CNIC check digit"
    else record { valid = true; formatted = cnic_format cleaned; raw = cleaned; error = [] }

unfoldable pub cnic_format_with_dashes : Text → Text
unfolding strip cnic_format
cnic_format_with_dashes input = cnic_format (strip input)

unfoldable pub extract_cnic_digits : Text → Text
unfolding strip
extract_cnic_digits formatted_cnic = strip formatted_cnic

pub record CnicInfo : Type 0 where
  pub area_code : Text
  pub sequence_number : Text
  pub check : Text
  pub formatted : Text

pub data Parsed : Type 0 where
  invalid : Text → Parsed
  parsed : CnicInfo → Parsed

unfoldable pub parse_cnic : Text → Parsed
unfolding cnic_validate extract_cnic_digits
parse_cnic cnic =
    let result = cnic_validate cnic in
    let cleaned = extract_cnic_digits cnic in
    if not result.valid
    then invalid result.error
    else parsed (record {
      area_code = take 5 cleaned;
      sequence_number = take 7 (drop 5 cleaned);
      check = take 1 (drop 12 cleaned);
      formatted = result.formatted;
    })

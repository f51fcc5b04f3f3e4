-- ===== src/Validation/Iban.antt =====
-- backend/go-services/internal/shared/validation/iban.go: bank account numbers, in ASCII.
use omnigo_app.Common.{
  ℕ, ◌+◌, ◌-◌, ◌%◌, Bool, true, false, ◌&&◌, ◌||◌, not, leb, ltb, ◌==◌, List, [], ◌∷◌, ◌++◌,
  if◌then◌else◌, all, take, drop, length, map, String,
}
use omnigo_app.Common.Text.{Text, codes, remove, text_eq, to_upper}
use omnigo_app.Common.Decimal.{format_nat, read_digits}

abbrev pub is_upper : ℕ → Bool
is_upper c = leb b'A' c && leb c b'Z'

abbrev pub is_digit : ℕ → Bool
is_digit c = leb b'0' c && leb c b'9'

-- `[A-Z0-9]`
abbrev pub is_alnum : ℕ → Bool
is_alnum c = is_upper c || is_digit c

-- Without spaces and dashes, in upper case.
unfoldable pub cleaned_iban : Text → Text
unfolding remove to_upper
cleaned_iban input = map to_upper (remove b'-' (remove b' ' input))

-- `s < t`, of strings.
unfoldable pub is_before : Text → Text → Bool
is_before s [] = false
is_before [] (d ∷ t) = true
is_before (c ∷ s) (d ∷ t) = ltb c d || (c == d && is_before s t)

-- `s[from:from+n]`
abbrev pub slice : ℕ → ℕ → Text → Text
slice from n s = take n (drop from s)

-- The letters of an account number as numbers, and then all of it as one.
unfoldable pub numeric_iban : Text → Text
numeric_iban [] = []
numeric_iban (c ∷ s) = (if is_upper c then format_nat (c - b'A' + 10) else c ∷ []) ++ numeric_iban s

unfoldable pub known_bank : List (String × String) → Text → Text
known_bank [] code = []
known_bank (b ∷ bs) code = if text_eq (codes b.0) code then codes b.1 else known_bank bs code

abbrev pub pakistan_bank_codes : List (String × String)
pakistan_bank_codes =
    ("HABB", "Habib Bank Limited")
    ∷ ("UBLL", "United Bank Limited")
    ∷ ("MCBL", "MCB Bank Limited")
    ∷ ("BAFL", "Bank Alfalah")
    ∷ ("ASKB", "Askari Bank")
    ∷ ("SCBL", "Standard Chartered Bank")
    ∷ ("MEZB", "Meezan Bank")
    ∷ ("BIMN", "BankIslami Pakistan")
    ∷ ("SILK", "Silkbank")
    ∷ ("ALFB", "Al Baraka Bank")
    ∷ ("BOFA", "Bank of Punjab")
    ∷ ("HABP", "Habib Bank Limited (Old)")
    ∷ ("FINL", "Finca Microfinance Bank")
    ∷ ("ZARL", "Zarai Taraqiati Bank")
    ∷ ("NRBL", "National Bank of Pakistan")
    ∷ ("BLKL", "Black Rock Microfinance")
    ∷ ("UPBL", "The Bank of Khyber")
    ∷ ("FAIS", "Faysal Bank")
    ∷ ("MFBL", "Mobilink Microfinance Bank")
    ∷ ("OGDC", "Oil & Gas Development Company")
    ∷ []

abbrev name_or_unknown : Text → Text
name_or_unknown [] = codes "Unknown Bank"
name_or_unknown (c ∷ s) = c ∷ s

unfoldable pub bank_name : Text → Text
unfolding known_bank
bank_name code = name_or_unknown (known_bank pakistan_bank_codes code)

unfoldable pub get_bank_name_from_code : Text → Text
unfolding bank_name to_upper
get_bank_name_from_code code = bank_name (map to_upper code)

pub record IbanValidationResult : Type 0 where
  pub valid : Bool
  pub formatted : Text
  pub raw : Text
  pub bank_code : Text
  pub bank_name : Text
  pub branch_code : Text
  pub account_number : Text
  pub error : Text

-- A slice that is out of range panics.
pub data Answer {ℓ} (A : Type ℓ) : Type ℓ where
  panics : Answer A
  returns : A → Answer A

abbrev pub refused : Text → String → IbanValidationResult
refused input message = record {
  valid = false;
  formatted = [];
  raw = input;
  bank_code = [];
  bank_name = [];
  branch_code = [];
  account_number = [];
  error = codes message;
}

abbrev pub grouped : Text → Text
grouped s =
    codes "PK"
    ++ (slice 2 2 s
        ++ (codes " "
            ++ (slice 4 4 s
                ++ (codes " "
                    ++ (slice 8 4 s
                        ++ (codes " "
                            ++ (slice 12 4 s
                                ++ (codes " "
                                    ++ (slice 16 4 s ++ (codes " " ++ slice 20 4 s))))))))))

unfoldable pub iban_format : Text → Answer Text
unfolding cleaned_iban
iban_format input =
    let cleaned = cleaned_iban input in
    if ltb (length cleaned) 22
    then returns input
    else if ltb (length cleaned) 24
    then panics
    else returns (grouped (if ltb 24 (length cleaned) then take 24 cleaned else cleaned))

-- What `big.Int.SetString` leaves behind where the text is not a number is not documented.
module _ (undefined : Text → ℕ) where
  unfoldable pub big_int : Text → ℕ
  big_int s = if all is_digit s then read_digits 0 s else undefined s

  unfoldable pub mod97_check : Text → Bool
  unfolding big_int numeric_iban
  mod97_check iban = big_int (numeric_iban (drop 4 iban ++ take 4 iban)) % 97 == 1

  -- What follows the formatting.
  unfoldable pub check_account : Text → Text → IbanValidationResult
  unfolding mod97_check bank_name
  check_account input cleaned =
      let found = record (refused input "") {
        formatted = grouped cleaned;
        bank_code = slice 4 4 cleaned;
        bank_name = bank_name (slice 4 4 cleaned);
      } in
      let account = drop 8 cleaned in
      if not (mod97_check cleaned)
      then record found { error = codes "IBAN checksum validation failed" }
      else if not (all is_alnum account && (leb 12 (length account) && leb (length account) 16))
      then record found { error = codes "Invalid account number format" }
      else record found { valid = true; account_number = account }

  unfoldable pub iban_validate : Text → Answer IbanValidationResult
  unfolding cleaned_iban is_before check_account text_eq
  iban_validate input =
      let cleaned = cleaned_iban input in
      let check_digits = slice 2 2 cleaned in
      if ltb (length cleaned) 22 || ltb 30 (length cleaned)
      then returns (refused input "IBAN must be 22-24 characters (PK prefix + 20-22 digits)")
      else if not (text_eq (take 2 cleaned) (codes "PK"))
      then returns (refused input "IBAN must start with PK (Pakistan country code)")
      else if is_before check_digits (codes "02") || is_before (codes "97") check_digits
      then returns (refused input "Invalid check digits (must be 02-97)")
      else if not (all is_alnum (slice 4 4 cleaned))
      then returns (refused input "Invalid bank code format")
      else if ltb (length cleaned) 24
      then panics
      else returns (check_account input cleaned)

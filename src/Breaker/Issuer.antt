-- ===== src/Breaker/Issuer.antt =====
-- backend/go-services/internal/payment/payfast/errors.go: what a customer is told about the code that
-- the issuing bank answers with, and the names of the breaker's states.
use omnigo_app.Common.{
  ◌≡◌, refl, Bool, true, false, not, ◌||◌, List, [], ◌∷◌, any, all, arith, if◌then◌else◌,
}
use omnigo_app.Common.Text.{Text, codes, text_eq, text_eq_refl, trim_space}
use omnigo_app.Breaker.Defs.{CircuitState, closed, half_open, opened}

abbrev pub Advice : Type 0
Advice = List (List Text × Text)

abbrev approved : Text
approved = codes "Approved"

abbrev declined : Text
declined = codes "Payment was declined by issuing bank."

-- The cases of the switch below the first.
unfoldable pub refusals : Advice
refusals =
    (codes "002" ∷ [], codes "Transaction timed out at bank gateway. Please retry.")
    ∷ (codes "03" ∷ [], codes "You have entered an inactive account. Please contact your bank.")
    ∷ (
      codes "05" ∷ codes "51" ∷ codes "97" ∷ codes "881" ∷ [],
      codes "Insufficient balance in your card/account. Please top up and retry.",
    )
    ∷ (codes "14" ∷ codes "54" ∷ [], codes "Card expired or invalid expiry date entered.")
    ∷ (codes "55" ∷ [], codes "You have entered an invalid OTP or PIN. Please check and retry.")
    ∷ (
      codes "57" ∷ codes "58" ∷ codes "880" ∷ codes "883" ∷ [],
      codes
          "Online e-commerce transactions are not enabled on your card. Please enable online shopping in your bank app and retry.",
    )
    ∷ (
      codes "61" ∷ codes "106" ∷ codes "882" ∷ [],
      codes "Daily transaction limit or count exceeded on your card. Please contact your bank.",
    )
    ∷ (codes "65" ∷ [], codes "Exceeded transaction frequency limit on your card.")
    ∷ (codes "75" ∷ [], codes "Incorrect CVV / OTP entered too many times.")
    ∷ (
      codes "104" ∷ [],
      codes "Entered payment details are incorrect. Please verify card number, CVV, and expiry.",
    )
    ∷ (codes "803" ∷ [], codes "OTP has been sent to your email address.")
    ∷ (codes "804" ∷ [], codes "OTP has been sent to your mobile number.")
    ∷ (codes "805" ∷ [], codes "OTP verified successfully.")
    ∷ (codes "806" ∷ [], codes "OTP could not be verified. Please request a new OTP.")
    ∷ (
      codes "91" ∷ codes "96" ∷ [],
      codes
          "Your issuing bank or 1LINK switch is temporarily unavailable. Please retry in a few moments.",
    )
    ∷ (codes "001" ∷ [], codes "Invalid merchant configuration. Please contact support.")
    ∷ (codes "013" ∷ [], codes "Transaction amount exceeds maximum limit allowed.")
    ∷ (codes "015" ∷ [], codes "Invalid transaction currency or format.")
    ∷ (codes "041" ∷ [], codes "Card issuer is temporarily unavailable. Please retry.")
    ∷ (codes "126" ∷ [], codes "Your card has been blocked by the bank. Please contact your bank.")
    ∷ (codes "423" ∷ [], codes "Transaction could not be processed at this time. Please retry.")
    ∷ (codes "801" ∷ [], codes "OTP verification timeout. Please request a new OTP.")
    ∷ (codes "802" ∷ [], codes "OTP has expired. Please request a new OTP.")
    ∷ (
      codes "807" ∷ [],
      codes "Maximum OTP verification attempts exceeded. Please request a new OTP.",
    )
    ∷ (codes "808" ∷ [], codes "OTP verification failed. Please check and retry.")
    ∷ (codes "809" ∷ [], codes "OTP has been resend to your registered mobile/email.")
    ∷ (codes "810" ∷ [], codes "OTP verified successfully.")
    ∷ (codes "811" ∷ [], codes "OTP could not be sent. Please try again.")
    ∷ (
      codes "812" ∷ [],
      codes "OTP delivery failed. Please try again or use another verification method.",
    )
    ∷ (codes "813" ∷ [], codes "OTP verification is required to complete this transaction.")
    ∷ (
      codes "850" ∷ [],
      codes "Beneficiary bank is not available for this transfer. Please try another method.",
    )
    ∷ (
      codes "851" ∷ [],
      codes "Transfer type not allowed for this account. Please contact your bank.",
    )
    ∷ (codes "9000" ∷ [], codes "System error. Please contact support if problem persists.")
    ∷ []

unfoldable pub advice_in : Text → Advice → Text
advice_in code [] = declined
advice_in code ((cases, message) ∷ rows) =
    if any (λ c. text_eq c code) cases then message else advice_in code rows

unfoldable pub map_issuer_response_code : Text → Text
unfolding refusals advice_in
map_issuer_response_code code =
    advice_in (trim_space code) ((codes "00" ∷ codes "000" ∷ [], approved) ∷ refusals)

-- `String` of a CircuitState.
unfoldable pub state_name : CircuitState → Text
state_name closed = codes "CLOSED"
state_name half_open = codes "HALF_OPEN"
state_name opened = codes "OPEN"

no_approval : Advice → Bool
no_approval = all (λ row. not (text_eq row.1 approved))

refusals_refuse : no_approval refusals ≡ true
unfolding no_approval refusals text_eq
refusals_refuse = refl

advice_in-refused :
    (code : Text) (rows : Advice)
    → no_approval rows ≡ true
    → text_eq (advice_in code rows) approved ≡ false
unfolding advice_in no_approval
advice_in-refused code [] h = unfold text_eq in refl
advice_in-refused code ((cases, message) ∷ rows) h = ground (arith, advice_in-refused code rows)

-- A customer is told that a payment was approved exactly if the code, without white space around it,
-- is 00 or 000.
pub map_issuer_response_code-approved :
    (code : Text)
    → text_eq (map_issuer_response_code code) (codes "Approved")
      ≡ (text_eq (codes "00") (trim_space code) || text_eq (codes "000") (trim_space code))
unfolding map_issuer_response_code advice_in
map_issuer_response_code-approved code =
    ground
      (arith, advice_in-refused (trim_space code) refusals refusals_refuse, text_eq_refl approved)

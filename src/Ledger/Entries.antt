-- ===== src/Ledger/Entries.antt =====
-- backend/go-services/internal/ledger/service.go: what the service calls, and how it builds
-- and signs the entries of a request.
use omnigo_app.Common.{ℕ, Bool, [], ◌++◌, Option, if◌then◌else◌}
use omnigo_app.Common.Int.{ℤ, neg}
use omnigo_app.Common.Text.{Text, codes, text_eq}
use omnigo_app.Common.Decimal.{format_int}
use omnigo_app.Ledger.Models.{Account, LedgerEntry, TransferRequest}

-- What the service calls and does not implement: fresh identifiers, by their order in a method,
-- HMAC-SHA256 under the configured secret, and the conversions of packages uuid and tigerbeetle.
pub record Externals : Type 0 where
  pub new_uuid : ℕ → Text
  pub hmac_hex : Text → Text
  pub uuid_to_uint128 : Text → Option ℕ
  pub account_to_uint128 : Account → ℕ
  pub md5_uint128 : Text → ℕ
  -- Whether the service was built with a TigerBeetle client.
  pub has_tb : Bool

-- The text `%s:%s:%d:%s:%s` that an entry is signed by.
unfoldable pub signature_payload : LedgerEntry → Text
unfolding format_int
signature_payload entry =
    entry.transaction_id
    ++ (codes ":"
        ++ (entry.account
            ++ (codes ":"
                ++ (format_int entry.amount
                    ++ (codes ":"
                        ++ (entry.reference_id ++ (codes ":" ++ entry.idempotency_key)))))))

unfoldable pub debit_key : Text → Text
debit_key key = key ++ codes ":debit"

unfoldable pub credit_key : Text → Text
credit_key key = key ++ codes ":credit"

module _ (ext : Externals) where
  unfoldable pub generate_signature : LedgerEntry → Text
  unfolding signature_payload
  generate_signature entry = ext.hmac_hex (signature_payload entry)

  -- An entry of a request, signed.
  unfoldable pub make_entry : Text → Text → TransferRequest → Account → ℤ → Text → LedgerEntry
  unfolding generate_signature
  make_entry id tx_id req account amount key =
      let entry : LedgerEntry = record {
        id = id;
        transaction_id = tx_id;
        account = account;
        amount = amount;
        currency = if text_eq req.currency [] then codes "PKR" else req.currency;
        reference_type = req.reference_type;
        reference_id = req.reference_id;
        description = req.description;
        idempotency_key = key;
        signature = [];
        signature_version = 1;
      } in
      record entry { signature = generate_signature entry }

  -- The debit entry carries the amount negated.
  unfoldable pub debit_entry : Text → Text → TransferRequest → LedgerEntry
  debit_entry id tx_id req =
      make_entry id tx_id req req.debit_account (neg req.amount) (debit_key req.idempotency_key)

  unfoldable pub credit_entry : Text → Text → TransferRequest → LedgerEntry
  credit_entry id tx_id req =
      make_entry id tx_id req req.credit_account req.amount (credit_key req.idempotency_key)

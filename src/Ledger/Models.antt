-- ===== src/Ledger/Models.antt =====
-- backend/go-services/internal/ledger/models.go and tb_outbox.go: accounts, entries, requests, and
-- the three tables that the ledger writes.
use omnigo_app.Common.{ℕ, Bool, List, [], ◌∷◌, any}
use omnigo_app.Common.Int.{ℤ}
use omnigo_app.Common.Text.{Text, codes, text_eq}

-- `type Account string`
abbrev pub Account : Type 0
Account = Text

abbrev pub admin_revenue : Account
admin_revenue = codes "admin_revenue_account"

abbrev pub central_escrow : Account
central_escrow = codes "central_escrow_account"

abbrev pub gateway_clearing : Account
gateway_clearing = codes "gateway_clearing_account"

abbrev pub vendor_pending_escrow : Account
vendor_pending_escrow = codes "vendor_pending_escrow_account"

abbrev pub vendor_wallet : Account
vendor_wallet = codes "vendor_wallet_account"

abbrev pub customer_refund : Account
customer_refund = codes "customer_refund_account"

abbrev pub customer_wallet : Account
customer_wallet = codes "customer_wallet_account"

abbrev pub rider_wallet : Account
rider_wallet = codes "rider_wallet"

abbrev pub rider_cod_debt : Account
rider_cod_debt = codes "rider_cod_debt"

abbrev pub cash_receivable : Account
cash_receivable = codes "cash_receivable"

abbrev pub vendor_locked_escrow : Account
vendor_locked_escrow = codes "vendor_locked_escrow_account"

abbrev pub vendor_withdrawable : Account
vendor_withdrawable = codes "vendor_withdrawable_account"

abbrev pub stripe_holding : Account
stripe_holding = codes "stripe_holding_account"

abbrev pub pay_fast_holding : Account
pay_fast_holding = codes "payfast_holding_account"

abbrev pub vendor_bank_payout : Account
vendor_bank_payout = codes "vendor_bank_payout_account"

abbrev pub vendor_clawback : Account
vendor_clawback = codes "vendor_clawback_account"

-- The keys of the map `ValidAccounts`, all of which it sends to true.
unfoldable pub valid_accounts : List Account
valid_accounts =
    admin_revenue ∷ central_escrow ∷ gateway_clearing ∷ vendor_pending_escrow ∷ vendor_wallet
    ∷ customer_refund ∷ customer_wallet ∷ rider_wallet ∷ rider_cod_debt ∷ cash_receivable
    ∷ vendor_locked_escrow ∷ vendor_withdrawable ∷ stripe_holding ∷ pay_fast_holding
    ∷ vendor_bank_payout ∷ vendor_clawback ∷ []

-- `ValidAccounts[account]`; a key that is missing reads as false.
unfoldable pub is_valid_account : Account → Bool
unfolding valid_accounts text_eq
is_valid_account account = any (text_eq account) valid_accounts

-- A row of `ledger_entries`; `created_at`, which the database fills in, is left out.
pub record LedgerEntry : Type 0 where
  pub id : Text
  pub transaction_id : Text
  pub account : Account
  pub amount : ℤ
  pub currency : Text
  pub reference_type : Text
  pub reference_id : Text
  pub description : Text
  pub idempotency_key : Text
  pub signature : Text
  pub signature_version : ℕ

pub record TransferRequest : Type 0 where
  pub debit_account : Account
  pub credit_account : Account
  pub amount : ℤ
  pub currency : Text
  pub reference_type : Text
  pub reference_id : Text
  pub description : Text
  pub idempotency_key : Text

-- `tb.Transfer`, with its 128-bit fields as numbers.
pub record TbTransfer : Type 0 where
  pub id : ℕ
  pub debit_account_id : ℕ
  pub credit_account_id : ℕ
  pub amount : ℕ
  pub ledger : ℕ
  pub code : ℕ

pub data OutboxStatus : Type 0 where
  pending processing completed failed : OutboxStatus

-- A row of `tigerbeetle_outbox`. The payload is kept as the transfers that it encodes.
pub record TbOutboxEntry : Type 0 where
  pub id : ℕ
  pub transaction_id : Text
  pub payload : List TbTransfer
  pub status : OutboxStatus
  pub retry_count : ℕ
  pub max_retries : ℕ

-- The tables, newest row first. `idempotency` holds the keys of `ledger_idempotency`.
pub record Db : Type 0 where
  pub entries : List LedgerEntry
  pub idempotency : List Text
  pub outbox : List TbOutboxEntry

abbrev pub empty_db : Db
empty_db = record { entries = []; idempotency = []; outbox = [] }

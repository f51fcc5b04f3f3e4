-- ===== src/Ledger/Service.antt =====
-- backend/go-services/internal/ledger/service.go: Transfer and MultiTransfer.
use omnigo_app.Common.{
  ℕ, suc, ◌+◌, ◌^◌, ltb, leb, Bool, not, ◌||◌, ◌&&◌, List, [], ◌∷◌, ◌++◌, Option, none, some,
  if◌then◌else◌,
}
use omnigo_app.Common.Int.{ℤ, pos, ◌+ℤ◌, pos_part, neg_part, ltb_ℤ}
use omnigo_app.Common.Text.{Text, codes, text_eq}
use omnigo_app.Common.Decimal.{format_nat}
use omnigo_app.Ledger.Models.{
  Account, LedgerEntry, TransferRequest, TbTransfer, Db, is_valid_account,
}
use omnigo_app.Ledger.Entries.{Externals, debit_key, debit_entry, credit_entry}
use omnigo_app.Ledger.Tx.{
  LedgerError, Result, Step, Faults, err, exit, next, ◌>>=◌, ◌>>◌, require, finish,
}
use omnigo_app.Ledger.Rows.{has_key, reserve_key, insert_entries, insert_tb_outbox_entry}

abbrev pub keyed_or_debit : Text → LedgerEntry → Bool
keyed_or_debit key e = has_key key e || has_key (debit_key key) e

abbrev pub is_nil : List TransferRequest → Bool
is_nil [] = Bool.true
is_nil (req ∷ reqs) = Bool.false

-- The first loop of MultiTransfer.
module _ (faults : Faults) where
  unfoldable pub reserve_keys : List TransferRequest → Db → Step Db
  reserve_keys [] db = next db
  reserve_keys (req ∷ reqs) db = do
    reserved ← reserve_key faults (has_key (debit_key req.idempotency_key)) req.idempotency_key db
    reserve_keys reqs reserved

module _ (ext : Externals) where
  open ext use {new_uuid, account_to_uint128, md5_uint128}

  unfoldable pub tb_transfer : ℕ → TransferRequest → TbTransfer
  tb_transfer id req = record {
    id = id;
    debit_account_id = account_to_uint128 req.debit_account;
    credit_account_id = account_to_uint128 req.credit_account;
    amount = pos_part req.amount;
    ledger = 1;
    code = 1;
  }

  -- The second loop, at its request number `i`: it validates and builds the entries. Two equal
  -- accounts are not refused here.
  unfoldable pub build_entries : ℕ → Text → List TransferRequest → Step (List LedgerEntry)
  build_entries i tx_id [] = next []
  build_entries i tx_id (req ∷ reqs) = do
    require (is_valid_account req.debit_account) LedgerError.invalid_debit_account
    require (is_valid_account req.credit_account) LedgerError.invalid_credit_account
    require (ltb_ℤ (pos 0) req.amount) LedgerError.amount_not_positive
    rest ← build_entries (suc i) tx_id reqs
    next (
        debit_entry ext (new_uuid (1 + i + i)) tx_id req
        ∷ credit_entry ext (new_uuid (2 + i + i)) tx_id req
        ∷ rest)

  unfoldable pub tb_transfers : ℕ → Text → List TransferRequest → List TbTransfer
  unfolding tb_transfer
  tb_transfers i tx_id [] = []
  tb_transfers i tx_id (req ∷ reqs) =
      tb_transfer (md5_uint128 (tx_id ++ (codes "-" ++ format_nat i))) req
      ∷ tb_transfers (suc i) tx_id reqs

module _ (ext : Externals) (faults : Faults) where
  open ext use {new_uuid, uuid_to_uint128, has_tb}

  -- The dual write of a single transfer, under the transaction's own identifier.
  unfoldable pub enqueue : Text → TransferRequest → Db → Step Db
  unfolding tb_transfer
  enqueue tx_id req db =
      if has_tb
      then elim (uuid_to_uint128 tx_id) [
        | none ↦ exit (err LedgerError.bad_uuid)
        | some id ↦ insert_tb_outbox_entry faults tx_id (tb_transfer ext id req ∷ []) db
      ]
      else next db

  -- Transfer up to its Commit.
  unfoldable pub transfer_body : TransferRequest → Db → Step (Text × Db)
  unfolding enqueue
  transfer_body req db = do
    require (is_valid_account req.debit_account) LedgerError.invalid_debit_account
    require (is_valid_account req.credit_account) LedgerError.invalid_credit_account
    require (ltb_ℤ (pos 0) req.amount) LedgerError.amount_not_positive
    require (not (text_eq req.debit_account req.credit_account)) LedgerError.same_account
    let tx_id = new_uuid 0
    require (not faults.begin_fails) LedgerError.begin_failed
    reserved ← reserve_key faults (keyed_or_debit req.idempotency_key) req.idempotency_key db
    inserted ←
        insert_entries faults
          (debit_entry ext (new_uuid 1) tx_id req ∷ credit_entry ext (new_uuid 2) tx_id req ∷ [])
          reserved
    queued ← enqueue tx_id req inserted
    next (tx_id, queued)

  unfoldable pub transfer : TransferRequest → Db → Result Text × Db
  unfolding transfer_body
  transfer req db = finish faults db (transfer_body req db)

  unfoldable pub enqueue_all : Text → List TransferRequest → Db → Step Db
  unfolding tb_transfers
  enqueue_all tx_id reqs db =
      if has_tb
      then insert_tb_outbox_entry faults tx_id (tb_transfers ext 0 tx_id reqs) db
      else next db

  -- MultiTransfer up to its Commit.
  unfoldable pub multi_transfer_body : List TransferRequest → Db → Step (Text × Db)
  unfolding reserve_keys build_entries enqueue_all
  multi_transfer_body reqs db = do
    require (not (is_nil reqs)) LedgerError.no_transfers
    let tx_id = new_uuid 0
    require (not faults.begin_fails) LedgerError.begin_failed
    reserved ← reserve_keys faults reqs db
    entries ← build_entries ext 0 tx_id reqs
    inserted ← insert_entries faults entries reserved
    queued ← enqueue_all tx_id reqs inserted
    next (tx_id, queued)

  unfoldable pub multi_transfer : List TransferRequest → Db → Result Text × Db
  unfolding multi_transfer_body
  multi_transfer reqs db = finish faults db (multi_transfer_body reqs db)

-- The sum of a weight over the entries.
unfoldable pub sum_by : (LedgerEntry → ℤ) → List LedgerEntry → ℤ
sum_by w [] = pos 0
sum_by w (e ∷ es) = w e +ℤ sum_by w es

abbrev pub amount_of : LedgerEntry → ℤ
amount_of e = e.amount

-- `WHERE account = $1`
abbrev pub balance_in : Account → LedgerEntry → ℤ
balance_in account e = if text_eq e.account account then e.amount else pos 0

-- `SELECT COALESCE(SUM(amount_paisa), 0) FROM ledger_entries WHERE account = $1`
unfoldable pub balance : Account → Db → ℤ
unfolding sum_by
balance account db = sum_by (balance_in account) db.entries

-- `GetBalance`: a query that fails, or a sum that `int64` cannot hold, is an error.
unfoldable pub get_balance : Bool → Account → Db → Option ℤ
get_balance query_fails account db =
    let sum = balance account db in
    if query_fails
    then none
    else if ltb (pos_part sum) (2 ^ 63) && leb (neg_part sum) (2 ^ 63)
    then some sum
    else none

-- ===== src/Ledger/Outcome.antt =====
-- What a transfer has done by the time it returns: nothing, or all of its writes.
use omnigo_app.Common.{◌≡◌, refl, ◌⊎◌, true, false, [], ◌∷◌, any, arith, if◌then◌else◌}
use omnigo_app.Common.Int.{pos, ◌≤ℤ◌}
use omnigo_app.Common.Text.{Text, text_eq}
use omnigo_app.Ledger.Models.{TransferRequest, Db, is_valid_account}
use omnigo_app.Ledger.Tx.{Result, Faults, LedgerError, ok, err, finish-err}
use omnigo_app.Ledger.Entries.{Externals, debit_entry, credit_entry}
use omnigo_app.Ledger.Rows.{has_key, reserve_key, insert_entries, insert_tb_outbox_entry}
use omnigo_app.Ledger.Service.{transfer}

module _ (ext : Externals) (faults : Faults) where
  pub record Committed (req : TransferRequest) (db db' : Db) : Type 0 where
    pub debit_valid : is_valid_account req.debit_account ≡ true
    pub credit_valid : is_valid_account req.credit_account ≡ true
    pub positive : pos 1 ≤ℤ req.amount
    pub distinct : text_eq req.debit_account req.credit_account ≡ false
    pub entries :
        db'.entries
        ≡ credit_entry ext (ext.new_uuid 2) (ext.new_uuid 0) req
          ∷ debit_entry ext (ext.new_uuid 1) (ext.new_uuid 0) req
          ∷ db.entries
    pub keys : db'.idempotency ≡ (
        if text_eq req.idempotency_key []
        then db.idempotency
        else req.idempotency_key ∷ db.idempotency)
    pub unused :
        text_eq req.idempotency_key [] ≡ false
        → any (text_eq req.idempotency_key) db.idempotency ≡ false
    -- The column of idempotency keys stays UNIQUE.
    pub new_debit :
        any
          (has_key (debit_entry ext (ext.new_uuid 1) (ext.new_uuid 0) req).idempotency_key)
          db.entries
        ≡ false
    pub new_credit :
        any
          (has_key (credit_entry ext (ext.new_uuid 2) (ext.new_uuid 0) req).idempotency_key)
          (debit_entry ext (ext.new_uuid 1) (ext.new_uuid 0) req ∷ db.entries)
        ≡ false

  outcome :
      (req : TransferRequest) (db : Db) {r : Result Text} {db' : Db}
      → transfer ext faults req db ≡ (r, db')
      → (db' ≡ db) ⊎ ((r ≡ ok (ext.new_uuid 0)) × Committed req db db')
  unfolding transfer reserve_key insert_entries insert_tb_outbox_entry
  outcome req db h = ground arith

  -- A transfer leaves the tables as they were, or it has committed and returns its identifier.
  pub transfer-cases :
      (req : TransferRequest) (db : Db)
      → ((transfer ext faults req db).1 ≡ db)
        ⊎ (((transfer ext faults req db).0 ≡ ok (ext.new_uuid 0))
            × Committed req db (transfer ext faults req db).1)
  transfer-cases req db = outcome req db refl

  -- An error means that nothing was written.
  pub transfer-err :
      (req : TransferRequest) (db : Db) {e : LedgerError}
      → (transfer ext faults req db).0 ≡ err e
      → (transfer ext faults req db).1 ≡ db
  unfolding transfer
  transfer-err req db {e} h = finish-err faults db _ e h

  -- Under a key that was never reserved, success means that the transfer has committed.
  pub transfer_fresh :
      (req : TransferRequest) (db : Db) {t : Text} {db' : Db}
      → any (text_eq req.idempotency_key) db.idempotency ≡ false
      → transfer ext faults req db ≡ (ok t, db')
      → (t ≡ ext.new_uuid 0) × Committed req db db'
  unfolding transfer reserve_key insert_entries insert_tb_outbox_entry
  transfer_fresh req db fresh h = ground arith

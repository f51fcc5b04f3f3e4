-- ===== src/Ledger/Rows.antt =====
-- The statements that the ledger runs inside a transaction: repository.go, the idempotency insert of
-- service.go, and InsertTBOutboxEntry of tb_outbox.go, all under backend/go-services/internal/ledger.
use omnigo_app.Common.{
  suc, Bool, true, false, ◌||◌, ◌&&◌, List, [], ◌∷◌, Option, none, some, any, length, if◌then◌else◌,
}
use omnigo_app.Common.Text.{Text, text_eq}
use omnigo_app.Ledger.Models.{
  LedgerEntry, TbTransfer, TbOutboxEntry, OutboxStatus, pending, processing, completed, failed, Db,
}
use omnigo_app.Ledger.Tx.{LedgerError, Result, Step, Faults, ok, err, exit, next}

abbrev pub has_key : Text → LedgerEntry → Bool
has_key key e = text_eq e.idempotency_key key

unfoldable pub find_entry : (LedgerEntry → Bool) → List LedgerEntry → Option LedgerEntry
find_entry p [] = none
find_entry p (e ∷ es) = if p e then some e else find_entry p es

abbrev pub transaction_of : Option LedgerEntry → Result Text
transaction_of none = err LedgerError.entry_not_found
transaction_of (some e) = ok e.transaction_id

-- `ON CONFLICT (transaction_id) WHERE status IN ('PENDING', 'PROCESSING')`
abbrev pub is_open : OutboxStatus → Bool
is_open pending = true
is_open processing = true
is_open completed = false
is_open failed = false

module _ (faults : Faults) where
  -- The transaction of an entry that the test selects; no row is an error.
  unfoldable pub existing : (LedgerEntry → Bool) → Db → Result Text
  existing p db =
      if faults.find_fails
      then err LedgerError.entry_not_found
      else transaction_of (find_entry p db.entries)

  -- `INSERT INTO ledger_idempotency … ON CONFLICT DO NOTHING`; at a conflict the method returns the
  -- transaction that the test selects.
  unfoldable pub reserve_key : (LedgerEntry → Bool) → Text → Db → Step Db
  reserve_key p key db =
      if text_eq key []
      then next db
      else if faults.reserve_fails key
      then exit (err LedgerError.idempotency_failed)
      else if any (text_eq key) db.idempotency
      then exit (existing p db)
      else next (record db { idempotency = key ∷ db.idempotency })

  -- `InsertEntries`. The column `idempotency_key` is UNIQUE.
  unfoldable pub insert_entries : List LedgerEntry → Db → Step Db
  insert_entries [] db = next db
  insert_entries (e ∷ es) db =
      let rest = insert_entries es (record db { entries = e ∷ db.entries }) in
      if faults.insert_fails e || any (has_key e.idempotency_key) db.entries
      then exit (err LedgerError.insert_failed)
      else rest

  -- The row starts as PENDING with no retries, out of the ten that the table allows by default.
  unfoldable pub insert_tb_outbox_entry : Text → List TbTransfer → Db → Step Db
  insert_tb_outbox_entry tx_id transfers db =
      let row : TbOutboxEntry = record {
        id = suc (length db.outbox);
        transaction_id = tx_id;
        payload = transfers;
        status = pending;
        retry_count = 0;
        max_retries = 10;
      } in
      if faults.outbox_fails
      then exit (err LedgerError.outbox_failed)
      else if any (λ r. text_eq r.transaction_id tx_id && is_open r.status) db.outbox
      then next db
      else next (record db { outbox = row ∷ db.outbox })

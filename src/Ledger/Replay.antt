-- ===== src/Ledger/Replay.antt =====
-- Runs of the ledger, and what a repeated request gets.
use omnigo_app.Common.{
  ◌≡◌, refl, ◌∙◌, Bool, true, false, List, [], ◌∷◌, any, arith, some, inl, inr, if◌then◌else◌,
}
use omnigo_app.Common.Int.{pos, ltb_ℤ}
use omnigo_app.Common.Text.{Text, text_eq, text_eq_refl}
use omnigo_app.Ledger.Models.{LedgerEntry, TransferRequest, Db, is_valid_account}
use omnigo_app.Ledger.Tx.{Faults, ok}
use omnigo_app.Ledger.Entries.{Externals, make_entry, debit_key, debit_entry}
use omnigo_app.Ledger.Rows.{has_key, find_entry, existing, reserve_key}
use omnigo_app.Ledger.Service.{transfer, multi_transfer}
use omnigo_app.Ledger.Outcome.{Committed, transfer-cases, transfer_fresh}
use omnigo_app.Ledger.Conservation.{total, transfer-total}
use omnigo_app.Ledger.Multi.{
  MultiCommitted, multi_transfer-cases, multi_transfer-total, reserve_keys-entries,
}
use omnigo_app.Ledger.Found.{
  find_entry-cons, find_entry-keyed, insert_entries-found, insert_entries-keys,
  reserve_keys-reserved,
}

-- Tables that methods of the service reach from others, in any order, with any requests, answers of
-- the outside and faults of the database.
pub data Runs (db : Db) : Db → Type 0 where
  start : Runs db db
  after_transfer :
      {d e : Db}
      → Runs db d
      → (ext : Externals) (faults : Faults) (req : TransferRequest)
      → (transfer ext faults req d).1 ≡ e
      → Runs db e
  after_multi :
      {d e : Db}
      → Runs db d
      → (ext : Externals) (faults : Faults) (reqs : List TransferRequest)
      → (multi_transfer ext faults reqs d).1 ≡ e
      → Runs db e

-- No run changes the sum of all entries.
pub Runs-total : {db e : Db} → Runs db e → total e ≡ total db
Runs-total start = refl
Runs-total (after_transfer {d = d} r ext faults req h) =
    rw (← h) (transfer-total ext faults req d ∙ Runs-total r)
Runs-total (after_multi {d = d} r ext faults reqs h) =
    rw (← h) (multi_transfer-total ext faults reqs d ∙ Runs-total r)

-- The key is reserved, and its debit is on record under the transaction.
pub record Recorded (key tx_id : Text) (db : Db) : Type 0 where
  pub entry : LedgerEntry
  pub reserved : any (text_eq key) db.idempotency ≡ true
  pub found : find_entry (has_key (debit_key key)) db.entries ≡ some entry
  pub same_transaction : entry.transaction_id ≡ tx_id

module _ (ext : Externals) (faults : Faults) where
  own_debit :
      (req : TransferRequest) (es : List LedgerEntry)
      → let debit = debit_entry ext (ext.new_uuid 1) (ext.new_uuid 0) req in
        find_entry (has_key (debit_key req.idempotency_key)) (debit ∷ es) ≡ some debit
  unfolding find_entry debit_entry make_entry
  own_debit req es = rw text_eq_refl

  kept :
      (b : Bool) (key other : Text) (keys : List Text)
      → any (text_eq key) keys ≡ true
      → any (text_eq key) (if b then keys else other ∷ keys) ≡ true
  kept true key other keys h = h
  kept false key other keys h = ground arith

  Committed-Recorded :
      (req : TransferRequest) (db db' : Db)
      → text_eq req.idempotency_key [] ≡ false
      → Committed ext faults req db db'
      → Recorded req.idempotency_key (ext.new_uuid 0) db'
  Committed-Recorded req db db' keyed c = record {
    entry = debit_entry ext (ext.new_uuid 1) (ext.new_uuid 0) req;
    reserved = rw (c.keys, keyed, text_eq_refl);
    found = rw c.entries (
        find_entry-cons (debit_key req.idempotency_key) _ _ c.new_credit
          (own_debit req db.entries));
    same_transaction = unfold debit_entry make_entry in refl;
  }

  Committed-keeps :
      (key tx_id : Text) (req : TransferRequest) (db db' : Db)
      → Committed ext faults req db db'
      → Recorded key tx_id db
      → Recorded key tx_id db'
  Committed-keeps key tx_id req db db' c r = record {
    entry = r.entry;
    reserved = rw c.keys (kept (text_eq req.idempotency_key []) key _ _ r.reserved);
    found = rw c.entries (
        find_entry-cons (debit_key key) _ _ c.new_credit
          (find_entry-cons (debit_key key) _ _ c.new_debit r.found));
    same_transaction = r.same_transaction;
  }

  MultiCommitted-keeps :
      (key tx_id : Text) (reqs : List TransferRequest) (db db' : Db)
      → MultiCommitted ext faults reqs db db'
      → Recorded key tx_id db
      → Recorded key tx_id db'
  MultiCommitted-keeps key tx_id reqs db db' c r = record {
    entry = r.entry;
    reserved =
        rw (c.same_keys, insert_entries-keys faults key c.entries c.reserved c.inserting)
          (reserve_keys-reserved faults key reqs db c.reserving r.reserved);
    found = rw c.same_entries (
        insert_entries-found faults (debit_key key) c.entries c.reserved c.inserting
          (rw (reserve_keys-entries faults reqs db c.reserving) r.found));
    same_transaction = r.same_transaction;
  }

-- What is on record stays on record through every run.
pub Runs-Recorded :
    {db e : Db} → (key tx_id : Text) → Runs db e → Recorded key tx_id db → Recorded key tx_id e
Runs-Recorded key tx_id start rec = rec
Runs-Recorded key tx_id (after_transfer {d = d} r ext faults req h) rec =
    rw (← h) (elim (transfer-cases ext faults req d) [
      | inl same ↦ rw same (Runs-Recorded key tx_id r rec)
      | inr (done, c) ↦
          Committed-keeps ext faults key tx_id req d _ c (Runs-Recorded key tx_id r rec)
    ])
Runs-Recorded key tx_id (after_multi {d = d} r ext faults reqs h) rec =
    rw (← h) (elim (multi_transfer-cases ext faults reqs d) [
      | inl same ↦ rw same (Runs-Recorded key tx_id r rec)
      | inr (done, c) ↦
          MultiCommitted-keeps ext faults key tx_id reqs d _ c (Runs-Recorded key tx_id r rec)
    ])

-- A key that is reserved stays reserved through every run.
pub Runs-reserved :
    {db e : Db} (key : Text)
    → Runs db e
    → any (text_eq key) db.idempotency ≡ true
    → any (text_eq key) e.idempotency ≡ true
Runs-reserved key start h = h
Runs-reserved key (after_transfer {d = d} r ext faults req e) h =
    rw (← e) (elim (transfer-cases ext faults req d) [
      | inl same ↦ rw same (Runs-reserved key r h)
      | inr (done, c) ↦
          rw c.keys
            (kept ext faults (text_eq req.idempotency_key []) key _ _ (Runs-reserved key r h))
    ])
Runs-reserved key (after_multi {d = d} r ext faults reqs e) h =
    rw (← e) (elim (multi_transfer-cases ext faults reqs d) [
      | inl same ↦ rw same (Runs-reserved key r h)
      | inr (done, c) ↦
          rw (c.same_keys, insert_entries-keys faults key c.entries c.reserved c.inserting)
            (reserve_keys-reserved faults key reqs d c.reserving (Runs-reserved key r h))
    ])

-- A request that passes the checks of Transfer.
pub record IsValidRequest (req : TransferRequest) : Type 0 where
  pub debit_valid : is_valid_account req.debit_account ≡ true
  pub credit_valid : is_valid_account req.credit_account ≡ true
  pub positive : ltb_ℤ (pos 0) req.amount ≡ true
  pub distinct : text_eq req.debit_account req.credit_account ≡ false

-- No call of the database fails that the method makes before it writes an entry.
pub record CanRead (faults : Faults) (key : Text) : Type 0 where
  pub begins : faults.begin_fails ≡ false
  pub reserves : faults.reserve_fails key ≡ false
  pub finds : faults.find_fails ≡ false

module _ (ext : Externals) (faults : Faults) (req : TransferRequest) (db : Db) where
  transfer_again :
      {tx_id : Text}
      → text_eq req.idempotency_key [] ≡ false
      → any (has_key req.idempotency_key) db.entries ≡ false
      → Recorded req.idempotency_key tx_id db
      → IsValidRequest req
      → CanRead faults req.idempotency_key
      → transfer ext faults req db ≡ (ok tx_id, db)
  unfolding transfer reserve_key existing
  transfer_again keyed bare rec valid can =
      let found = find_entry-keyed req.idempotency_key db.entries bare in ground arith

  -- Under a key that is reserved nothing is written, whatever else the request says.
  pub transfer_reserved :
      text_eq req.idempotency_key [] ≡ false
      → any (text_eq req.idempotency_key) db.idempotency ≡ true
      → (transfer ext faults req db).1 ≡ db
  unfolding transfer reserve_key
  transfer_reserved keyed taken = ground arith

-- A transfer succeeded under a key that was new. After any run from there, every valid request
-- under that key, from any caller and with any contents, returns the transaction of the first and
-- leaves the tables as they are, provided that the database answers and no row has the bare key.
pub transfer-replay :
    (ext ext' : Externals) (faults faults' : Faults) (req req' : TransferRequest) (db d e : Db)
    {tx_id : Text}
    → text_eq req.idempotency_key [] ≡ false
    → any (text_eq req.idempotency_key) db.idempotency ≡ false
    → transfer ext faults req db ≡ (ok tx_id, d)
    → Runs d e
    → req'.idempotency_key ≡ req.idempotency_key
    → any (has_key req.idempotency_key) e.entries ≡ false
    → IsValidRequest req'
    → CanRead faults' req.idempotency_key
    → transfer ext' faults' req' e ≡ (ok tx_id, e)
transfer-replay ext ext' faults faults' req req' db d e {tx_id} keyed fresh first run same bare
      valid can =
    let (tx_eq, c) = transfer_fresh ext faults req db fresh first in
    let recorded : Recorded req.idempotency_key tx_id d =
      rw tx_eq (Committed-Recorded ext faults req db d keyed c) in
    transfer_again ext' faults' req' e (rw same keyed) (rw same bare)
      (rw same (Runs-Recorded req.idempotency_key tx_id run recorded)) valid (rw same can)

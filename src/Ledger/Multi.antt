-- ===== src/Ledger/Multi.antt =====
-- What a multi-transfer has done by the time it returns, and that it keeps the sum of all entries.
use omnigo_app.Common.{ℕ, suc, ◌+◌, ◌≡◌, ◌∙◌, ap, Bool, List, [], ◌∷◌, arith, inl, inr, ◌⊎◌, not}
use omnigo_app.Common.Int.{ℤ, pos, neg, ◌+ℤ◌, int_laws}
use omnigo_app.Common.Text.{Text}
use omnigo_app.Ledger.Models.{LedgerEntry, TransferRequest, Db}
use omnigo_app.Ledger.Tx.{
  LedgerError, Result, Faults, ok, err, next, require, finish-cases, finish-err, next_injective,
  >>=-eq-next,
}
use omnigo_app.Ledger.Entries.{Externals, make_entry, debit_entry, credit_entry}
use omnigo_app.Ledger.Rows.{insert_entries, insert_tb_outbox_entry, reserve_key}
use omnigo_app.Ledger.Service.{
  multi_transfer, multi_transfer_body, reserve_keys, build_entries, enqueue_all, sum_by, amount_of,
  is_nil,
}
use omnigo_app.Ledger.Conservation.{total, regroup}

-- The statements that both loops of a multi-transfer are made of.
module _ (faults : Faults) where
  reserve_key-entries :
      (p : LedgerEntry → Bool) (key : Text) (db : Db) {db' : Db}
      → reserve_key faults p key db ≡ next db'
      → db'.entries ≡ db.entries
  unfolding reserve_key
  reserve_key-entries p key db h = ground arith

  pub reserve_keys-entries :
      (reqs : List TransferRequest) (db : Db) {db' : Db}
      → reserve_keys faults reqs db ≡ next db'
      → db'.entries ≡ db.entries
  unfolding reserve_keys
  reserve_keys-entries [] db h = ground arith
  reserve_keys-entries (req ∷ reqs) db h =
      let (db₁, e, k) = >>=-eq-next (reserve_key faults _ req.idempotency_key db) _ h in
      reserve_keys-entries reqs db₁ k ∙ reserve_key-entries _ req.idempotency_key db e

  pub insert_entries-sum :
      (w : LedgerEntry → ℤ) (es : List LedgerEntry) (db : Db) {db' : Db}
      → insert_entries faults es db ≡ next db'
      → sum_by w db'.entries ≡ sum_by w es +ℤ sum_by w db.entries
  unfolding insert_entries sum_by
  insert_entries-sum w [] db {db'} h = ground (arith, zero_sum (sum_by w db.entries))
    where
      zero_sum : (a : ℤ) → pos 0 +ℤ a ≡ a
      zero_sum a = omega int_laws
  insert_entries-sum w (e ∷ es) db {db'} h = ground (
    arith,
    insert_entries-sum w es (record db { entries = e ∷ db.entries }) {db' = db'},
    regroup (sum_by w es) (w e) (sum_by w db.entries),
  )

module _ (ext : Externals) (faults : Faults) where
  open ext use {new_uuid}

  pub record MultiCommitted (reqs : List TransferRequest) (db db' : Db) : Type 0 where
    pub reserved : Db
    pub entries : List LedgerEntry
    pub inserted : Db
    pub reserving : reserve_keys faults reqs db ≡ next reserved
    pub building : build_entries ext 0 (new_uuid 0) reqs ≡ next entries
    pub inserting : insert_entries faults entries reserved ≡ next inserted
    pub same_entries : db'.entries ≡ inserted.entries
    pub same_keys : db'.idempotency ≡ inserted.idempotency

  enqueue_all-entries :
      (tx_id : Text) (reqs : List TransferRequest) (db : Db) {db' : Db}
      → enqueue_all ext faults tx_id reqs db ≡ next db'
      → (db'.entries ≡ db.entries) × (db'.idempotency ≡ db.idempotency)
  unfolding enqueue_all insert_tb_outbox_entry
  enqueue_all-entries tx_id reqs db h = ground arith

  multi_transfer_body-next :
      (reqs : List TransferRequest) (db : Db) {t : Text} {db' : Db}
      → multi_transfer_body ext faults reqs db ≡ next (t, db')
      → (t ≡ new_uuid 0) × MultiCommitted reqs db db'
  unfolding multi_transfer_body
  multi_transfer_body-next reqs db {t} {db'} h =
      let (_, _, h₁) = >>=-eq-next (require (not (is_nil reqs)) LedgerError.no_transfers) _ h in
      let (_, _, h₂) =
        >>=-eq-next (require (not faults.begin_fails) LedgerError.begin_failed) _ h₁ in
      let (reserved, e₁, h₃) = >>=-eq-next (reserve_keys faults reqs db) _ h₂ in
      let (entries, e₂, h₄) = >>=-eq-next (build_entries ext 0 (new_uuid 0) reqs) _ h₃ in
      let (inserted, e₃, h₅) = >>=-eq-next (insert_entries faults entries reserved) _ h₄ in
      let (queued, e₄, h₆) = >>=-eq-next (enqueue_all ext faults (new_uuid 0) reqs inserted) _ h₅ in
      let (t_eq, db_eq) = next_injective h₆ in
      let same = enqueue_all-entries (new_uuid 0) reqs inserted e₄ in
      let commits : (t ≡ new_uuid 0) × MultiCommitted reqs db db' = (
        t_eq,
        record {
          reserved = reserved;
          entries = entries;
          inserted = inserted;
          reserving = e₁;
          building = e₂;
          inserting = e₃;
          same_entries = ap (λ (d : Db). d.entries) db_eq ∙ same.0;
          same_keys = ap (λ (d : Db). d.idempotency) db_eq ∙ same.1;
        },
      ) in
      commits

  -- A multi-transfer leaves the tables as they were, or it has committed and returns its identifier.
  pub multi_transfer-cases :
      (reqs : List TransferRequest) (db : Db)
      → ((multi_transfer ext faults reqs db).1 ≡ db)
        ⊎ (((multi_transfer ext faults reqs db).0 ≡ ok (new_uuid 0))
            × MultiCommitted reqs db (multi_transfer ext faults reqs db).1)
  unfolding multi_transfer
  multi_transfer-cases reqs db =
      elim (finish-cases faults db (multi_transfer_body ext faults reqs db)) [
        | inl same ↦ inl same
        | inr (t, db', h, e) ↦ rw e (inr (committed t db' (multi_transfer_body-next reqs db h)))
      ]
    where
      committed :
          (t : Text) (db' : Db)
          → (t ≡ new_uuid 0) × MultiCommitted reqs db db'
          → (◌≡◌ {A = Result Text} (ok t) (ok (new_uuid 0))) × MultiCommitted reqs db db'
      committed t db' (e, c) = (ap ok e, c)

  -- An error means that nothing was written.
  pub multi_transfer-err :
      (reqs : List TransferRequest) (db : Db) {e : LedgerError}
      → (multi_transfer ext faults reqs db).0 ≡ err e
      → (multi_transfer ext faults reqs db).1 ≡ db
  unfolding multi_transfer
  multi_transfer-err reqs db {e} h =
      finish-err faults db (multi_transfer_body ext faults reqs db) e h

  pub build_entries-cons :
      (i : ℕ) (tx_id : Text) (req : TransferRequest) (reqs : List TransferRequest)
      {es : List LedgerEntry}
      → build_entries ext i tx_id (req ∷ reqs) ≡ next es
      → (rest : List LedgerEntry) × (build_entries ext (suc i) tx_id reqs ≡ next rest)
        × (es
            ≡ debit_entry ext (new_uuid (1 + i + i)) tx_id req
              ∷ credit_entry ext (new_uuid (2 + i + i)) tx_id req
              ∷ rest)
  unfolding build_entries
  build_entries-cons i tx_id req reqs h = ground arith

  build_entries-sum :
      (i : ℕ) (tx_id : Text) (reqs : List TransferRequest) {es : List LedgerEntry}
      → build_entries ext i tx_id reqs ≡ next es
      → sum_by amount_of es ≡ pos 0
  unfolding sum_by debit_entry credit_entry make_entry
  build_entries-sum i tx_id [] h = rw (← build_entries-nil h)
    where
      build_entries-nil : {es : List LedgerEntry} → build_entries ext i tx_id [] ≡ next es → [] ≡ es
      build_entries-nil h = unfold build_entries in ground arith
  build_entries-sum i tx_id (req ∷ reqs) h =
      let (rest, e, split) = build_entries-cons i tx_id req reqs h in
      rw split (cancel_debit req.amount _ ∙ build_entries-sum (suc i) tx_id reqs e)
    where
      cancel_debit : (a b : ℤ) → neg a +ℤ (a +ℤ b) ≡ b
      cancel_debit a b = omega int_laws

  MultiCommitted-total :
      (reqs : List TransferRequest) (db db' : Db)
      → MultiCommitted reqs db db'
      → total db' ≡ total db
  unfolding total
  MultiCommitted-total reqs db db' c =
      rw
        (
          c.same_entries,
          insert_entries-sum faults amount_of c.entries c.reserved c.inserting,
          build_entries-sum 0 (new_uuid 0) reqs c.building,
          reserve_keys-entries faults reqs db c.reserving,
        )
        (omega int_laws)

  -- No multi-transfer changes the sum of all entries, whatever it returns.
  pub multi_transfer-total :
      (reqs : List TransferRequest) (db : Db)
      → total (multi_transfer ext faults reqs db).1 ≡ total db
  multi_transfer-total reqs db = elim (multi_transfer-cases reqs db) [
    | inl same ↦ rw same
    | inr (done, c) ↦ MultiCommitted-total reqs db _ c
  ]

-- ===== src/Ledger/Net.antt =====
-- What a multi-transfer does to the balance of an account, and to the keys that are reserved.
use omnigo_app.Common.{◌≡◌, refl, ℕ, suc, Bool, true, false, List, [], ◌∷◌, any, all, arith}
use omnigo_app.Common.Int.{ℤ, pos, ◌+ℤ◌, ltb_ℤ, int_laws}
use omnigo_app.Common.Text.{Text, text_eq, text_eq_refl}
use omnigo_app.Ledger.Models.{Account, LedgerEntry, TransferRequest, Db}
use omnigo_app.Ledger.Tx.{Faults, next, >>=-eq-next}
use omnigo_app.Ledger.Entries.{Externals, make_entry, debit_entry, credit_entry}
use omnigo_app.Ledger.Rows.{reserve_key}
use omnigo_app.Ledger.Service.{build_entries, reserve_keys, sum_by, balance_in, balance}
use omnigo_app.Ledger.Conservation.{net}
use omnigo_app.Ledger.Found.{insert_entries-keys, reserve_keys-reserved}
use omnigo_app.Ledger.Multi.{
  MultiCommitted, build_entries-cons, insert_entries-sum, reserve_keys-entries,
}

-- What requests add to the balance of an account together.
abbrev pub net_all : Account → List TransferRequest → ℤ
net_all account [] = pos 0
net_all account (req ∷ reqs) = net account req +ℤ net_all account reqs

regroup_net : (a b c : ℤ) → a +ℤ (b +ℤ c) ≡ b +ℤ a +ℤ c
regroup_net a b c = omega int_laws

module _ (ext : Externals) (faults : Faults) where
  build_entries-nil :
      (i : ℕ) (tx_id : Text) {es : List LedgerEntry}
      → build_entries ext i tx_id [] ≡ next es
      → [] ≡ es
  unfolding build_entries
  build_entries-nil i tx_id h = ground arith

  build_entries-positive :
      (i : ℕ) (tx_id : Text) (reqs : List TransferRequest) {es : List LedgerEntry}
      → build_entries ext i tx_id reqs ≡ next es
      → all (λ r. ltb_ℤ (pos 0) r.amount) reqs ≡ true
  build_entries-positive i tx_id [] h = refl
  build_entries-positive i tx_id (req ∷ reqs) h =
      let (rest, e, split) = build_entries-cons ext faults i tx_id req reqs h in
      rw (own_positive h, build_entries-positive (suc i) tx_id reqs e) refl
    where
      own_positive :
          {es : List LedgerEntry}
          → build_entries ext i tx_id (req ∷ reqs) ≡ next es
          → ltb_ℤ (pos 0) req.amount ≡ true
      own_positive h = unfold build_entries in ground arith

  -- No request of a multi-transfer that has committed is for nothing.
  pub MultiCommitted-positive :
      (reqs : List TransferRequest) (db db' : Db)
      → MultiCommitted ext faults reqs db db'
      → all (λ r. ltb_ℤ (pos 0) r.amount) reqs ≡ true
  MultiCommitted-positive reqs db db' c = build_entries-positive 0 (ext.new_uuid 0) reqs c.building

  entries-net :
      (account : Account) (i : ℕ) (tx_id : Text) (reqs : List TransferRequest)
      {es : List LedgerEntry}
      → build_entries ext i tx_id reqs ≡ next es
      → sum_by (balance_in account) es ≡ net_all account reqs
  unfolding sum_by net debit_entry credit_entry make_entry
  entries-net account i tx_id [] h = rw (← build_entries-nil i tx_id h) refl
  entries-net account i tx_id (req ∷ reqs) h =
      let (rest, e, split) = build_entries-cons ext faults i tx_id req reqs h in
      rw (split, entries-net account (suc i) tx_id reqs e) (regroup_net _ _ _)

  -- The balance after a multi-transfer that has committed.
  pub MultiCommitted-balance :
      (account : Account) (reqs : List TransferRequest) (db db' : Db)
      → MultiCommitted ext faults reqs db db'
      → balance account db' ≡ net_all account reqs +ℤ balance account db
  unfolding balance
  MultiCommitted-balance account reqs db db' c =
      rw
        (
          c.same_entries,
          insert_entries-sum faults (balance_in account) c.entries c.reserved c.inserting,
          entries-net account 0 (ext.new_uuid 0) reqs c.building,
          reserve_keys-entries faults reqs db c.reserving,
        )
        refl

  reserve_key-own :
      (p : LedgerEntry → Bool) (key : Text) (db : Db) {db' : Db}
      → text_eq key [] ≡ false
      → reserve_key faults p key db ≡ next db'
      → any (text_eq key) db'.idempotency ≡ true
  unfolding reserve_key
  reserve_key-own p key db keyed h = ground (arith, text_eq_refl key)

  -- The key of the first request is reserved by then.
  pub MultiCommitted-reserved :
      (req : TransferRequest) (reqs : List TransferRequest) (db db' : Db)
      → text_eq req.idempotency_key [] ≡ false
      → MultiCommitted ext faults (req ∷ reqs) db db'
      → any (text_eq req.idempotency_key) db'.idempotency ≡ true
  unfolding reserve_keys
  MultiCommitted-reserved req reqs db db' keyed c =
      let (db₁, e, k) = >>=-eq-next (reserve_key faults _ req.idempotency_key db) _ c.reserving in
      rw
        (
          c.same_keys,
          insert_entries-keys faults req.idempotency_key c.entries c.reserved c.inserting,
        )
        (reserve_keys-reserved faults req.idempotency_key reqs db₁ k
          (reserve_key-own _ req.idempotency_key db keyed e))

  -- It was not reserved before.
  pub MultiCommitted-fresh :
      (req : TransferRequest) (reqs : List TransferRequest) (db db' : Db)
      → text_eq req.idempotency_key [] ≡ false
      → MultiCommitted ext faults (req ∷ reqs) db db'
      → any (text_eq req.idempotency_key) db.idempotency ≡ false
  unfolding reserve_keys reserve_key
  MultiCommitted-fresh req reqs db db' keyed c = let reserving = c.reserving in ground arith

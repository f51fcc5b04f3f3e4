-- ===== src/Ledger/Found.antt =====
-- Lookups by idempotency key, and what the UNIQUE column keeps of them.
use omnigo_app.Common.{
  ◌≡◌, refl, Bool, true, false, List, [], ◌∷◌, any, arith, some, inl, inr, Bool-cases,
}
use omnigo_app.Common.Text.{Text, text_eq, text_eq_sound}
use omnigo_app.Ledger.Models.{LedgerEntry, TransferRequest, Db}
use omnigo_app.Ledger.Tx.{Faults, next, >>=-eq-next}
use omnigo_app.Ledger.Entries.{debit_key}
use omnigo_app.Ledger.Rows.{has_key, find_entry, reserve_key, insert_entries}
use omnigo_app.Ledger.Service.{keyed_or_debit, reserve_keys}

any_of_found :
    (p : LedgerEntry → Bool) (es : List LedgerEntry) {x : LedgerEntry}
    → find_entry p es ≡ some x
    → any p es ≡ true
unfolding find_entry
any_of_found p [] h = ground arith
any_of_found p (e ∷ es) {x} h = ground (arith, any_of_found p es {x = x})

-- A row under a key that no row has leaves every lookup that succeeds as it is.
pub find_entry-cons :
    (k : Text) (e : LedgerEntry) (es : List LedgerEntry) {x : LedgerEntry}
    → any (has_key e.idempotency_key) es ≡ false
    → find_entry (has_key k) es ≡ some x
    → find_entry (has_key k) (e ∷ es) ≡ some x
unfolding find_entry
find_entry-cons k e es {x} new h = elim (Bool-cases (has_key k e)) [
  | inl same ↦
      let taken : any (has_key e.idempotency_key) es ≡ true =
        rw (text_eq_sound e.idempotency_key k same) (any_of_found (has_key k) es h) in
      cc (taken, new)
  | inr other ↦ rw other h
]

-- Where no row has the bare key, only the row of the debit is found.
pub find_entry-keyed :
    (key : Text) (es : List LedgerEntry)
    → any (has_key key) es ≡ false
    → find_entry (keyed_or_debit key) es ≡ find_entry (has_key (debit_key key)) es
unfolding find_entry
find_entry-keyed key [] h = refl
find_entry-keyed key (e ∷ es) h = ground (arith, find_entry-keyed key es)

module _ (faults : Faults) (k : Text) where
  pub insert_entries-found :
      (es : List LedgerEntry) (db : Db) {db' : Db} {x : LedgerEntry}
      → insert_entries faults es db ≡ next db'
      → find_entry (has_key k) db.entries ≡ some x
      → find_entry (has_key k) db'.entries ≡ some x
  unfolding insert_entries
  insert_entries-found [] db h found = ground arith
  insert_entries-found (e ∷ es) db {db'} {x} h found = ground (
    arith,
    find_entry-cons k e db.entries {x = x},
    insert_entries-found es (record db { entries = e ∷ db.entries }) {db' = db'} {x = x},
  )

  pub insert_entries-keys :
      (es : List LedgerEntry) (db : Db) {db' : Db}
      → insert_entries faults es db ≡ next db'
      → db'.idempotency ≡ db.idempotency
  unfolding insert_entries
  insert_entries-keys [] db h = ground arith
  insert_entries-keys (e ∷ es) db {db'} h =
      ground (arith, insert_entries-keys es (record db { entries = e ∷ db.entries }) {db' = db'})

  pub reserve_keys-reserved :
      (reqs : List TransferRequest) (db : Db) {db' : Db}
      → reserve_keys faults reqs db ≡ next db'
      → any (text_eq k) db.idempotency ≡ true
      → any (text_eq k) db'.idempotency ≡ true
  unfolding reserve_keys
  reserve_keys-reserved [] db h r = ground arith
  reserve_keys-reserved (req ∷ reqs) db h r =
      let (db₁, e, rest) = >>=-eq-next (reserve_key faults _ req.idempotency_key db) _ h in
      reserve_keys-reserved reqs db₁ rest (reserve_key-reserved _ req.idempotency_key db e r)
    where
      reserve_key-reserved :
          (p : LedgerEntry → Bool) (key : Text) (db : Db) {db' : Db}
          → reserve_key faults p key db ≡ next db'
          → any (text_eq k) db.idempotency ≡ true
          → any (text_eq k) db'.idempotency ≡ true
      reserve_key-reserved p key db h r = unfold reserve_key in ground arith

-- ===== src/Ledger/Tx.antt =====
-- How a method of the ledger ends: with an early return, which the deferred Rollback follows, or at
-- the Commit. What the database may do by itself is a record of faults.
use omnigo_app.Common.{Bool, true, false, if◌then◌else◌, ◌≡◌, refl, ◌⊎◌, inl, inr, arith}
use omnigo_app.Common.Text.{Text}
use omnigo_app.Ledger.Models.{LedgerEntry, Db}

pub data LedgerError : Type 0 where
  invalid_debit_account invalid_credit_account amount_not_positive same_account : LedgerError
  no_transfers begin_failed idempotency_failed entry_not_found : LedgerError
  insert_failed bad_uuid outbox_failed commit_failed : LedgerError
  bad_commission_rate : LedgerError

pub data Result {ℓ} (A : Type ℓ) : Type ℓ where
  ok : A → Result A
  err : LedgerError → Result A

-- `exit r` is a `return r` before the Commit.
pub data Step {ℓ} (A : Type ℓ) : Type ℓ where
  exit : Result Text → Step A
  next : A → Step A

infixl 5 ◌>>=◌ ◌>>◌
abbrev pub ◌>>=◌ {ℓ κ} : {A : Type ℓ} {B : Type κ} → Step A → (A → Step B) → Step B
exit r >>= f = exit r
next a >>= f = f a

abbrev pub ◌>>◌ {ℓ} : {B : Type ℓ} → Step (Unit {0}) → Step B → Step B
m >> k = m >>= λ _. k

-- `if !test { return uuid.Nil, e }`
abbrev pub require : Bool → LedgerError → Step (Unit {0})
require true e = next tt
require false e = exit (err e)

-- Which calls of the database fail during a method.
pub record Faults : Type 0 where
  pub begin_fails : Bool
  pub reserve_fails : Text → Bool
  pub find_fails : Bool
  pub insert_fails : LedgerEntry → Bool
  pub outbox_fails : Bool
  pub commit_fails : Bool

abbrev pub no_faults : Faults
no_faults = record {
  begin_fails = false;
  reserve_fails = λ _. false;
  find_fails = false;
  insert_fails = λ _. false;
  outbox_fails = false;
  commit_fails = false;
}

-- The state is replaced at a Commit that succeeds, and at no other time.
abbrev pub commit : Bool → Db → Text → Db → Result Text × Db
commit fails db tx_id db' = if fails then (err commit_failed, db) else (ok tx_id, db')

abbrev pub finish : Faults → Db → Step (Text × Db) → Result Text × Db
finish faults db (exit r) = (r, db)
finish faults db (next (tx_id, db')) = commit faults.commit_fails db tx_id db'

-- Inversion of a step that hands a value on.
pub >>=-eq-next {ℓ κ} :
    {A : Type ℓ} {B : Type κ} (m : Step A) (f : A → Step B) {b : B}
    → (m >>= f) ≡ next b
    → (a : A) × (m ≡ next a) × (f a ≡ next b)
>>=-eq-next (exit r) f h = cc
>>=-eq-next (next a) f h = (a, refl, h)

pub >>-eq-next {ℓ} :
    {B : Type ℓ} (b : Bool) (e : LedgerError) (m : Step B) {c : B}
    → (require b e >> m) ≡ next c
    → (b ≡ true) × (m ≡ next c)
>>-eq-next true e m h = (refl, h)
>>-eq-next false e m h = cc

-- A method leaves the tables alone, or it has committed what its last step handed on.
pub finish-cases :
    (faults : Faults) (db : Db) (m : Step (Text × Db))
    → ((finish faults db m).1 ≡ db)
      ⊎ ((tx_id : Text) × (db' : Db) × (m ≡ next (tx_id, db'))
          × (finish faults db m ≡ (ok tx_id, db')))
finish-cases faults db (exit r) = inl refl
finish-cases faults db (next (tx_id, db')) = split faults.commit_fails
  where
    split :
        (b : Bool)
        → ((commit b db tx_id db').1 ≡ db)
          ⊎ ((t : Text) × (d : Db) × (◌≡◌ {A = Step (Text × Db)} (next (tx_id, db')) (next (t, d)))
              × (commit b db tx_id db' ≡ (ok t, d)))
    split true = inl refl
    split false = inr (tx_id, db', refl, refl)

-- An error means that nothing was written.
pub finish-err :
    (faults : Faults) (db : Db) (m : Step (Text × Db)) (e : LedgerError)
    → (finish faults db m).0 ≡ err e
    → (finish faults db m).1 ≡ db
finish-err faults db (exit r) e h = refl
finish-err faults db (next (tx_id, db')) e h = split faults.commit_fails h
  where
    split : (b : Bool) → (commit b db tx_id db').0 ≡ err e → (commit b db tx_id db').1 ≡ db
    split true h = refl
    split false h = cc

pub next_injective :
    {t u : Text} {d e : Db}
    → ◌≡◌ {A = Step (Text × Db)} (next (t, d)) (next (u, e))
    → (u ≡ t) × (e ≡ d)
next_injective h = (ground arith, ground arith)

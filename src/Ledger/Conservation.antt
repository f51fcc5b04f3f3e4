-- ===== src/Ledger/Conservation.antt =====
-- Double entry: a transfer moves its amount from one balance to another, and no method changes the
-- sum of all entries.
use omnigo_app.Common.{◌≡◌, false, any, if◌then◌else◌, inl, inr}
use omnigo_app.Common.Int.{ℤ, pos, neg, ◌+ℤ◌, int_laws}
use omnigo_app.Common.Text.{Text, text_eq}
use omnigo_app.Ledger.Models.{Account, TransferRequest, Db}
use omnigo_app.Ledger.Tx.{Faults, ok}
use omnigo_app.Ledger.Entries.{Externals, make_entry, debit_entry, credit_entry}
use omnigo_app.Ledger.Service.{transfer, sum_by, amount_of, balance_in, balance}
use omnigo_app.Ledger.Outcome.{Committed, transfer-cases, transfer_fresh}

-- The sum of every entry of the ledger.
unfoldable pub total : Db → ℤ
total db = sum_by amount_of db.entries

pub regroup : (a b c : ℤ) → a +ℤ (b +ℤ c) ≡ b +ℤ a +ℤ c
regroup a b c = omega int_laws

cancel : (a b : ℤ) → a +ℤ (neg a +ℤ b) ≡ b
cancel a b = omega int_laws

-- What a request adds to the balance of an account.
unfoldable pub net : Account → TransferRequest → ℤ
net account req =
    (if text_eq req.credit_account account then req.amount else pos 0)
    +ℤ (if text_eq req.debit_account account then neg req.amount else pos 0)

module _ (ext : Externals) (faults : Faults) where
  Committed-total :
      (req : TransferRequest) (db db' : Db) → Committed ext faults req db db' → total db' ≡ total db
  unfolding total sum_by debit_entry credit_entry make_entry
  Committed-total req db db' c = rw c.entries (cancel req.amount (sum_by amount_of db.entries))

  -- No transfer changes the sum of all entries, whatever it returns.
  pub transfer-total :
      (req : TransferRequest) (db : Db) → total (transfer ext faults req db).1 ≡ total db
  transfer-total req db = elim (transfer-cases ext faults req db) [
    | inl same ↦ rw same
    | inr (done, c) ↦ Committed-total req db _ c
  ]

  -- A transfer that succeeds under a key that was never reserved, or under no key, adds its amount
  -- to the balance of the credit account, takes it from that of the debit account, and leaves every
  -- other balance alone.
  pub transfer-balance :
      (req : TransferRequest) (db : Db) (account : Account) {t : Text} {db' : Db}
      → any (text_eq req.idempotency_key) db.idempotency ≡ false
      → transfer ext faults req db ≡ (ok t, db')
      → balance account db' ≡ balance account db +ℤ net account req
  unfolding balance sum_by balance_in net debit_entry credit_entry make_entry
  transfer-balance req db account fresh h =
      rw (transfer_fresh ext faults req db fresh h).1.entries (regroup_net _ _ _)
    where
      regroup_net : (a b c : ℤ) → a +ℤ (b +ℤ c) ≡ c +ℤ (a +ℤ b)
      regroup_net a b c = omega int_laws

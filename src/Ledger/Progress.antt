-- ===== src/Ledger/Progress.antt =====
-- When a transfer goes through.
use omnigo_app.Common.{
  ℕ, ◌≡◌, ap, false, any, arith, some, length, length-append, inl, inr, Bool-cases,
}
use omnigo_app.Common.Text.{Text, codes, text_eq, text_eq_sound}
use omnigo_app.Ledger.Models.{TransferRequest, Db}
use omnigo_app.Ledger.Tx.{ok, no_faults}
use omnigo_app.Ledger.Entries.{
  Externals, make_entry, debit_key, credit_key, debit_entry, credit_entry,
}
use omnigo_app.Ledger.Rows.{has_key, reserve_key, insert_entries, insert_tb_outbox_entry}
use omnigo_app.Ledger.Service.{transfer}
use omnigo_app.Ledger.Replay.{IsValidRequest}

-- The two entries of a request never have the same key.
debit_ne_credit : (key : Text) → text_eq (debit_key key) (credit_key key) ≡ false
unfolding debit_key credit_key
debit_ne_credit key = elim (Bool-cases (text_eq (debit_key key) (credit_key key))) [
  | inl same ↦ absurd (
      omega (
        arith,
        ap length (text_eq_sound _ _ same),
        length-append {0} key (codes ":debit"),
        length-append {0} key (codes ":credit"),
      ))
  | inr differ ↦ differ
]

-- Without faults of the database, a valid request whose key is neither reserved nor on record goes
-- through and returns its new identifier, if that is a UUID.
pub transfer-ok :
    (ext : Externals) (req : TransferRequest) (db : Db) {id : ℕ}
    → IsValidRequest req
    → any (text_eq req.idempotency_key) db.idempotency ≡ false
    → any (has_key (debit_key req.idempotency_key)) db.entries ≡ false
    → any (has_key (credit_key req.idempotency_key)) db.entries ≡ false
    → ext.uuid_to_uint128 (ext.new_uuid 0) ≡ some id
    → (transfer ext no_faults req db).0 ≡ ok (ext.new_uuid 0)
unfolding transfer reserve_key insert_entries insert_tb_outbox_entry debit_entry credit_entry
    make_entry
transfer-ok ext req db valid fresh no_debit no_credit uuid =
    ground (arith, debit_ne_credit req.idempotency_key)

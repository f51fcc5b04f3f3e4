-- ===== src/Ledger/Mirror.antt =====
-- The dual write: what is queued for TigerBeetle moves the same money as the entries do.
use omnigo_app.Common.{
  ℕ, suc, ◌≡◌, refl, ◌∙◌, Bool, true, false, ◌&&◌, List, [], ◌∷◌, any, arith, inl, inr, ◌⊎◌, ◌==◌,
  some, length, ap, if◌then◌else◌,
}
use omnigo_app.Common.Int.{ℤ, pos, neg, pos_part, ◌+ℤ◌, int_laws, ltb_ℤ}
use omnigo_app.Common.Text.{Text, text_eq}
use omnigo_app.Ledger.Models.{LedgerEntry, TransferRequest, TbTransfer, TbOutboxEntry, pending, Db}
use omnigo_app.Ledger.Tx.{Result, Faults}
use omnigo_app.Ledger.Entries.{Externals, make_entry, debit_entry, credit_entry}
use omnigo_app.Ledger.Rows.{insert_entries, insert_tb_outbox_entry, reserve_key, is_open}
use omnigo_app.Ledger.Service.{transfer, sum_by, tb_transfer}

-- What a queued transfer adds to an account of TigerBeetle.
pub tb_net : ℕ → TbTransfer → ℤ
tb_net n t =
    (if t.credit_account_id == n then pos t.amount else pos 0)
    +ℤ (if t.debit_account_id == n then neg (pos t.amount) else pos 0)

pub tb_sum : ℕ → List TbTransfer → ℤ
tb_sum n [] = pos 0
tb_sum n (t ∷ ts) = tb_net n t +ℤ tb_sum n ts

-- All that has been queued for an account.
unfoldable pub queued : ℕ → List TbOutboxEntry → ℤ
queued n [] = pos 0
queued n (row ∷ rows) = tb_sum n row.payload +ℤ queued n rows

module _ (ext : Externals) where
  -- The entries of the accounts that TigerBeetle knows by a number.
  abbrev pub amount_in : ℕ → LedgerEntry → ℤ
  amount_in n e = if ext.account_to_uint128 e.account == n then e.amount else pos 0

  unfoldable pub IsMirrored : Db → Type 0
  IsMirrored db = (n : ℕ) → sum_by (amount_in n) db.entries ≡ queued n db.outbox

  -- The new identifier is not that of a row that waits.
  abbrev pub is_new : Db → Bool
  is_new db = any (λ r. text_eq r.transaction_id (ext.new_uuid 0) && is_open r.status) db.outbox

  abbrev outbox_row : Db → TbTransfer → TbOutboxEntry
  outbox_row db t = record {
    id = suc (length db.outbox);
    transaction_id = ext.new_uuid 0;
    payload = t ∷ [];
    status = pending;
    retry_count = 0;
    max_retries = 10;
  }

  module _ (faults : Faults) where
    -- With the dual write on, a transfer leaves the tables alone or writes two entries and a row.
    transfer-writes :
        (req : TransferRequest) (db : Db) {r : Result Text} {db' : Db}
        → ext.has_tb ≡ true
        → is_new db ≡ false
        → transfer ext faults req db ≡ (r, db')
        → (db' ≡ db)
          ⊎ ((id : ℕ) × (ext.uuid_to_uint128 (ext.new_uuid 0) ≡ some id)
              × (ltb_ℤ (pos 0) req.amount ≡ true)
              × (db'.entries
                  ≡ credit_entry ext (ext.new_uuid 2) (ext.new_uuid 0) req
                    ∷ debit_entry ext (ext.new_uuid 1) (ext.new_uuid 0) req
                    ∷ db.entries)
              × (db'.outbox ≡ outbox_row db (tb_transfer ext id req) ∷ db.outbox))
    unfolding transfer reserve_key insert_entries insert_tb_outbox_entry
    transfer-writes req db tb new h = ground arith

    same_net :
        (n : ℕ) (req : TransferRequest) (id : ℕ)
        → ltb_ℤ (pos 0) req.amount ≡ true
        → (s : ℤ)
        → amount_in n (credit_entry ext (ext.new_uuid 2) (ext.new_uuid 0) req)
            +ℤ (amount_in n (debit_entry ext (ext.new_uuid 1) (ext.new_uuid 0) req) +ℤ s)
          ≡ tb_net n (tb_transfer ext id req) +ℤ pos 0 +ℤ s
    unfolding debit_entry credit_entry make_entry tb_net tb_transfer
    same_net n req id positive s = rw (← amount_pos req.amount positive) (reassoc _ _ s)
      where
        amount_pos : (a : ℤ) → ltb_ℤ (pos 0) a ≡ true → a ≡ pos (pos_part a)
        amount_pos a h = ground arith

        reassoc : (a b c : ℤ) → a +ℤ (b +ℤ c) ≡ a +ℤ b +ℤ pos 0 +ℤ c
        reassoc a b c = omega int_laws

    -- With the dual write on and a new identifier, a transfer keeps the tables and the queue in
    -- agreement, whatever it returns.
    pub transfer-IsMirrored :
        (req : TransferRequest) (db : Db)
        → ext.has_tb ≡ true
        → is_new db ≡ false
        → IsMirrored db
        → IsMirrored (transfer ext faults req db).1
    unfolding IsMirrored
    transfer-IsMirrored req db tb new mirrored n = elim (transfer-writes req db tb new refl) [
      | inl same ↦ rw same (mirrored n)
      | inr (id, uuid, positive, entries, outbox) ↦ rw (entries, outbox) (step id positive)
    ]
      where
        step :
            (id : ℕ)
            → ltb_ℤ (pos 0) req.amount ≡ true
            → sum_by (amount_in n) (
                credit_entry ext (ext.new_uuid 2) (ext.new_uuid 0) req
                ∷ debit_entry ext (ext.new_uuid 1) (ext.new_uuid 0) req
                ∷ db.entries)
              ≡ queued n (outbox_row db (tb_transfer ext id req) ∷ db.outbox)
        step id positive =
            unfold sum_by queued tb_sum in
            same_net n req id positive (sum_by (amount_in n) db.entries)
            ∙ ap (λ (s : ℤ). tb_net n (tb_transfer ext id req) +ℤ pos 0 +ℤ s) (mirrored n)

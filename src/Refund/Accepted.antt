-- ===== src/Refund/Accepted.antt =====
-- What the ledger has done when it accepts a refund, and what the amount 0 stands for.
use omnigo_app.Common.{
  ◌≡◌, refl, ap, sym, ◌∙◌, ◌⊎◌, arith, true, ◌&&◌, any, some, Bool-cases, inl, inr,
}
use omnigo_app.Common.Int.{ℤ, pos}
use omnigo_app.Common.Text.{Text, text_eq}
use omnigo_app.Ledger.Models.{Db, TransferRequest}
use omnigo_app.Ledger.Tx.{ok, err}
use omnigo_app.Ledger.Tx
use omnigo_app.Ledger.Outcome.{Committed, transfer-cases, transfer_fresh}
use omnigo_app.Ledger.Service.{transfer}
use omnigo_app.Escrow.Models.{EscrowHold, find_hold}
use omnigo_app.Wallet.Customer.{succeeded}
use omnigo_app.Refund.Rows.{RefundOrder, RefundBooks, RefundCall, is_refundable}

module _ (c : RefundCall) where
  -- The ledger has said that it did a transfer of the amount: it has booked it now, or it knew the key
  -- before, from a transfer of whatever amount, and nothing is booked.
  pub record Accepted (n : ℤ) (b b' : RefundBooks) : Type 0 where
    pub request : TransferRequest
    pub same_amount : request.amount ≡ n
    pub booked_or_known :
        Committed c.ext c.ledger_faults request b.ledger b'.ledger
        ⊎ ((b'.ledger ≡ b.ledger)
            × (any (text_eq request.idempotency_key) b.ledger.idempotency ≡ true))

  pub transfer-Accepted :
      (req : TransferRequest) (db : Db)
      → succeeded (transfer c.ext c.ledger_faults req db).0 ≡ true
      → let db' = (transfer c.ext c.ledger_faults req db).1 in
        Committed c.ext c.ledger_faults req db db'
        ⊎ ((db' ≡ db) × (any (text_eq req.idempotency_key) db.idempotency ≡ true))
  transfer-Accepted req db good = of_reply (transfer c.ext c.ledger_faults req db) refl good
    where
      of_reply :
          (r : Tx.Result Text × Db)
          → transfer c.ext c.ledger_faults req db ≡ r
          → succeeded r.0 ≡ true
          → Committed c.ext c.ledger_faults req db r.1
            ⊎ ((r.1 ≡ db) × (any (text_eq req.idempotency_key) db.idempotency ≡ true))
      of_reply (err e, db') is_so fails = absurd (ground (arith, fails))
      of_reply (ok t, db') is_so works =
          elim (Bool-cases (any (text_eq req.idempotency_key) db.idempotency)) [
            | inr fresh ↦ inl (transfer_fresh c.ext c.ledger_faults req db fresh is_so).1
            | inl known ↦ elim (transfer-cases c.ext c.ledger_faults req db) [
              | inl kept ↦ inr (ap (λ r. r.1) (sym is_so) ∙ kept, known)
              | inr (done_so, made) ↦ inl (rw (ap (λ r. r.1) (sym is_so)) made)
            ]
          ]

  -- What the amount 0 stands for: the amount of a hold of the order that may be refunded, or the
  -- order's total, 0 where its read fails.
  pub data StandsFor (o : RefundOrder) (b : RefundBooks) (m : ℤ) : Type 0 where
    of_hold :
        (h : EscrowHold)
        → find_hold
            (λ g. text_eq g.order_tracking_id o.order_tracking_id && is_refundable g.status)
            b.holds
          ≡ some h
        → c.amount_column h ≡ some m
        → StandsFor o b m
    of_order : m ≡ o.total_amount_paisa → StandsFor o b m
    unread_total : c.total_read_fails ≡ true → m ≡ pos 0 → StandsFor o b m

-- ===== src/Ledger/Escrow.antt =====
-- backend/go-services/internal/ledger/escrow_service.go: the moves between the escrow accounts.
use omnigo_app.Common.{◌≡◌, false, ◌||◌, ◌++◌, [], ◌∷◌, any, arith, if◌then◌else◌}
use omnigo_app.Common.Int.{ℤ, pos, ◌-ℤ◌, int64}
use omnigo_app.Common.Text.{Text, codes, text_eq}
use omnigo_app.Common.Floats.{Float}
use omnigo_app.Ledger.Models.{
  TransferRequest, Db, central_escrow, vendor_pending_escrow, admin_revenue, vendor_wallet,
  customer_refund,
}
use omnigo_app.Ledger.Tx.{LedgerError, Result, Faults, err}
use omnigo_app.Ledger.Entries.{Externals}
use omnigo_app.Ledger.Rows.{reserve_key}
use omnigo_app.Ledger.Service.{transfer, multi_transfer}

unfoldable pub move_request : Text → ℤ → TransferRequest
move_request order_id amount = record {
  debit_account = central_escrow;
  credit_account = vendor_pending_escrow;
  amount = amount;
  currency = codes "PKR";
  reference_type = codes "order_escrow_hold";
  reference_id = order_id;
  description = codes "48-hour escrow hold for order " ++ order_id;
  idempotency_key = codes "escrow_hold_" ++ order_id;
}

unfoldable pub reverse_request : Text → ℤ → TransferRequest
reverse_request order_id amount = record {
  debit_account = vendor_pending_escrow;
  credit_account = customer_refund;
  amount = amount;
  currency = codes "PKR";
  reference_type = codes "order_refund";
  reference_id = order_id;
  description = codes "Refund for order " ++ order_id;
  idempotency_key = codes "refund_" ++ order_id;
}

unfoldable pub commission_request : Text → ℤ → TransferRequest
commission_request order_id admin_amount = record {
  debit_account = vendor_pending_escrow;
  credit_account = admin_revenue;
  amount = admin_amount;
  currency = codes "PKR";
  reference_type = codes "admin_commission";
  reference_id = order_id;
  description = codes "Admin commission for order " ++ order_id;
  idempotency_key = codes "commission_" ++ order_id;
}

unfoldable pub payout_request : Text → ℤ → TransferRequest
payout_request order_id vendor_amount = record {
  debit_account = vendor_pending_escrow;
  credit_account = vendor_wallet;
  amount = vendor_amount;
  currency = codes "PKR";
  reference_type = codes "vendor_payout";
  reference_id = order_id;
  description = codes "Vendor payout for order " ++ order_id;
  idempotency_key = codes "vendor_payout_" ++ order_id;
}

module _ (ext : Externals) (faults : Faults) where
  unfoldable pub move_to_vendor_pending_escrow : Text → ℤ → Db → Result Text × Db
  unfolding move_request
  move_to_vendor_pending_escrow order_id amount db =
      transfer ext faults (move_request order_id amount) db

  unfoldable pub reverse_escrow_to_customer : Text → ℤ → Db → Result Text × Db
  unfolding reverse_request
  reverse_escrow_to_customer order_id amount db =
      transfer ext faults (reverse_request order_id amount) db

  module _ (float : Float) where
    open float use {F, of_int, mul, div, lt, round_to_int}

    unfoldable pub admin_amount : ℤ → F → ℤ
    admin_amount amount commission_rate =
        round_to_int (div (mul (of_int amount) commission_rate) (of_int (pos 100)))

    unfoldable pub release_escrow_to_vendor : Text → ℤ → F → Db → Result Text × Db
    unfolding admin_amount commission_request payout_request
    release_escrow_to_vendor order_id amount commission_rate db =
        let admin = admin_amount amount commission_rate in
        let vendor = int64 (amount -ℤ admin) in
        if lt commission_rate (of_int (pos 0)) || lt (of_int (pos 100)) commission_rate
        then (err LedgerError.bad_commission_rate, db)
        else multi_transfer ext faults
            (commission_request order_id admin ∷ payout_request order_id vendor ∷ []) db

    -- An order whose commission rounds to nothing is never released: neither transfer is made, and
    -- the vendor's share stays in escrow.
    pub release_escrow_to_vendor_stuck :
        (order_id : Text) (amount : ℤ) (commission_rate : F) (db : Db)
        → admin_amount amount commission_rate ≡ pos 0
        → any (text_eq (codes "commission_" ++ order_id)) db.idempotency ≡ false
        → (release_escrow_to_vendor order_id amount commission_rate db).1 ≡ db
    unfolding release_escrow_to_vendor multi_transfer reserve_key
    release_escrow_to_vendor_stuck order_id amount commission_rate db zero fresh = ground arith

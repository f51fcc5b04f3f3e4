-- ===== src/Wallet/Customer.antt =====
-- backend/go-services/internal/wallet/service/customer_wallet_service.go. The ledger commits in
-- transactions of its own.
use omnigo_app.Common.{Bool, true, false, ◌||◌, ◌++◌, Option, none, some, if◌then◌else◌, []}
use omnigo_app.Common.Int.{ℤ, pos, leb_ℤ}
use omnigo_app.Common.Text.{Text, codes}
use omnigo_app.Common.Decimal.{format_int}
use omnigo_app.Ledger.Models.{
  TransferRequest, Db, central_escrow, customer_wallet, gateway_clearing,
}
use omnigo_app.Ledger.Tx.{Result, Faults, ok, err}
use omnigo_app.Ledger.Entries.{Externals}
use omnigo_app.Ledger.Service.{transfer}
use omnigo_app.Wallet.Rows.{Wallets, add_balance, upsert_balance, deduct_balance}

pub record Store : Type 0 where
  pub wallets : Wallets
  pub ledger : Db

-- What the outside does during one call: which calls of the database fail, those of the ledger's
-- transfers, and whether the service has a ledger.
pub record Call : Type 0 where
  pub begin_fails : Bool
  pub update_fails : Bool
  pub commit_fails : Bool
  pub refund_begin_fails : Bool
  pub refund_update_fails : Bool
  pub refund_commit_fails : Bool
  pub has_ledger : Bool
  pub ext : Externals
  pub check_faults : Faults
  pub ledger_faults : Faults

-- `done` is a return without an error.
pub data Reply : Type 0 where
  done refused : Reply

abbrev pub succeeded : Result Text → Bool
succeeded (ok t) = true
succeeded (err e) = false

unfoldable pub wallet_credit_key : Text → Text → Text
wallet_credit_key reference customer = codes "credit:" ++ (reference ++ (codes ":" ++ customer))

unfoldable pub credit_request : Text → Text → ℤ → TransferRequest
unfolding wallet_credit_key format_int
credit_request customer reference amount = record {
  debit_account = central_escrow;
  credit_account = customer_wallet;
  amount = amount;
  currency = codes "PKR";
  reference_type = codes "wallet_credit";
  reference_id = reference;
  description =
      codes "Wallet credit: "
      ++ (format_int amount ++ (codes " paisa (ref: " ++ (reference ++ codes ")")));
  idempotency_key = wallet_credit_key reference customer;
}

unfoldable pub purchase_key : Text → Text → Text
purchase_key order customer = codes "customer_purchase:" ++ (order ++ (codes ":" ++ customer))

unfoldable pub purchase_request : Text → Text → ℤ → TransferRequest
unfolding purchase_key
purchase_request customer order amount = record {
  debit_account = customer_wallet;
  credit_account = gateway_clearing;
  amount = amount;
  currency = codes "PKR";
  reference_type = codes "wallet_purchase";
  reference_id = order;
  description = codes "Customer purchase for order " ++ order;
  idempotency_key = purchase_key order customer;
}

-- The transfer of nothing that is to find out whether the order was charged before.
unfoldable pub check_request : Text → Text → TransferRequest
unfolding purchase_request
check_request customer order = record (purchase_request customer order (pos 0)) {
  reference_type = codes "wallet_purchase_check";
  description = codes "Idempotency check for order " ++ order;
}

unfoldable pub refund_request : Text → Text → ℤ → TransferRequest
refund_request customer order amount = record {
  debit_account = gateway_clearing;
  credit_account = customer_wallet;
  amount = amount;
  currency = codes "PKR";
  reference_type = codes "refund";
  reference_id = order;
  description = codes "Refund for failed payment on order " ++ order;
  idempotency_key = codes "refund:" ++ (order ++ (codes ":" ++ customer));
}

module _ (c : Call) where
  abbrev pub posted : Faults → TransferRequest → Db → Result Text × Db
  posted faults req d = if c.has_ledger then transfer c.ext faults req d else (ok [], d)

  -- From a statement of the open transaction to its Commit. An error of the ledger is only logged.
  abbrev pub finish_credit : TransferRequest → Store → Option Wallets → Reply × Store
  finish_credit req s none = (refused, s)
  finish_credit req s (some ws) =
      let d = (posted c.ledger_faults req s.ledger).1 in
      if c.commit_fails
      then (refused, record s { ledger = d })
      else (done, record { wallets = ws; ledger = d })

  unfoldable pub credit_funds : Text → Text → ℤ → Store → Reply × Store
  unfolding credit_request
  credit_funds customer reference amount s =
      if leb_ℤ amount (pos 0) || (c.begin_fails || c.update_fails)
      then (refused, s)
      else finish_credit (credit_request customer reference amount) s
          (upsert_balance customer amount s.wallets)

  abbrev pub only_found : Option (Bool × Wallets) → Option Wallets
  only_found none = none
  only_found (some (false, ws)) = none
  only_found (some (true, ws)) = some ws

  unfoldable pub refund_for_failed_payment : Text → Text → ℤ → Store → Reply × Store
  unfolding refund_request
  refund_for_failed_payment customer order amount s =
      if leb_ℤ amount (pos 0) || (c.begin_fails || c.update_fails)
      then (refused, s)
      else finish_credit (refund_request customer order amount) s
          (only_found (add_balance customer amount s.wallets))

  abbrev pub refunded : Store → Option (Bool × Wallets) → Store
  refunded s none = s
  refunded s (some r) = record s { wallets = r.1 }

  -- `creditWallet`, the compensation; a wallet that is missing is no error.
  unfoldable pub credit_wallet : Text → ℤ → Store → Store
  credit_wallet customer amount s =
      if leb_ℤ amount (pos 0)
        || (c.refund_begin_fails || (c.refund_update_fails || c.refund_commit_fails))
      then s
      else refunded s (add_balance customer amount s.wallets)

  -- After the deduction, which runs on the pool and has committed by itself: the Commit of the empty
  -- transaction, the ledger, and the compensation if the ledger fails.
  unfoldable pub charge : Text → Text → ℤ → Store → Reply × Store
  unfolding purchase_request credit_wallet
  charge customer order amount s =
      let (r, d) = posted c.ledger_faults (purchase_request customer order amount) s.ledger in
      if c.commit_fails
      then (refused, s)
      else if succeeded r
      then (done, record s { ledger = d })
      else (refused, credit_wallet customer amount (record s { ledger = d }))

  abbrev pub charge_deducted : Text → Text → ℤ → Store → Option (Bool × Wallets) → Reply × Store
  charge_deducted customer order amount s none = (refused, s)
  charge_deducted customer order amount s (some (false, ws)) = (refused, s)
  charge_deducted customer order amount s (some (true, ws)) =
      charge customer order amount (record s { wallets = ws })

  unfoldable pub deduct_for_purchase : Text → Text → ℤ → Store → Reply × Store
  unfolding check_request charge
  deduct_for_purchase customer order amount s =
      let d = (posted c.check_faults (check_request customer order) s.ledger).1 in
      let s' : Store = record s { ledger = d } in
      if leb_ℤ amount (pos 0)
      then (refused, s)
      else if c.begin_fails || c.update_fails
      then (refused, s')
      else charge_deducted customer order amount s' (deduct_balance customer amount s.wallets)

-- ===== src/Refund/Service.antt =====
-- RefundDispute, RefundForReturn, refundCODReturn and ClawbackFromVendor. The ledger commits first,
-- in a transaction of its own.
use mathlib.Core.Option
use omnigo_app.Common.{
  Bool, not, ◌&&◌, ◌||◌, ◌++◌, any, List, [], Option, none, some, if◌then◌else◌,
}
use omnigo_app.Common.Int.{ℤ, pos, eqb_ℤ, leb_ℤ}
use omnigo_app.Common.Text.{Text, codes, text_eq, equal_fold}
use omnigo_app.Ledger.Models.{
  Account, TransferRequest, vendor_locked_escrow, customer_wallet, rider_cod_debt, cash_receivable,
  vendor_clawback,
}
use omnigo_app.Ledger.Service.{transfer}
use omnigo_app.Escrow.Models.{refunded, EscrowHold, find_hold, update_hold}
use omnigo_app.Escrow.Process.{remove_id}
use omnigo_app.Wallet.Rows.{Wallets, upsert_balance}
use omnigo_app.Wallet.Customer.{Reply, done, refused, succeeded}
use omnigo_app.Wallet.Rider.{RiderWallet, update_rider, has_less_cash}
use omnigo_app.Refund.Rows.{
  RefundOrder, RefundBooks, RefundCall, find_refund_order, mark_refunded, cancel_debts, debt_rider,
  has_dispute_id, is_disputed, is_refundable, add_clawback,
}

unfoldable pub refund_transfer : Account → Account → ℤ → Text → Text → Text → Text → TransferRequest
refund_transfer debit credit amount type order description key = record {
  debit_account = debit;
  credit_account = credit;
  amount = amount;
  currency = codes "PKR";
  reference_type = type;
  reference_id = order;
  description = description;
  idempotency_key = key;
}

-- The first query of RefundDispute.
unfoldable pub disputed_hold : Text → RefundBooks → Option EscrowHold
disputed_hold dispute b =
    find_hold (λ h. has_dispute_id dispute h.dispute_id && is_disputed h.status) b.holds

module _ (c : RefundCall) where
  -- A ledger transfer whose error ends the method, and what follows it.
  abbrev pub after_ledger :
      TransferRequest → (RefundBooks → Reply × RefundBooks) → RefundBooks → Reply × RefundBooks
  after_ledger req rest b =
      let (r, d) = transfer c.ext c.ledger_faults req b.ledger in
      let b' : RefundBooks = record b { ledger = d } in
      if succeeded r then rest b' else (refused, b')

  abbrev pub refunded_hold : EscrowHold → EscrowHold
  refunded_hold h = record h { status = refunded; released_at = some c.now }

  -- A transaction whose credit of the customer's wallet is `ws`; `stops` is whether another call of
  -- the database fails, and `write` makes the other writes.
  abbrev pub commit_refund :
      Bool → (RefundBooks → RefundBooks) → Option Wallets → RefundBooks → Reply × RefundBooks
  commit_refund stops write none b = (refused, b)
  commit_refund stops write (some ws) b =
      if c.begin_fails || (c.wallet_fails || (c.order_write_fails || (stops || c.commit_fails)))
      then (refused, b)
      else (done, record (write b) { customers = ws })

  abbrev pub dispute_writes : EscrowHold → RefundBooks → RefundBooks
  dispute_writes h b = record b {
    holds = update_hold h.id refunded_hold b.holds;
    orders = mark_refunded h.order_tracking_id b.orders;
    index = if c.index_fails then b.index else remove_id h.id b.index;
  }

  abbrev pub dispute_transfer : Text → EscrowHold → ℤ → Text → TransferRequest
  dispute_transfer dispute h amount customer =
      refund_transfer vendor_locked_escrow customer_wallet amount (codes "dispute_refund")
        h.order_tracking_id
        (codes "Dispute refund for order "
          ++ (h.order_tracking_id ++ (codes " to customer " ++ customer)))
        (codes "escrow:refund:" ++ dispute)

  abbrev pub refund_disputed :
      Text → EscrowHold → Option ℤ → Option RefundOrder → RefundBooks → Reply × RefundBooks
  refund_disputed dispute h none o b = (refused, b)
  refund_disputed dispute h (some amount) none b = (refused, b)
  refund_disputed dispute h (some amount) (some o) b =
      if c.customer_read_fails
      then (refused, b)
      else after_ledger (dispute_transfer dispute h amount o.customer_tracking_id)
          (λ t.
            commit_refund c.hold_write_fails (dispute_writes h)
              (upsert_balance o.customer_tracking_id amount t.customers) t)
          b

  -- From the row that the first query gave. That query runs on the pool and locks nothing, so that
  -- the tables may have changed since; no later statement asks for the status of the hold again.
  unfoldable pub refund_dispute_of : Text → Option EscrowHold → RefundBooks → Reply × RefundBooks
  unfolding refund_transfer
  refund_dispute_of dispute none b = (refused, b)
  refund_dispute_of dispute (some h) b =
      if c.hold_read_fails
      then (refused, b)
      else refund_disputed dispute h (c.amount_column h)
          (find_refund_order h.order_tracking_id b.orders) b

  -- A call that no other overlaps.
  unfoldable pub refund_dispute : Text → RefundBooks → Reply × RefundBooks
  unfolding refund_dispute_of disputed_hold
  refund_dispute dispute b = refund_dispute_of dispute (disputed_hold dispute b) b

  -- The clawback runs on the pool, after the ledger.
  abbrev pub clawback_transfer : Text → ℤ → TransferRequest
  clawback_transfer order amount =
      refund_transfer vendor_clawback customer_wallet amount (codes "vendor_clawback") order
        (codes "Vendor clawback for return order " ++ order) (codes "clawback:" ++ order)

  abbrev pub write_clawback : Text → ℤ → RefundBooks → Reply × RefundBooks
  write_clawback vendor amount b =
      if c.clawback_fails || not (any (λ v. text_eq v.vendor_tracking_id vendor) b.vendors)
      then (refused, b)
      else (done, record b { vendors = add_clawback vendor amount b.vendors })

  unfoldable pub clawback_from_vendor : Text → Text → ℤ → RefundBooks → Reply × RefundBooks
  unfolding refund_transfer
  clawback_from_vendor order vendor amount b =
      if leb_ℤ amount (pos 0)
      then (refused, b)
      else after_ledger (clawback_transfer order amount) (write_clawback vendor amount) b

  abbrev pub or_total : ℤ → ℤ → ℤ
  or_total amount total = if eqb_ℤ amount (pos 0) then total else amount

  abbrev pub cod_transfer : Text → ℤ → TransferRequest
  cod_transfer order amount =
      refund_transfer rider_cod_debt cash_receivable amount (codes "cod_return_reversal") order
        (codes "COD return reversal for order " ++ order) (codes "cod:return:" ++ order)

  abbrev pub less_cash : Text → ℤ → List RiderWallet → List RiderWallet
  less_cash rider amount riders =
      if text_eq rider [] then riders else update_rider rider (has_less_cash amount) riders

  abbrev pub cod_writes : Text → Text → ℤ → RefundBooks → RefundBooks
  cod_writes order rider amount b = record b {
    debts = cancel_debts order b.debts;
    riders = less_cash rider amount b.riders;
    orders = mark_refunded order b.orders;
  }

  unfoldable pub refund_cod_return : RefundOrder → ℤ → RefundBooks → Reply × RefundBooks
  unfolding refund_transfer
  refund_cod_return o amount b =
      let order = o.order_tracking_id in
      let n = or_total amount o.total_amount_paisa in
      let rider = if c.rider_read_fails then [] else debt_rider order b.debts in
      if c.customer_read_fails || c.begin_fails
      then (refused, b)
      else after_ledger (cod_transfer order n)
          (λ t.
            commit_refund (c.debt_write_fails || (not (text_eq rider []) && c.rider_write_fails))
              (cod_writes order rider n) (upsert_balance o.customer_tracking_id n t.customers) t)
          b

  abbrev pub return_transfer : RefundOrder → ℤ → TransferRequest
  return_transfer o amount =
      refund_transfer vendor_locked_escrow customer_wallet amount (codes "return_refund")
        o.order_tracking_id
        (codes "Return refund for order "
          ++ (o.order_tracking_id ++ (codes " to customer " ++ o.customer_tracking_id)))
        (codes "return:refund:" ++ o.order_tracking_id)

  abbrev pub return_writes : RefundOrder → EscrowHold → RefundBooks → RefundBooks
  return_writes o h b = record b {
    holds = update_hold h.id refunded_hold b.holds;
    orders = mark_refunded o.order_tracking_id b.orders;
    debts = cancel_debts o.order_tracking_id b.debts;
    index = if c.index_fails then b.index else remove_id h.id b.index;
  }

  -- The hold with its column `amount`; an error of the read counts as no hold.
  abbrev pub read_hold : Option EscrowHold → Option (EscrowHold × ℤ)
  read_hold none = none
  read_hold (some h) =
      if c.hold_read_fails then none else Option.map (λ n. (h, n)) (c.amount_column h)

  abbrev pub refund_return_of :
      RefundOrder → ℤ → Option (EscrowHold × ℤ) → RefundBooks → Reply × RefundBooks
  refund_return_of o amount none b =
      if o.escrow_released
      then clawback_from_vendor o.order_tracking_id o.vendor_tracking_id
          (or_total amount (if c.total_read_fails then pos 0 else o.total_amount_paisa)) b
      else if equal_fold o.payment_gateway (codes "cod")
      then refund_cod_return o amount b
      else (refused, b)
  refund_return_of o amount (some (h, column)) b =
      let n = or_total amount column in
      if c.customer_read_fails
      then (refused, b)
      else after_ledger (return_transfer o n)
          (λ t.
            commit_refund (c.hold_write_fails || c.debt_write_fails) (return_writes o h)
              (upsert_balance o.customer_tracking_id n t.customers) t)
          b

  abbrev pub refund_order_return : Option RefundOrder → ℤ → RefundBooks → Reply × RefundBooks
  refund_order_return none amount b = (refused, b)
  refund_order_return (some o) amount b =
      if c.order_read_fails
      then (refused, b)
      else refund_return_of o amount
          (read_hold (
            find_hold
              (λ h. text_eq h.order_tracking_id o.order_tracking_id && is_refundable h.status)
              b.holds))
          b

  unfoldable pub refund_for_return : Text → ℤ → RefundBooks → Reply × RefundBooks
  unfolding refund_transfer clawback_from_vendor refund_cod_return
  refund_for_return order amount b = refund_order_return (find_refund_order order b.orders) amount b

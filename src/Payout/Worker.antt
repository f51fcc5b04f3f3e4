-- ===== src/Payout/Worker.antt =====
-- processPayouts: the payouts that the ledger refused before, then every vendor with released holds.
use omnigo_app.Common.{◌&&◌, ◌||◌, Bool, true, false, List, [], ◌∷◌, ◌++◌, any, if◌then◌else◌}
use omnigo_app.Common.Int.{ℤ, pos, leb_ℤ}
use omnigo_app.Common.Text.{Text, codes, text_eq}
use omnigo_app.Ledger.Tx.{Faults}
use omnigo_app.Ledger.Entries.{Externals}
use omnigo_app.Ledger.Service.{transfer}
use omnigo_app.Escrow.Models.{EscrowHold}
use omnigo_app.Escrow.Process.{is_ok}
use omnigo_app.Payout.Rows.{
  Books, VendorPayout, PayoutStatus, ledger_failed, paid, is_released, due_holds, sum_amounts,
  has_dispute, set_payout,
}
use omnigo_app.Payout.Sweep.{SweepFaults, payout_request, sweep_vendor}

-- What the outside does during a retry.
pub record RetryFaults : Type 0 where
  pub scan_fails : Bool
  pub update_fails : Bool
  pub ext : Externals
  pub ledger_faults : Faults

abbrev pub is_failed : PayoutStatus → Bool
is_failed ledger_failed = true
is_failed _ = false

unfoldable pub retry_payout : RetryFaults → VendorPayout → Books → Books
unfolding payout_request
retry_payout f p b =
    let (r, ledger) =
      transfer f.ext f.ledger_faults
        (payout_request p.id p.vendor_tracking_id p.amount_paisa
          (codes "Retry vendor payout " ++ p.id))
        b.ledger in
    if f.scan_fails then b else record b {
      ledger = ledger;
      payouts =
          if is_ok r
          then if f.update_fails then b.payouts else set_payout paid p.id b.payouts
          else b.payouts;
    }

-- The rows of the query, read once, with the faults of each.
unfoldable pub retry_payouts : (Text → RetryFaults) → List VendorPayout → Books → Books
unfolding retry_payout
retry_payouts f [] b = b
retry_payouts f (p ∷ ps) b =
    retry_payouts f ps (if is_failed p.status && p.recent then retry_payout (f p.id) p b else b)

-- `GROUP BY vendor_tracking_id`
unfoldable pub released_vendors : List EscrowHold → List Text
released_vendors [] = []
released_vendors (h ∷ hs) =
    let rest = released_vendors hs in
    if is_released h.status
    then if any (text_eq h.vendor_tracking_id) rest then rest else h.vendor_tracking_id ∷ rest
    else rest

-- The body of the loop: the checks before the vendor's transaction.
unfoldable pub pay_vendor : SweepFaults → Text → Text → ℤ → Books → Books
pay_vendor f batch vendor total b =
    if leb_ℤ total (pos 0) || f.exists_fails
    then b
    else if any (text_eq vendor) b.users
    then if f.dispute_read_fails || has_dispute vendor b then b else sweep_vendor f batch vendor b
    else b

-- The totals are those of the query, which ran before the loop.
unfoldable pub pay_vendors :
    (Text → SweepFaults) → Text → List EscrowHold → List Text → Books → Books
unfolding pay_vendor
pay_vendors f batch holds [] b = b
pay_vendors f batch holds (v ∷ vs) b =
    pay_vendors f batch holds vs (pay_vendor (f v) batch v (sum_amounts (due_holds v holds)) b)

-- What the outside does during one run: whether Redis gives the lock, and whether the queries answer.
pub record RunFaults : Type 0 where
  pub lock_taken : Bool
  pub retry_query_fails : Bool
  pub vendor_query_fails : Bool
  pub retries : Text → RetryFaults
  pub sweeps : Text → SweepFaults
  pub batch : Text

unfoldable pub process_payouts : RunFaults → Books → Books
unfolding retry_payouts pay_vendors released_vendors
process_payouts f b =
    let retried = if f.retry_query_fails then b else retry_payouts f.retries b.payouts b in
    if f.lock_taken
    then b
    else if f.vendor_query_fails
    then retried
    else pay_vendors f.sweeps f.batch retried.holds (released_vendors retried.holds) retried

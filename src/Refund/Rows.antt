-- ===== src/Refund/Rows.antt =====
-- The tables that a refund reads and writes, with its statements on them.
use omnigo_app.Common.{
  ℕ, Bool, true, false, not, ◌&&◌, List, [], ◌∷◌, Option, none, some, if◌then◌else◌,
}
use omnigo_app.Common.Int.{ℤ, ◌+ℤ◌}
use omnigo_app.Common.Text.{Text, codes, text_eq}
use omnigo_app.Ledger.Models.{Db}
use omnigo_app.Ledger.Tx.{Faults}
use omnigo_app.Ledger.Entries.{Externals}
use omnigo_app.Escrow.Models.{EscrowStatus, held, disputed, EscrowHold}
use omnigo_app.Payout.Rows.{VendorWallet}
use omnigo_app.Wallet.Rows.{Wallets}
use omnigo_app.Wallet.Rider.{RiderWallet}

-- The columns of `orders` that a refund reads and writes.
pub record RefundOrder : Type 0 where
  pub order_tracking_id : Text
  pub customer_tracking_id : Text
  pub vendor_tracking_id : Text
  pub payment_gateway : Text
  pub payment_status : Text
  pub escrow_released : Bool
  pub total_amount_paisa : ℤ

pub record RiderDebt : Type 0 where
  pub order_tracking_id : Text
  pub rider_tracking_id : Text
  pub status : Text

pub record RefundBooks : Type 0 where
  pub holds : List EscrowHold
  pub orders : List RefundOrder
  pub debts : List RiderDebt
  pub customers : Wallets
  pub riders : List RiderWallet
  pub vendors : List VendorWallet
  pub ledger : Db
  pub index : List Text

-- What the outside does during one call: the clock, what Scan gives for the column `amount` of a
-- hold, which is in rupees, and the calls of the database that fail.
pub record RefundCall : Type 0 where
  pub now : ℕ
  pub amount_column : EscrowHold → Option ℤ
  pub order_read_fails : Bool
  pub hold_read_fails : Bool
  pub customer_read_fails : Bool
  pub total_read_fails : Bool
  pub rider_read_fails : Bool
  pub begin_fails : Bool
  pub hold_write_fails : Bool
  pub wallet_fails : Bool
  pub order_write_fails : Bool
  pub debt_write_fails : Bool
  pub rider_write_fails : Bool
  pub clawback_fails : Bool
  pub commit_fails : Bool
  pub index_fails : Bool
  pub ext : Externals
  pub ledger_faults : Faults

unfoldable pub find_refund_order : Text → List RefundOrder → Option RefundOrder
find_refund_order id [] = none
find_refund_order id (o ∷ os) =
    if text_eq o.order_tracking_id id then some o else find_refund_order id os

-- `SET payment_status = 'refunded' WHERE order_tracking_id = $1`
unfoldable pub mark_refunded : Text → List RefundOrder → List RefundOrder
mark_refunded id [] = []
mark_refunded id (o ∷ os) =
    (if text_eq o.order_tracking_id id then record o { payment_status = codes "refunded" } else o)
    ∷ mark_refunded id os

abbrev pub is_cancelled : RiderDebt → Bool
is_cancelled d = text_eq d.status (codes "cancelled")

-- `SET status = 'cancelled' WHERE order_tracking_id = $1 AND status != 'cancelled'`
unfoldable pub cancel_debts : Text → List RiderDebt → List RiderDebt
cancel_debts id [] = []
cancel_debts id (d ∷ ds) =
    (if text_eq d.order_tracking_id id && not (is_cancelled d)
      then record d { status = codes "cancelled" }
      else d)
    ∷ cancel_debts id ds

-- The rider of a debt that is not cancelled; no row reads as the empty string.
unfoldable pub debt_rider : Text → List RiderDebt → Text
debt_rider id [] = []
debt_rider id (d ∷ ds) =
    if text_eq d.order_tracking_id id && not (is_cancelled d)
    then d.rider_tracking_id
    else debt_rider id ds

abbrev pub has_dispute_id : Text → Option Text → Bool
has_dispute_id id none = false
has_dispute_id id (some d) = text_eq d id

abbrev pub is_disputed : EscrowStatus → Bool
is_disputed disputed = true
is_disputed _ = false

abbrev pub is_refundable : EscrowStatus → Bool
is_refundable held = true
is_refundable disputed = true
is_refundable _ = false

-- `SET vendor_clawback_paisa = vendor_clawback_paisa + $1 WHERE vendor_tracking_id = $2`
unfoldable pub add_clawback : Text → ℤ → List VendorWallet → List VendorWallet
add_clawback vendor amount [] = []
add_clawback vendor amount (v ∷ vs) =
    (if text_eq v.vendor_tracking_id vendor
      then record v { vendor_clawback_paisa = v.vendor_clawback_paisa +ℤ amount }
      else v)
    ∷ add_clawback vendor amount vs

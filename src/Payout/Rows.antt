-- ===== src/Payout/Rows.antt =====
-- The tables that the worker reads and writes, with its statements on them.
use omnigo_app.Common.{
  Bool, true, false, ◌&&◌, ◌||◌, ltb, ◌==◌, List, [], ◌∷◌, Option, none, some, any, if◌then◌else◌,
}
use omnigo_app.Common.Int.{ℤ, pos, ◌+ℤ◌, ◌-ℤ◌, leb_ℤ}
use omnigo_app.Common.Text.{Text, codes, text_eq}
use omnigo_app.Ledger.Models.{Db}
use omnigo_app.Escrow.Models.{EscrowStatus, released, paid_out, EscrowHold, DisputeRow}

pub record VendorWallet : Type 0 where
  pub vendor_tracking_id : Text
  pub balance_paisa : ℤ
  pub total_payouts_paisa : ℤ
  pub vendor_clawback_paisa : ℤ

pub data PayoutStatus : Type 0 where
  pending_disbursement ledger_failed paid : PayoutStatus

-- A row of `vendor_payouts`; the amount is in paisa, and `recent` is whether the row is younger than
-- 24 hours.
pub record VendorPayout : Type 0 where
  pub id : Text
  pub vendor_tracking_id : Text
  pub amount_paisa : ℤ
  pub status : PayoutStatus
  pub recent : Bool

pub record Books : Type 0 where
  pub users : List Text
  pub holds : List EscrowHold
  pub disputes : List DisputeRow
  pub wallets : List VendorWallet
  pub payouts : List VendorPayout
  pub ledger : Db

abbrev pub is_released : EscrowStatus → Bool
is_released released = true
is_released _ = false

-- `WHERE vendor_tracking_id = $1 AND status = 'released'`
abbrev pub is_due : Text → EscrowHold → Bool
is_due vendor h = text_eq h.vendor_tracking_id vendor && is_released h.status

unfoldable pub due_holds : Text → List EscrowHold → List EscrowHold
due_holds vendor [] = []
due_holds vendor (h ∷ hs) =
    let rest = due_holds vendor hs in if is_due vendor h then h ∷ rest else rest

-- `SUM(amount_paisa)`
abbrev pub sum_amounts : List EscrowHold → ℤ
sum_amounts [] = pos 0
sum_amounts (h ∷ hs) = h.amount +ℤ sum_amounts hs

-- The count of open disputes on the vendor's released holds, compared with 0.
abbrev pub is_open : Text → Bool
is_open s = text_eq s (codes "open") || text_eq s (codes "investigating")

unfoldable pub has_dispute : Text → Books → Bool
has_dispute vendor b =
    any
      (λ d.
        is_open d.status
        && any (λ h. text_eq h.order_tracking_id d.order_tracking_id && is_due vendor h) b.holds)
      b.disputes

-- `ORDER BY hold_until ASC, created_at ASC, id ASC`
unfoldable pub text_less : Text → Text → Bool
text_less [] [] = false
text_less [] (d ∷ t) = true
text_less (c ∷ s) [] = false
text_less (c ∷ s) (d ∷ t) = ltb c d || (c == d && text_less s t)

abbrev pub is_older : EscrowHold → EscrowHold → Bool
is_older g h =
    ltb g.hold_until h.hold_until
    || (g.hold_until == h.hold_until
        && (ltb g.created_at h.created_at || (g.created_at == h.created_at && text_less g.id h.id)))

unfoldable pub insert_by_age : EscrowHold → List EscrowHold → List EscrowHold
insert_by_age g [] = g ∷ []
insert_by_age g (h ∷ hs) =
    let rest = insert_by_age g hs in if is_older h g then h ∷ rest else g ∷ (h ∷ hs)

unfoldable pub oldest_first : List EscrowHold → List EscrowHold
unfolding insert_by_age
oldest_first [] = []
oldest_first (h ∷ hs) = insert_by_age h (oldest_first hs)

unfoldable pub find_wallet : Text → List VendorWallet → Option VendorWallet
find_wallet vendor [] = none
find_wallet vendor (v ∷ vs) =
    if text_eq v.vendor_tracking_id vendor then some v else find_wallet vendor vs

-- `SET status = 'paid_out' WHERE id = ANY($1)`
unfoldable pub mark_paid_out : List EscrowHold → List EscrowHold → List EscrowHold
mark_paid_out swept [] = []
mark_paid_out swept (h ∷ hs) =
    (if any (λ g. text_eq g.id h.id) swept then record h { status = paid_out } else h)
    ∷ mark_paid_out swept hs

abbrev pub paid_from : VendorWallet → ℤ → VendorWallet
paid_from v amount = record v {
  balance_paisa = v.balance_paisa -ℤ amount;
  total_payouts_paisa = v.total_payouts_paisa +ℤ amount;
}

-- `… WHERE vendor_tracking_id = $1 AND balance_paisa >= $2`
unfoldable pub pay_wallet : Text → ℤ → List VendorWallet → List VendorWallet
pay_wallet vendor amount [] = []
pay_wallet vendor amount (v ∷ vs) =
    (if text_eq v.vendor_tracking_id vendor && leb_ℤ amount v.balance_paisa
      then paid_from v amount
      else v)
    ∷ pay_wallet vendor amount vs

-- `SET status = … WHERE id = $1`
unfoldable pub set_payout : PayoutStatus → Text → List VendorPayout → List VendorPayout
set_payout status id [] = []
set_payout status id (p ∷ ps) =
    (if text_eq p.id id then record p { status = status } else p) ∷ set_payout status id ps

-- ===== src/Escrow/Models.antt =====
-- backend/go-services/internal/escrow/models.go and repository.go: the tables that a release reads
-- and writes.
use omnigo_app.Common.{
  ℕ, Bool, true, false, ◌&&◌, ◌||◌, List, [], ◌∷◌, Option, none, some, any, if◌then◌else◌,
}
use omnigo_app.Common.Int.{ℤ, ◌+ℤ◌}
use omnigo_app.Common.Text.{Text, codes, text_eq}
use omnigo_app.Ledger.Models.{Db}

-- `releasing` and `cancelled` stand only in the SQL of the repository and the service.
pub data EscrowStatus : Type 0 where
  held releasing released paid_out disputed refunded cancelled : EscrowStatus

-- A row of `escrow_holds`; times are nanoseconds.
pub record EscrowHold : Type 0 where
  pub id : Text
  pub order_tracking_id : Text
  pub vendor_tracking_id : Text
  pub amount : ℤ
  pub status : EscrowStatus
  pub hold_until : ℕ
  pub released_at : Option ℕ
  pub dispute_id : Option Text
  pub created_at : ℕ

-- The columns of `orders` that a release reads, with NULL as `none`.
pub record OrderRow : Type 0 where
  pub order_tracking_id : Text
  pub escrow_released : Option Bool
  pub payment_gateway : Option Text
  pub payment_status : Option Text
  pub dispute_status : Option Text
  pub status : Option Text

pub record DisputeRow : Type 0 where
  pub order_tracking_id : Text
  pub status : Text

pub record CodDebtRow : Type 0 where
  pub order_tracking_id : Text
  pub status : Option Text

pub record VendorWalletRow : Type 0 where
  pub vendor_tracking_id : Text
  pub balance_paisa : ℤ
  pub lifetime_earnings_paisa : ℤ

-- The committed state. Debts stand newest first; `index` holds the members of the Redis sorted set.
pub record World : Type 0 where
  pub holds : List EscrowHold
  pub orders : List OrderRow
  pub disputes : List DisputeRow
  pub cod_debts : List CodDebtRow
  pub vendor_wallets : List VendorWalletRow
  pub ledger : Db
  pub index : List Text

abbrev pub is_held : EscrowStatus → Bool
is_held held = true
is_held _ = false

-- `WHERE id = $1`
unfoldable pub update_hold : Text → (EscrowHold → EscrowHold) → List EscrowHold → List EscrowHold
update_hold id f [] = []
update_hold id f (h ∷ hs) = (if text_eq h.id id then f h else h) ∷ update_hold id f hs

unfoldable pub find_hold : (EscrowHold → Bool) → List EscrowHold → Option EscrowHold
find_hold p [] = none
find_hold p (h ∷ hs) = if p h then some h else find_hold p hs

unfoldable pub find_order : Text → List OrderRow → Option OrderRow
find_order id [] = none
find_order id (o ∷ os) = if text_eq o.order_tracking_id id then some o else find_order id os

unfoldable pub find_debt : Text → List CodDebtRow → Option CodDebtRow
find_debt id [] = none
find_debt id (d ∷ ds) = if text_eq d.order_tracking_id id then some d else find_debt id ds

abbrev mark_order : OrderRow → OrderRow
mark_order o = record o { escrow_released = some true }

abbrev is_unreleased : Option Bool → Bool
is_unreleased (some false) = true
is_unreleased _ = false

-- `SET escrow_released = TRUE WHERE order_tracking_id = $1 AND escrow_released = FALSE`
unfoldable pub mark_order_released : Text → List OrderRow → List OrderRow
mark_order_released id [] = []
mark_order_released id (o ∷ os) =
    (if text_eq o.order_tracking_id id && is_unreleased o.escrow_released then mark_order o else o)
    ∷ mark_order_released id os

-- `INSERT INTO vendor_wallet … ON CONFLICT (vendor_tracking_id) DO UPDATE`
unfoldable pub credit_vendor : Text → ℤ → List VendorWalletRow → List VendorWalletRow
credit_vendor vendor amount [] =
    record { vendor_tracking_id = vendor; balance_paisa = amount; lifetime_earnings_paisa = amount }
    ∷ []
credit_vendor vendor amount (v ∷ vs) =
    if text_eq v.vendor_tracking_id vendor
    then record v {
      balance_paisa = v.balance_paisa +ℤ amount;
      lifetime_earnings_paisa = v.lifetime_earnings_paisa +ℤ amount;
    }
      ∷ vs
    else v ∷ credit_vendor vendor amount vs

abbrev is_open_status : Text → Bool
is_open_status s =
    text_eq s (codes "open")
    || (text_eq s (codes "investigating")
        || (text_eq s (codes "pending") || text_eq s (codes "under_review")))

-- `EXISTS(SELECT 1 FROM disputes WHERE … status IN (…))`
unfoldable pub has_open_dispute : Text → List DisputeRow → Bool
has_open_dispute id = any (λ d. text_eq d.order_tracking_id id && is_open_status d.status)

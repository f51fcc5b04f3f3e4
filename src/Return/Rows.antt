-- ===== src/Return/Rows.antt =====
-- backend/go-services/internal/return/models and repository: the table of statuses, the rows of
-- `return_requests` and the statements on them. Of the times only `updated_at` is kept.
use omnigo_app.Common.{
  ℕ, Bool, true, false, ◌&&◌, not, List, [], ◌∷◌, Option, none, some, any, if◌then◌else◌,
}
use omnigo_app.Common.Int.{ℤ}
use omnigo_app.Common.Text.{Text, codes, text_eq}
use omnigo_app.Order.{Table, lookup, allows}

-- The map `ValidReturnTransitions`.
unfoldable pub valid_return_transitions : Table
valid_return_transitions =
    (codes "return_requested", codes "rider_assigned" ∷ codes "return_cancelled" ∷ [])
    ∷ (codes "rider_assigned", codes "return_pickup_completed" ∷ codes "return_cancelled" ∷ [])
    ∷ (codes "return_pickup_completed", codes "return_in_transit" ∷ codes "return_delivered" ∷ [])
    ∷ (codes "return_in_transit", codes "return_delivered" ∷ [])
    ∷ (codes "return_delivered", codes "return_verified" ∷ codes "return_disputed" ∷ [])
    ∷ (codes "return_verified", codes "return_completed" ∷ [])
    ∷ (codes "return_disputed", codes "return_completed" ∷ [])
    ∷ (codes "return_completed", [])
    ∷ (codes "return_cancelled", [])
    ∷ []

unfoldable pub is_valid_return_transition : Text → Text → Bool
unfolding valid_return_transitions lookup
is_valid_return_transition from to = allows to (lookup from valid_return_transitions)

-- A row, with NULL as `none`. The last eight columns before `updated_at` may be NULL.
pub record ReturnRow : Type 0 where
  pub id : Text
  pub order_tracking_id : Text
  pub customer_tracking_id : Text
  pub vendor_tracking_id : Text
  pub store_tracking_id : Text
  pub reason : Text
  pub status : Text
  pub payment_status : Text
  pub rider_tracking_id : Option Text
  pub gig_tracking_id : Option Text
  pub pickup_photo_url : Option Text
  pub delivery_photo_url : Option Text
  pub vendor_verification_photo : Option Text
  pub payment_method : Option Text
  pub escrow_hold_id : Option Text
  pub dispute_reason : Option Text
  pub updated_at : ℕ

abbrev pub is_some : Option Text → Bool
is_some none = false
is_some (some t) = true

-- GetReturnRequestByID scans these columns into Go strings, and pgx refuses NULL there.
abbrev pub is_readable : ReturnRow → Bool
is_readable r =
    is_some r.payment_method
    && (is_some r.rider_tracking_id
        && (is_some r.gig_tracking_id
            && (is_some r.pickup_photo_url
                && (is_some r.delivery_photo_url
                    && (is_some r.vendor_verification_photo
                        && (is_some r.escrow_hold_id && is_some r.dispute_reason))))))

unfoldable pub find_row : Text → List ReturnRow → Option ReturnRow
find_row id [] = none
find_row id (r ∷ rs) = if text_eq r.id id then some r else find_row id rs

abbrev pub readable : Option ReturnRow → Option ReturnRow
readable none = none
readable (some r) = if is_readable r then some r else none

unfoldable pub get_return_request_by_id : Bool → Text → List ReturnRow → Option ReturnRow
unfolding find_row
get_return_request_by_id fails id rows =
    let row = readable (find_row id rows) in if fails then none else row

-- `UPDATE return_requests SET … WHERE id = $1 AND …`
unfoldable pub update_rows :
    Text → (Text → Bool) → (ReturnRow → ReturnRow) → List ReturnRow → List ReturnRow
update_rows id guard f [] = []
update_rows id guard f (r ∷ rs) =
    (if text_eq r.id id && guard r.status then f r else r) ∷ update_rows id guard f rs

abbrev pub always : Text → Bool
always status = true

-- The columns of `orders` that the service reads and writes.
pub record ReturnOrder : Type 0 where
  pub order_tracking_id : Text
  pub customer_tracking_id : Text
  pub vendor_tracking_id : Text
  pub store_tracking_id : Text
  pub total_amount_paisa : ℤ
  pub status : Text
  pub otp_code : Text
  pub return_deadline : Option ℕ

unfoldable pub find_return_order : Text → List ReturnOrder → Option ReturnOrder
find_return_order id [] = none
find_return_order id (o ∷ os) =
    if text_eq o.order_tracking_id id then some o else find_return_order id os

unfoldable pub set_order_status : Text → Text → List ReturnOrder → List ReturnOrder
set_order_status status id [] = []
set_order_status status id (o ∷ os) =
    (if text_eq o.order_tracking_id id then record o { status = status } else o)
    ∷ set_order_status status id os

-- `status NOT IN ('return_completed', 'return_cancelled')`
abbrev pub is_active : Text → Bool
is_active s =
    not (text_eq s (codes "return_completed")) && not (text_eq s (codes "return_cancelled"))

abbrev pub has_active_return : Text → List ReturnRow → Bool
has_active_return order = any (λ r. text_eq r.order_tracking_id order && is_active r.status)

-- ===== src/Return/Service.antt =====
-- backend/go-services/internal/return/service: a return from its request to the vendor's door. Each
-- method is one step; the answer is whether it returns without an error. Events, the fraud detector's
-- windows and the photos' contents are left out.
use omnigo_app.Common.{
  ℕ, ◌+◌, ◌*◌, ◌^◌, ltb, Bool, true, false, ◌&&◌, ◌||◌, not, List, [], ◌∷◌, Option, none, some, any,
  if◌then◌else◌,
}
use omnigo_app.Common.Int.{ℤ}
use omnigo_app.Common.Text.{Text, codes, text_eq}
use omnigo_app.Return.Rows.{
  ReturnRow, ReturnOrder, is_valid_return_transition, get_return_request_by_id, update_rows, always,
  find_return_order, is_active, has_active_return,
}

-- The interface `EscrowManager` over its own state; the answer is whether there was no error.
pub record EscrowManager (S : Type 0) : Type 0 where
  pub cancel_for_order : Text → S → Bool × S
  pub create_return_hold : Text → Text → ℤ → ℕ → S → Bool × S
  pub refund_for_return : Text → ℤ → S → Bool × S
  pub freeze_for_dispute : Text → Text → S → Bool × S

pub record ReturnStore (S : Type 0) : Type 0 where
  pub rows : List ReturnRow
  pub orders : List ReturnOrder
  pub disputes : List Text
  pub escrow : S

-- What the outside does during one call: the clock, the new identifiers, and the calls of the
-- database that fail.
pub record ReturnCall : Type 0 where
  pub now : ℕ
  pub new_id : Text
  pub dispute_id : Text
  pub blocked_by_fraud : Bool
  pub read_fails : Bool
  pub active_read_fails : Bool
  pub window_read_fails : Bool
  -- The query of GetOrderForReturn names columns of `users` (name, first_name, last_name) that no
  -- migration of the repository makes: on a database with its tables this is true of every call.
  pub order_read_fails : Bool
  pub otp_read_fails : Bool
  pub write_fails : Bool
  pub revert_fails : Bool
  pub complete_fails : Bool
  pub dispute_fails : Bool
  pub details_fail : Bool

abbrev pub hours : ℕ → ℕ
hours n = n * (3600 * 10 ^ 9)

abbrev pub is_open : ℕ → Option ReturnOrder → Bool
is_open now none = false
is_open now (some o) = passed o.return_deadline
  where
    passed : Option ℕ → Bool
    passed none = false
    passed (some deadline) = ltb now deadline

module _ {S : Type 0} (escrow : EscrowManager S) (has_escrow : Bool) (c : ReturnCall) where
  abbrev pub new_request : ReturnOrder → Text → ReturnRow
  new_request o reason = record {
    id = c.new_id;
    order_tracking_id = o.order_tracking_id;
    customer_tracking_id = o.customer_tracking_id;
    vendor_tracking_id = o.vendor_tracking_id;
    store_tracking_id = o.store_tracking_id;
    reason = reason;
    status = codes "return_requested";
    payment_status = codes "pending";
    rider_tracking_id = none;
    gig_tracking_id = none;
    pickup_photo_url = none;
    delivery_photo_url = none;
    vendor_verification_photo = none;
    payment_method = none;
    escrow_hold_id = none;
    dispute_reason = none;
    updated_at = c.now;
  }

  -- The insert, which the primary key may refuse, and the hold; an error of the hold is only logged.
  abbrev pub insert_request : ReturnOrder → Text → ReturnStore S → Bool × ReturnStore S
  insert_request o reason s =
      let held =
        (escrow.create_return_hold o.order_tracking_id o.vendor_tracking_id o.total_amount_paisa
          (c.now + hours 72) s.escrow).1 in
      if c.write_fails || any (λ r. text_eq r.id c.new_id) s.rows then (false, s) else (
        true,
        record s {
          rows = new_request o reason ∷ s.rows;
          escrow = if has_escrow then held else s.escrow;
        },
      )

  abbrev pub is_returnable : Text → Bool
  is_returnable status = text_eq status (codes "delivered") || text_eq status (codes "completed")

  abbrev pub request_for : Option ReturnOrder → Text → Text → ReturnStore S → Bool × ReturnStore S
  request_for none customer reason s = (false, s)
  request_for (some o) customer reason s =
      if c.order_read_fails
        || (not (text_eq o.customer_tracking_id customer)
            || (not (is_returnable o.status) || c.blocked_by_fraud))
      then (false, s)
      else insert_request o reason s

  unfoldable pub request_return : Text → Text → Text → ReturnStore S → Bool × ReturnStore S
  request_return order customer reason s =
      let o = find_return_order order s.orders in
      if c.active_read_fails
        || (has_active_return order s.rows || (c.window_read_fails || not (is_open c.now o)))
      then (false, s)
      else request_for o customer reason s

  -- A write of the repository that asks for no status.
  abbrev pub wrote :
      Text → (Text → Bool) → (ReturnRow → ReturnRow) → ReturnStore S → Bool × ReturnStore S
  wrote id guard f s =
      if c.write_fails
      then (false, s)
      else (true, record s { rows = update_rows id guard f s.rows })

  abbrev pub at_status : Text → ReturnRow → ReturnRow
  at_status status r = record r { status = status; updated_at = c.now }

  -- `UpdateReturnStatus`, which fails when no row has the expected status.
  abbrev pub update_return_status : Bool → Text → Text → Text → ReturnStore S → Bool × ReturnStore S
  update_return_status fails id status expected s =
      if fails || not (any (λ r. text_eq r.id id && text_eq r.status expected) s.rows)
      then (false, s)
      else (
        true,
        record s { rows = update_rows id (λ t. text_eq t expected) (at_status status) s.rows },
      )

  abbrev pub update_current : Text → Text → Option ReturnRow → ReturnStore S → Bool × ReturnStore S
  update_current id status none s = (false, s)
  update_current id status (some r) s =
      if is_valid_return_transition r.status status
      then update_return_status c.write_fails id status r.status s
      else (false, s)

  unfoldable pub update_status : Text → Text → ReturnStore S → Bool × ReturnStore S
  update_status id status s =
      update_current id status (get_return_request_by_id c.read_fails id s.rows) s

  -- A method that reads the return, checks the change to `status` and writes `f`.
  abbrev pub move_current :
      Text
      → Text
      → (ReturnRow → Bool)
      → (ReturnRow → ReturnRow)
      → Option ReturnRow
      → ReturnStore S
      → Bool × ReturnStore S
  move_current id status check f none s = (false, s)
  move_current id status check f (some r) s =
      if is_valid_return_transition r.status status && check r
      then wrote id always f s
      else (false, s)

  abbrev pub unchecked : ReturnRow → Bool
  unchecked r = true

  abbrev pub assigned : Text → Text → ReturnRow → ReturnRow
  assigned rider gig r = record r {
    rider_tracking_id = some rider;
    gig_tracking_id = some gig;
    status = codes "rider_assigned";
    updated_at = c.now;
  }

  abbrev pub picked_up : Text → ReturnRow → ReturnRow
  picked_up photo r = record r {
    pickup_photo_url = some photo;
    status = codes "return_pickup_completed";
    updated_at = c.now;
  }

  abbrev pub delivered_back : Text → ReturnRow → ReturnRow
  delivered_back photo r = record r {
    delivery_photo_url = some photo;
    status = codes "return_delivered";
    updated_at = c.now;
  }

  -- The method's read and move.
  abbrev pub move_by_id :
      Text
      → Text
      → (ReturnRow → Bool)
      → (ReturnRow → ReturnRow)
      → ReturnStore S
      → Bool × ReturnStore S
  move_by_id id status check f s =
      move_current id status check f (get_return_request_by_id c.read_fails id s.rows) s

  unfoldable pub assign_rider : Text → Text → Text → ReturnStore S → Bool × ReturnStore S
  assign_rider id rider gig s =
      move_by_id id (codes "rider_assigned") unchecked (assigned rider gig) s

  -- The code is not asked for when it cannot be read, or when the order has none.
  abbrev pub otp_matches : Text → Option ReturnOrder → Bool
  otp_matches otp none = true
  otp_matches otp (some o) = c.otp_read_fails || (text_eq o.otp_code [] || text_eq otp o.otp_code)

  unfoldable pub record_pickup : Text → Text → Text → ReturnStore S → Bool × ReturnStore S
  record_pickup id photo otp s =
      move_by_id id (codes "return_pickup_completed")
        (λ r. otp_matches otp (find_return_order r.order_tracking_id s.orders)) (picked_up photo) s

  unfoldable pub record_delivery_to_vendor : Text → Text → ReturnStore S → Bool × ReturnStore S
  record_delivery_to_vendor id photo s =
      move_by_id id (codes "return_delivered") unchecked (delivered_back photo) s

  unfoldable pub complete_return : Text → ReturnStore S → Bool × ReturnStore S
  complete_return id s =
      move_by_id id (codes "return_completed")
        (λ r. not (text_eq r.status (codes "return_disputed")))
        (at_status (codes "return_completed")) s

  -- The hold is cancelled before the status is written; its error is only logged.
  abbrev pub cancel_current : Text → Option ReturnRow → ReturnStore S → Bool × ReturnStore S
  cancel_current id none s = (false, s)
  cancel_current id (some r) s =
      let freed = (escrow.cancel_for_order r.order_tracking_id s.escrow).1 in
      if is_valid_return_transition r.status (codes "return_cancelled")
      then wrote id is_active (at_status (codes "return_cancelled"))
          (record s { escrow = if has_escrow then freed else s.escrow })
      else (false, s)

  unfoldable pub cancel_return : Text → ReturnStore S → Bool × ReturnStore S
  cancel_return id s = cancel_current id (get_return_request_by_id c.read_fails id s.rows) s

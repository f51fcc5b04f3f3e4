-- ===== src/Delivery/Rows.antt =====
-- The tables that an assignment of a gig and a change of its status read and write:
-- internal/delivery/repository/delivery_repository.go.
use omnigo_app.Common.{
  Bool, false, ◌&&◌, ◌||◌, List, [], ◌∷◌, Option, none, some, any, if◌then◌else◌,
}
use omnigo_app.Common.Text.{Text, codes, text_eq}
use omnigo_app.Common.Int.{ℤ, pos, leb_ℤ, ◌+ℤ◌, ◌-ℤ◌}
use omnigo_app.Common.Floats.{Float}

-- The map `validGigTransitions`.
unfoldable pub valid_gig_transitions : List (Text × List Text)
valid_gig_transitions =
    (codes "broadcasting", codes "accepted" ∷ [])
    ∷ (codes "accepted", codes "picked_up" ∷ codes "failed" ∷ codes "broadcasting" ∷ [])
    ∷ (codes "picked_up", codes "in_transit" ∷ codes "failed" ∷ [])
    ∷ (codes "in_transit", codes "completed" ∷ codes "failed" ∷ [])
    ∷ []

-- The lookup of a key, none for a key that the map lacks.
unfoldable pub transitions_from : List (Text × List Text) → Text → Option (List Text)
transitions_from [] s = none
transitions_from ((from, targets) ∷ rest) s =
    if text_eq from s then some targets else transitions_from rest s

-- `status IN ('broadcasting', 'accepted', 'picked_up', 'in_transit')`
unfoldable pub is_under_way : Text → Bool
is_under_way s =
    text_eq s (codes "broadcasting")
    || (text_eq s (codes "accepted")
        || (text_eq s (codes "picked_up") || text_eq s (codes "in_transit")))

-- `status IN ('assigned', 'in_transit', 'picked_up')`
unfoldable pub is_active : Text → Bool
is_active s =
    text_eq s (codes "assigned")
    || (text_eq s (codes "in_transit") || text_eq s (codes "picked_up"))

-- The columns of `orders` that a gig's statements use.
pub record GigOrder : Type 0 where
  pub order_tracking_id : Text
  pub payment_status : Text
  pub rider_tracking_id : Option Text

unfoldable pub find_gig_order : Text → List GigOrder → Option GigOrder
find_gig_order id [] = none
find_gig_order id (o ∷ os) = if text_eq o.order_tracking_id id then some o else find_gig_order id os

-- `UPDATE orders SET rider_tracking_id = $1 WHERE order_tracking_id = $2`
unfoldable pub set_order_rider : Option Text → Text → List GigOrder → List GigOrder
set_order_rider rider id [] = []
set_order_rider rider id (o ∷ os) =
    (if text_eq o.order_tracking_id id then record o { rider_tracking_id = rider } else o)
    ∷ set_order_rider rider id os

-- The columns of `rider_wallet`.
pub record GigWallet : Type 0 where
  pub rider_tracking_id : Text
  pub balance_paisa : ℤ
  pub lifetime_earnings_paisa : ℤ
  pub cash_in_hand_paisa : ℤ
  pub is_cash_blocked : Bool

unfoldable pub find_gig_wallet : Text → List GigWallet → Option GigWallet
find_gig_wallet rider [] = none
find_gig_wallet rider (w ∷ ws) =
    if text_eq w.rider_tracking_id rider then some w else find_gig_wallet rider ws

-- `INSERT INTO rider_wallet ... ON CONFLICT (rider_tracking_id) DO UPDATE`
unfoldable pub credit_rider : Text → ℤ → List GigWallet → List GigWallet
credit_rider rider n [] =
    record {
      rider_tracking_id = rider;
      balance_paisa = n;
      lifetime_earnings_paisa = n;
      cash_in_hand_paisa = pos 0;
      is_cash_blocked = false;
    }
    ∷ []
credit_rider rider n (w ∷ ws) =
    if text_eq w.rider_tracking_id rider
    then record w {
      balance_paisa = w.balance_paisa +ℤ n;
      lifetime_earnings_paisa = w.lifetime_earnings_paisa +ℤ n;
    }
      ∷ ws
    else w ∷ credit_rider rider n ws

-- The statement that takes the fee where the balance covers it, and the one that takes the rest.
unfoldable pub take_fee : Text → ℤ → List GigWallet → List GigWallet
take_fee rider fee [] = []
take_fee rider fee (w ∷ ws) =
    if text_eq w.rider_tracking_id rider
    then record w {
      balance_paisa = if leb_ℤ fee w.balance_paisa then w.balance_paisa -ℤ fee else pos 0;
    }
      ∷ ws
    else w ∷ take_fee rider fee ws

module _ (float : Float) where
  open float use {F}

  -- The columns of `deliveries`.
  pub record Gig : Type 0 where
    pub tracking_id : Text
    pub order_tracking_id : Text
    pub status : Text
    pub rider_tracking_id : Option Text
    pub pickup_lat : Option F
    pub pickup_lng : Option F
    pub is_cod : Bool
    pub pickup_photo_url : Text
    pub delivery_photo_url : Text
    pub cancel_reason : Text

  pub record GigStore : Type 0 where
    pub gigs : List Gig
    pub orders : List GigOrder
    pub wallets : List GigWallet
    -- `users`, with `is_verified`
    pub users : List (Text × Bool)

  unfoldable pub find_gig : Text → List Gig → Option Gig
  find_gig id [] = none
  find_gig id (g ∷ gs) = if text_eq g.tracking_id id then some g else find_gig id gs

  -- `UPDATE deliveries SET ... WHERE ...`
  unfoldable pub update_gigs : (Gig → Bool) → (Gig → Gig) → List Gig → List Gig
  update_gigs where_so set [] = []
  update_gigs where_so set (g ∷ gs) =
      (if where_so g then set g else g) ∷ update_gigs where_so set gs

  -- `SELECT EXISTS(...)` of the rider's active deliveries.
  unfoldable pub has_active_delivery : Text → List Gig → Bool
  has_active_delivery rider gs =
      any (λ g. held_by rider g.rider_tracking_id && is_active g.status) gs
    where
      held_by : Text → Option Text → Bool
      held_by rider none = false
      held_by rider (some r) = text_eq r rider

-- ===== src/Delivery/Gigs.antt =====
-- AcceptGigWithEligibility of internal/delivery/repository/delivery_repository.go.
use omnigo_app.Common.{
  Bool, true, false, not, ◌&&◌, ◌||◌, List, [], ◌∷◌, Option, none, some, if◌then◌else◌,
}
use omnigo_app.Common.Text.{Text, codes, text_eq}
use omnigo_app.Common.Int.{ℤ, pos, leb_ℤ}
use omnigo_app.Common.Floats.{Float}
use omnigo_app.Delivery.Rows.{
  GigOrder, find_gig_order, set_order_rider, GigWallet, find_gig_wallet, Gig, GigStore, find_gig,
  update_gigs, has_active_delivery,
}

pub data GigAnswer : Type 0 where
  done broken gig_unread unavailable order_unread unpaid no_pickup out_of_zone unverified :
      GigAnswer
  cash_unread cash_blocked cash_limit active_unread busy bad_status bad_change : GigAnswer

-- `paymentOK`
unfoldable pub payment_ok : Bool → Text → Bool
payment_ok is_cod status =
    text_eq status (codes "paid")
    || (text_eq status (codes "settlement_pending") || (is_cod && text_eq status (codes "pending")))

unfoldable pub is_verified : Text → List (Text × Bool) → Bool
is_verified rider [] = true
is_verified rider ((id, verified) ∷ us) =
    if text_eq id rider then verified else is_verified rider us

module _ (float : Float) where
  abbrev pub is_gig : Text → Gig float → Bool
  is_gig id g = text_eq g.tracking_id id

  abbrev pub taken_by : Text → Gig float → Gig float
  taken_by rider g = record g { status = codes "accepted"; rider_tracking_id = some rider }

  -- Both updates and the commit.
  unfoldable pub assign :
      Bool → Text → Text → Gig float → GigStore float → GigStore float × GigAnswer
  assign false id rider g s = (s, broken)
  assign true id rider g s = (
    record s {
      gigs = update_gigs float (is_gig id) (taken_by rider) s.gigs;
      orders = set_order_rider (some rider) g.order_tracking_id s.orders;
    },
    done,
  )

module _ (float : Float) (getenv : Text → Text) where
  open float use {F, of_int, mul, lt, round_to_int, parse_float}

  -- What the outside does during an assignment: the calls of the database that succeed, and whether
  -- the rider's cell lies within one ring of the pickup's.
  pub record AcceptCall : Type 0 where
    pub begins : Bool
    pub order_read : Bool
    pub user_read : Bool
    pub wallet_read : Bool
    pub active_read : Bool
    pub commits : Bool
    pub is_eligible : F → F → Bool

  -- `cashThresholdPaisa`
  unfoldable pub cash_block_threshold_paisa : ℤ
  cash_block_threshold_paisa = of_env (getenv (codes "RIDER_CASH_BLOCK_THRESHOLD"))
    where
      of_parsed : Option F → ℤ
      of_parsed none = pos 500000
      of_parsed (some x) =
          if lt (of_int (pos 0)) x then round_to_int (mul x (of_int (pos 100))) else pos 500000

      of_env : Text → ℤ
      of_env [] = pos 500000
      of_env (c ∷ s) = of_parsed (parse_float (c ∷ s))

  -- The checks in the code's order: the first that refuses.
  unfoldable pub check_active : AcceptCall → Text → GigStore float → Option GigAnswer
  check_active c rider s =
      if not c.active_read
      then some active_unread
      else if has_active_delivery float rider s.gigs
      then some busy
      else none

  unfoldable pub check_wallet : Option GigWallet → Option GigAnswer → Option GigAnswer
  check_wallet none rest = some cash_unread
  check_wallet (some w) rest =
      if w.is_cash_blocked
      then some cash_blocked
      else if leb_ℤ cash_block_threshold_paisa w.cash_in_hand_paisa
      then some cash_limit
      else rest

  unfoldable pub check_cash : AcceptCall → Text → Bool → GigStore float → Option GigAnswer
  check_cash c rider cod s =
      let rest = check_active c rider s in
      if not cod
      then rest
      else if c.wallet_read
      then check_wallet (find_gig_wallet rider s.wallets) rest
      else some cash_unread

  unfoldable pub check_verified : AcceptCall → Text → Bool → GigStore float → Option GigAnswer
  check_verified c rider cod s =
      if c.user_read && not (is_verified rider s.users)
      then some unverified
      else check_cash c rider cod s

  unfoldable pub check_zone : AcceptCall → Option F → Option F → Option GigAnswer → Option GigAnswer
  check_zone c none lng rest = some no_pickup
  check_zone c (some lat) none rest = some no_pickup
  check_zone c (some lat) (some lng) rest = if c.is_eligible lat lng then rest else some out_of_zone

  unfoldable pub check_order_payment :
      AcceptCall → Gig float → Option GigOrder → Option GigAnswer → Option GigAnswer
  check_order_payment c g none rest = some order_unread
  check_order_payment c g (some o) rest =
      if not c.order_read
      then some order_unread
      else if payment_ok g.is_cod o.payment_status
      then rest
      else some unpaid

  unfoldable pub check_gig : AcceptCall → Text → Gig float → GigStore float → Option GigAnswer
  check_gig c rider g s =
      if text_eq g.status (codes "broadcasting")
      then check_order_payment c g (find_gig_order g.order_tracking_id s.orders)
          (check_zone c g.pickup_lat g.pickup_lng (check_verified c rider g.is_cod s))
      else some unavailable

  unfoldable pub accept_row :
      AcceptCall → Text → Text → Option (Gig float) → GigStore float → GigStore float × GigAnswer
  accept_row c id rider none s = (s, gig_unread)
  accept_row c id rider (some g) s = settle (check_gig c rider g s)
    where
      settle : Option GigAnswer → GigStore float × GigAnswer
      settle none = assign float c.commits id rider g s
      settle (some refusal) = (s, refusal)

  unfoldable pub accept_gig_with_eligibility :
      AcceptCall → Text → Text → GigStore float → GigStore float × GigAnswer
  accept_gig_with_eligibility c id rider s =
      if c.begins then accept_row c id rider (find_gig float id s.gigs) s else (s, broken)

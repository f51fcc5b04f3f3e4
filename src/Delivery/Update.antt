-- ===== src/Delivery/Update.antt =====
-- AcceptGig, UpdateGigStatus, ClearOrderRider, CancelDeliveryForOrder and DeductRiderCancellationFee of
-- internal/delivery/repository/delivery_repository.go.
use omnigo_app.Common.{Bool, not, ◌&&◌, List, [], ◌∷◌, Option, none, some, any, if◌then◌else◌}
use omnigo_app.Common.Text.{Text, codes, text_eq}
use omnigo_app.Common.Int.{ℤ, pos, leb_ℤ, quot}
use omnigo_app.Common.Floats.{Float}
use omnigo_app.Delivery.Rows.{
  valid_gig_transitions, transitions_from, is_under_way, set_order_rider, GigWallet, credit_rider,
  take_fee, Gig, GigStore, find_gig, update_gigs,
}
use omnigo_app.Delivery.Gigs.{
  GigAnswer, done, broken, gig_unread, unavailable, bad_status, bad_change, is_gig, assign,
}

-- The test of the map, the missing key included.
unfoldable pub is_valid_gig_change : Text → Text → Option GigAnswer
is_valid_gig_change from to = check (transitions_from valid_gig_transitions from)
  where
    check : Option (List Text) → Option GigAnswer
    check none = some bad_status
    check (some targets) = if any (λ t. text_eq t to) targets then none else some bad_change

-- `GREATEST`, the fee of half the earning, and the two statements.
unfoldable pub deduct_rider_cancellation_fee : Text → ℤ → List GigWallet → List GigWallet
deduct_rider_cancellation_fee rider earning ws =
    if leb_ℤ earning (pos 0) then ws else take_fee rider (quot earning 2) ws

module _ (float : Float) where
  open float use {F, of_int, lt}

  unfoldable pub accept_gig : Bool → Text → Text → GigStore float → GigStore float × GigAnswer
  accept_gig commits id rider s = take (find_gig float id s.gigs)
    where
      take : Option (Gig float) → GigStore float × GigAnswer
      take none = (s, gig_unread)
      take (some g) =
          if text_eq g.status (codes "broadcasting")
          then assign float commits id rider g s
          else (s, unavailable)

  -- The arguments of UpdateGigStatus, the BIGINT that the driver makes of the earning, none where it
  -- fails to, and whether the commit succeeds.
  pub record GigUpdate : Type 0 where
    pub tracking_id : Text
    pub status : Text
    pub pickup_photo : Text
    pub delivery_photo : Text
    pub rider_earning : F
    pub earning_as_int8 : Option ℤ
    pub commits : Bool

  -- The SET of the statement that the new status selects.
  unfoldable pub revised : GigUpdate → Gig float → Gig float
  revised u g =
      if text_eq u.status (codes "broadcasting")
      then record g { status = u.status; rider_tracking_id = none }
      else if text_eq u.status (codes "picked_up") && not (text_eq u.pickup_photo [])
      then record g { status = u.status; pickup_photo_url = u.pickup_photo }
      else if text_eq u.status (codes "completed") && not (text_eq u.delivery_photo [])
      then record g { status = u.status; delivery_photo_url = u.delivery_photo }
      else record g { status = u.status }

  -- The rider's wallet after the change, none where the statement fails.
  unfoldable pub credited : GigUpdate → Option Text → List GigWallet → Option (List GigWallet)
  credited u none ws = some ws
  credited u (some rider) ws =
      if text_eq u.status (codes "completed")
        && (lt (of_int (pos 0)) u.rider_earning && not (text_eq rider []))
      then credit u.earning_as_int8
      else some ws
    where
      credit : Option ℤ → Option (List GigWallet)
      credit none = none
      credit (some n) = some (credit_rider rider n ws)

  unfoldable pub write_update :
      GigUpdate → Option (List GigWallet) → GigStore float → GigStore float × GigAnswer
  write_update u none s = (s, broken)
  write_update u (some ws) s =
      if u.commits
      then (
        record s {
          gigs = update_gigs float (is_gig float u.tracking_id) (revised u) s.gigs;
          wallets = ws;
        },
        done,
      )
      else (s, broken)

  unfoldable pub change_gig :
      GigUpdate → Gig float → Option GigAnswer → GigStore float → GigStore float × GigAnswer
  change_gig u g (some refusal) s = (s, refusal)
  change_gig u g none s = write_update u (credited u g.rider_tracking_id s.wallets) s

  unfoldable pub update_row :
      GigUpdate → Option (Gig float) → GigStore float → GigStore float × GigAnswer
  update_row u none s = (s, gig_unread)
  update_row u (some g) s = change_gig u g (is_valid_gig_change g.status u.status) s

  unfoldable pub update_gig_status : GigUpdate → GigStore float → GigStore float × GigAnswer
  update_gig_status u s = update_row u (find_gig float u.tracking_id s.gigs) s

  unfoldable pub clear_order_rider : Text → GigStore float → GigStore float
  clear_order_rider id s = clear (find_gig float id s.gigs)
    where
      clear : Option (Gig float) → GigStore float
      clear none = s
      clear (some g) = record s { orders = set_order_rider none g.order_tracking_id s.orders }

  abbrev pub is_open_gig_of : Text → Gig float → Bool
  is_open_gig_of order g = text_eq g.order_tracking_id order && is_under_way g.status

  unfoldable pub called_off : Text → Gig float → Gig float
  called_off [] g = record g { status = codes "cancelled" }
  called_off (c ∷ why) g = record g { status = codes "cancelled"; cancel_reason = c ∷ why }

  unfoldable pub cancel_delivery_for_order : Text → Text → GigStore float → GigStore float
  cancel_delivery_for_order order why s = record s {
    gigs = update_gigs float (is_open_gig_of order) (called_off why) s.gigs;
  }

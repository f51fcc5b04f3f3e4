-- ===== src/Delivery/Tests.antt =====
-- Runs of the deliveries' code.
use omnigo_app.Common.{◌≡◌, refl, true, false, List, [], ◌∷◌, Option, none, some}
use omnigo_app.Common.Text.{Text, codes, text_eq}
use omnigo_app.Common.Int.{pos}
use omnigo_app.Common.Floats.{hundredths}
use omnigo_app.Delivery.Rows.{
  Gig, GigStore, find_gig, valid_gig_transitions, transitions_from, take_fee,
}
use omnigo_app.Delivery.Gigs.{done, bad_status, AcceptCall, accept_gig_with_eligibility}
use omnigo_app.Delivery.Update.{
  is_valid_gig_change, GigUpdate, credited, write_update, change_gig, update_row, update_gig_status,
  deduct_rider_cancellation_fee,
}
use omnigo_app.Delivery.Moves.{Moved}
use omnigo_app.Delivery.Walk.{serve, serve-Moved, GigRequest, accept, update, call_off, serve_all}
use omnigo_app.Delivery.Completed.{update_gig_status-once}
use omnigo_app.Delivery.Accepted.{Outcome, accept_gig_with_eligibility-Outcome}

abbrev no_env : Text → Text
no_env name = []

abbrev rider : Text
rider = codes "r1"

abbrev gig : Text → Option Text → Gig hundredths
gig status by = record {
  tracking_id = codes "g1";
  order_tracking_id = codes "o1";
  status = status;
  rider_tracking_id = by;
  pickup_lat = some 2400;
  pickup_lng = some 6700;
  is_cod = true;
  pickup_photo_url = [];
  delivery_photo_url = [];
  cancel_reason = [];
}

abbrev shop : Text → Option Text → GigStore hundredths
shop status by = record {
  gigs = gig status by ∷ [];
  orders =
      record {
        order_tracking_id = codes "o1";
        payment_status = codes "pending";
        rider_tracking_id = by;
      }
      ∷ [];
  wallets =
      record {
        rider_tracking_id = rider;
        balance_paisa = pos 0;
        lifetime_earnings_paisa = pos 0;
        cash_in_hand_paisa = pos 499999;
        is_cash_blocked = false;
      }
      ∷ [];
  users = (rider, true) ∷ [];
}

abbrev call : AcceptCall hundredths no_env
call = record {
  begins = true;
  order_read = true;
  user_read = true;
  wallet_read = true;
  active_read = true;
  commits = true;
  is_eligible = λ lat lng. true;
}

abbrev to_status : Text → GigUpdate hundredths
to_status status = record {
  tracking_id = codes "g1";
  status = status;
  pickup_photo = codes "p";
  delivery_photo = codes "d";
  rider_earning = 15000;
  earning_as_int8 = some (pos 150);
  commits = true;
}

abbrev requests : List (GigRequest hundredths no_env)
requests =
    accept call (codes "g1") rider
    ∷ update (to_status (codes "picked_up"))
    ∷ update (to_status (codes "in_transit"))
    ∷ update (to_status (codes "completed"))
    ∷ call_off (codes "o1") []
    ∷ []

-- A rider without a balance loses nothing.
fee :
    deduct_rider_cancellation_fee rider (pos 301) (shop (codes "in_transit") (some rider)).wallets
    ≡ (shop (codes "in_transit") (some rider)).wallets
unfolding deduct_rider_cancellation_fee take_fee text_eq
fee = refl

serve-Moved_example :
    Moved hundredths no_env
      (codes "g1")
      (shop (codes "broadcasting") none).gigs
      (serve hundredths no_env
        (accept call (codes "g1") rider)
        (shop (codes "broadcasting") none)).gigs
serve-Moved_example =
    serve-Moved hundredths no_env (accept call (codes "g1") rider) (codes "g1")
      (shop (codes "broadcasting") none)

completes :
    (update_gig_status hundredths
      (to_status (codes "completed"))
      (shop (codes "in_transit") (some rider))).1
    ≡ done
unfolding update_gig_status find_gig text_eq update_row change_gig is_valid_gig_change
    valid_gig_transitions transitions_from credited write_update
completes = refl

abbrev afterwards : GigStore hundredths
afterwards =
    serve_all hundredths no_env requests
      (update_gig_status hundredths (to_status (codes "completed"))
        (shop (codes "in_transit") (some rider))).0

update_gig_status-once_example :
    update_gig_status hundredths (to_status (codes "completed")) afterwards
    ≡ (afterwards, bad_status)
update_gig_status-once_example =
    update_gig_status-once hundredths no_env (to_status (codes "completed"))
      (shop (codes "in_transit") (some rider)) refl completes requests
      (to_status (codes "completed")) refl

accept_gig_with_eligibility-Outcome_example :
    Outcome hundredths no_env (codes "g1") rider (shop (codes "broadcasting") none) (
      accept_gig_with_eligibility hundredths no_env call
        (codes "g1")
        rider
        (shop (codes "broadcasting") none))
accept_gig_with_eligibility-Outcome_example =
    accept_gig_with_eligibility-Outcome hundredths no_env call (codes "g1") rider
      (shop (codes "broadcasting") none)

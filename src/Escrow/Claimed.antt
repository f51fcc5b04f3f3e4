-- ===== src/Escrow/Claimed.antt =====
-- The claim of a hold, and what a transfer for a claimed hold is.
use omnigo_app.Common.{ℕ, ◌≡◌, refl, ap, true, arith, List, [], ◌∷◌, some}
use omnigo_app.Common.Text.{Text, text_eq_sound}
use omnigo_app.Ledger.Models.{Db, TransferRequest, vendor_locked_escrow, vendor_withdrawable}
use omnigo_app.Ledger.Tx.{Faults}
use omnigo_app.Ledger.Entries.{Externals}
use omnigo_app.Ledger.Outcome.{Committed}
use omnigo_app.Escrow.Models.{
  releasing, EscrowHold, OrderRow, World, update_hold, find_hold, find_order,
}
use omnigo_app.Escrow.Terms.{terms, holds_amount, update_hold-terms}
use omnigo_app.Escrow.Process.{Attempt, release_request, release_key, set_status, is_claimable}

pub find_order-same :
    (id : Text) (os : List OrderRow) {found : OrderRow}
    → find_order id os ≡ some found
    → found.order_tracking_id ≡ id
unfolding find_order
find_order-same id [] h = ground arith
find_order-same id (o ∷ os) {found} h =
    ground (arith, text_eq_sound o.order_tracking_id id, find_order-same id os {found = found})

abbrev pub claim : EscrowHold → World → World
claim h w = record w { holds = update_hold h.id (set_status releasing) w.holds }

pub claim-terms : (h : EscrowHold) (w : World) → terms (claim h w).holds ≡ terms w.holds
claim-terms h w = update_hold-terms h.id (set_status releasing) w.holds (λ x. (refl, refl))

-- The ledger from `d` to `d'`: one transfer from the vendor's locked escrow to what the vendor can
-- withdraw, of the amount of a row that the table has under the identifier.
pub record Released (id : Text) (holds : List EscrowHold) (d d' : Db) : Type 0 where
  pub ext : Externals
  pub faults : Faults
  pub request : TransferRequest
  pub from_locked : request.debit_account ≡ vendor_locked_escrow
  pub to_vendor : request.credit_account ≡ vendor_withdrawable
  pub of_hold : holds_amount id request.amount holds ≡ true
  pub own_key : request.idempotency_key ≡ release_key id
  pub committed : Committed ext faults request d d'

pub find_hold-claimable :
    (id : Text) (now : ℕ) (hs : List EscrowHold) {found : EscrowHold}
    → find_hold (is_claimable id now) hs ≡ some found
    → found.id ≡ id
unfolding find_hold is_claimable
find_hold-claimable id now [] e = ground arith
find_hold-claimable id now (h ∷ hs) {found} e =
    ground (arith, text_eq_sound h.id id, find_hold-claimable id now hs {found = found})

-- What a transfer for the hold gives, if it was the one that was booked.
pub claimed-Released :
    (a : Attempt) (id : Text) (h : EscrowHold) (w : World) (d' : Db)
    → h.id ≡ id
    → holds_amount h.id h.amount w.holds ≡ true
    → Committed a.ext a.ledger_faults (release_request a.hold_hours h) w.ledger d'
    → Released id w.holds w.ledger d'
unfolding release_request
claimed-Released a id h w d' same of_hold c = record {
  ext = a.ext;
  faults = a.ledger_faults;
  request = release_request a.hold_hours h;
  from_locked = refl;
  to_vendor = refl;
  of_hold = rw (← same) of_hold;
  own_key = ap release_key same;
  committed = c;
}

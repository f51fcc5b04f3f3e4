-- ===== src/Escrow/Pays.antt =====
-- releaseOneHold when nothing fails.
use mathlib.Core.Option
use omnigo_app.Common.{
  ◌≡◌, refl, ap, ◌∙◌, inl, inr, Bool, true, false, not, ◌||◌, List, [], ◌∷◌, Option, none, some,
  all, any, arith, Bool-cases, if◌then◌else◌,
}
use omnigo_app.Common.Int.{ℤ, pos, ◌+ℤ◌, int_laws}
use omnigo_app.Common.Text.{Text, text_eq, text_eq_refl, text_eq_sound, text_eq_comm}
use omnigo_app.Ledger.Models.{Db}
use omnigo_app.Ledger.Tx
use omnigo_app.Ledger.Tx.{ok, err}
use omnigo_app.Ledger.Service.{transfer}
use omnigo_app.Ledger.Outcome.{transfer_fresh}
use omnigo_app.Escrow.Models.{
  EscrowStatus, released, EscrowHold, OrderRow, VendorWalletRow, World, update_hold, find_hold,
  find_order, mark_order_released, credit_vendor,
}
use omnigo_app.Escrow.Process.{
  Attempt, returned, release_request, is_claimable, claimed, release_one_hold, remove_id, is_ok,
  finish_writes, release_funds,
}
use omnigo_app.Escrow.Outcome.{may_release, process_hold-pays}
use omnigo_app.Escrow.Terms.{terms, holds_amount, update_hold-terms, find_hold-amount}
use omnigo_app.Escrow.Claimed.{claim, claim-terms, find_order-same, Released, claimed-Released}
use omnigo_app.Escrow.Release.{is_reserved}

-- No call of the hold's transaction fails, and the ledger takes the transfer.
pub record Succeeds (a : Attempt) (h : EscrowHold) (w : World) : Type 0 where
  pub begins : a.begin_fails ≡ false
  pub reads_order : a.order_read_fails ≡ false
  pub reads_disputes : a.dispute_read_fails ≡ false
  pub reads_debts : a.debt_read_fails ≡ false
  pub releases : a.release_fails ≡ false
  pub writes_order : a.order_write_fails ≡ false
  pub credits : a.wallet_fails ≡ false
  pub commits : a.commit_fails ≡ false
  pub transfers :
      is_ok (transfer a.ext a.ledger_faults (release_request a.hold_hours h) w.ledger).0 ≡ true

abbrev pub after_transfer : Attempt → EscrowHold → World → World
after_transfer a h w = record w {
  ledger = (transfer a.ext a.ledger_faults (release_request a.hold_hours h) w.ledger).1;
}

release_funds-pays :
    (a : Attempt) (h : EscrowHold) (w tx : World)
    → Succeeds a h w
    → release_funds a h w tx
      ≡ (returned, finish_writes a h w (record tx { ledger = (after_transfer a h w).ledger }))
unfolding release_funds
release_funds-pays a h w tx s =
    rw (s.transfers, s.releases, s.writes_order, s.credits, s.commits) refl

after_claim :
    (a : Attempt) (id : Text) (w : World) (h : EscrowHold) (o : OrderRow)
    → find_hold (is_claimable id a.now) w.holds ≡ some h
    → find_order h.order_tracking_id w.orders ≡ some o
    → may_release o w ≡ true
    → Succeeds a h w
    → release_one_hold a id w ≡ (returned, finish_writes a h w (after_transfer a h (claim h w)))
unfolding release_one_hold claimed
after_claim a id w h o found has_row may s =
    rw (s.begins, found, has_row)
      (process_hold-pays a h w (claim h w) o (find_order-same h.order_tracking_id w.orders has_row)
          s.reads_order s.reads_disputes s.reads_debts may
        ∙ release_funds-pays a h w (claim h w) s)

-- What the vendor has.
unfoldable pub vendor_balance : Text → List VendorWalletRow → ℤ
vendor_balance vendor [] = pos 0
vendor_balance vendor (v ∷ vs) =
    if text_eq v.vendor_tracking_id vendor then v.balance_paisa else vendor_balance vendor vs

credit_vendor-balance :
    (vendor : Text) (n : ℤ) (x : Text) (vs : List VendorWalletRow)
    → vendor_balance x (credit_vendor vendor n vs)
      ≡ (if text_eq vendor x then vendor_balance x vs +ℤ n else vendor_balance x vs)
unfolding vendor_balance credit_vendor
credit_vendor-balance vendor n x [] =
    let same : n ≡ pos 0 +ℤ n = omega int_laws in ground (arith, same)
credit_vendor-balance vendor n x (v ∷ vs) =
    elim (Bool-cases (text_eq v.vendor_tracking_id vendor)) [
      | inl own ↦
          ground (arith, own, ap (λ i. text_eq i x) (text_eq_sound v.vendor_tracking_id vendor own))
      | inr other ↦ ground (
        arith,
        other,
        credit_vendor-balance vendor n x vs,
        text_eq_sound v.vendor_tracking_id x,
        text_eq_sound vendor x,
        text_eq_refl x,
      )
    ]

abbrev pub is_released_row : Text → EscrowHold → Bool
is_released_row id g = not (text_eq g.id id) || is_released g.status
  where
    is_released : EscrowStatus → Bool
    is_released released = true
    is_released _ = false

-- A column that is NULL stays so.
abbrev pub marked : Option Bool → Option Bool
marked none = none
marked (some b) = some true

mark_order_released-column :
    (id : Text) (os : List OrderRow) (o : OrderRow)
    → find_order id os ≡ some o
    → Option.map (λ r. r.escrow_released) (find_order id (mark_order_released id os))
      ≡ some (marked o.escrow_released)
unfolding find_order mark_order_released
mark_order_released-column id [] o found = absurd (ground (arith, found))
mark_order_released-column id (p ∷ os) o found =
    ground (arith, found, mark_order_released-column id os o)

update_hold-released :
    (a : Attempt) (id : Text) (hs : List EscrowHold)
    → all
        (is_released_row id)
        (update_hold id (λ x. record x { status = released; released_at = some a.now }) hs)
      ≡ true
unfolding update_hold
update_hold-released a id [] = refl
update_hold-released a id (h ∷ hs) = ground (arith, update_hold-released a id hs)

-- A release that went through.
pub record PaidOut (a : Attempt) (h : EscrowHold) (o : OrderRow) (w w' : World) : Type 0 where
  pub rows_released : all (is_released_row h.id) w'.holds ≡ true
  pub rows_kept : terms w'.holds ≡ terms w.holds
  pub order_marked :
      Option.map (λ r. r.escrow_released) (find_order h.order_tracking_id w'.orders)
      ≡ some (marked o.escrow_released)
  pub credited :
      (x : Text)
      → vendor_balance x w'.vendor_wallets ≡ (
          if text_eq h.vendor_tracking_id x
          then vendor_balance x w.vendor_wallets +ℤ h.amount
          else vendor_balance x w.vendor_wallets)
  pub forgotten : a.index_fails ≡ false → any (text_eq h.id) w'.index ≡ false
  pub booked : is_reserved h.id w.ledger ≡ false → Released h.id w.holds w.ledger w'.ledger

remove_id-gone : (id : Text) (ids : List Text) → any (text_eq id) (remove_id id ids) ≡ false
unfolding remove_id
remove_id-gone id [] = refl
remove_id-gone id (x ∷ xs) = ground (arith, remove_id-gone id xs, text_eq_comm id x)

booked_fresh :
    (a : Attempt) (h : EscrowHold) (w : World)
    → holds_amount h.id h.amount w.holds ≡ true
    → is_ok (transfer a.ext a.ledger_faults (release_request a.hold_hours h) w.ledger).0 ≡ true
    → is_reserved h.id w.ledger ≡ false
    → Released h.id w.holds w.ledger (after_transfer a h w).ledger
unfolding release_request
booked_fresh a h w of_hold good fresh =
    of_reply (transfer a.ext a.ledger_faults (release_request a.hold_hours h) w.ledger) refl good
  where
    of_reply :
        (r : Tx.Result Text × Db)
        → transfer a.ext a.ledger_faults (release_request a.hold_hours h) w.ledger ≡ r
        → is_ok r.0 ≡ true
        → Released h.id w.holds w.ledger r.1
    of_reply (err e, d) is_so fails = absurd (ground (arith, fails))
    of_reply (ok t, d) is_so works =
        claimed-Released a h.id h w d refl of_hold
          (transfer_fresh a.ext a.ledger_faults (release_request a.hold_hours h) w.ledger fresh
            is_so).1

-- A due hold whose order may be paid out is released when no call of its transaction fails and the
-- ledger takes the transfer: every row of its identifier is released, with the amounts as they were,
-- the order is marked unless its mark is NULL, the vendor has the hold's amount more and no other
-- vendor's balance changes, the index forgets the hold unless Redis fails, and under a new key the
-- ledger has booked the amount.
pub release_one_hold-PaidOut :
    (a : Attempt) (id : Text) (w : World) (h : EscrowHold) (o : OrderRow)
    → find_hold (is_claimable id a.now) w.holds ≡ some h
    → find_order h.order_tracking_id w.orders ≡ some o
    → may_release o w ≡ true
    → Succeeds a h w
    → let (e, w') = release_one_hold a id w in (e ≡ returned) × PaidOut a h o w w'
release_one_hold-PaidOut a id w h o found has_row may s =
    rw (after_claim a id w h o found has_row may s) (
      refl,
      record {
        rows_released = update_hold-released a h.id (claim h w).holds;
        rows_kept =
            update_hold-terms h.id (λ x. record x { status = released; released_at = some a.now })
              (claim h w).holds (λ x. (refl, refl))
            ∙ claim-terms h w;
        order_marked = mark_order_released-column h.order_tracking_id w.orders o has_row;
        credited = λ x. credit_vendor-balance h.vendor_tracking_id h.amount x w.vendor_wallets;
        forgotten = λ works. rw works (remove_id-gone h.id w.index);
        booked =
            booked_fresh a h w (find_hold-amount (is_claimable id a.now) w.holds found) s.transfers;
      },
    )

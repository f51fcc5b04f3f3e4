-- ===== src/Order/Paid.antt =====
-- A paid order has its hold.
use omnigo_app.Common.{
  ◌≡◌, refl, Bool, true, false, not, ◌||◌, some, arith, Bool-cases, inl, inr, if◌then◌else◌,
}
use omnigo_app.Common.Int.{pos, ltb_ℤ}
use omnigo_app.Common.Text.{Text, codes, text_eq, lower}
use omnigo_app.Common.Floats.{Float}
use omnigo_app.Escrow.Models.{EscrowHold}
use omnigo_app.Escrow.Repository.{Holds, new_hold}
use omnigo_app.Escrow.Created.{HasHold, Created, create_hold_rows-Created}
use omnigo_app.Order.{is_valid_order_transition}
use omnigo_app.Order.Rows.{ShopOrder, OrderStore, with_status_tx, has_changed, set_status}
use omnigo_app.Order.Update.{
  UpdateAnswer, updated, already_there, invalid_transition, no_status_change, failed, UpdateCall,
  hold_amount_paisa, produce, with_holds, update_paid, update_other, update_from,
  update_order_status,
}
use omnigo_app.Order.Changed.{produce-orders}

module _ (float : Float) (c : UpdateCall) (id : Text) (o : ShopOrder float) where
  abbrev pub vendor_hold : EscrowHold
  vendor_hold =
      new_hold c.hold_id id o.vendor_tracking_id (hold_amount_paisa float o) c.hold_until c.now

  -- What an answer says of the store before and after.
  pub data PaidOutcome (s s' : OrderStore float) : UpdateAnswer → Type 0 where
    paid :
        s'.orders
          ≡ set_status float (with_status_tx float (codes "paid") c.now) id (codes "paid") s.orders
        → has_changed float id (codes "paid") s.orders ≡ true
        → HasHold vendor_hold s.holds s'.holds
        → PaidOutcome s s' updated
    paid_before : s' ≡ s → PaidOutcome s s' already_there
    not_payable : s' ≡ s → PaidOutcome s s' invalid_transition
    not_changed : s' ≡ s → PaidOutcome s s' no_status_change
    not_stored : s' ≡ s → PaidOutcome s s' failed

  abbrev After : OrderStore float → UpdateAnswer × OrderStore float → Type 0
  After s r = PaidOutcome s r.1 r.0

  either-After :
      (s : OrderStore float) (b : Bool) (r r' : UpdateAnswer × OrderStore float)
      → After s r
      → After s r'
      → After s (if b then r else r')
  either-After s true r r' k k' = k
  either-After s false r r' k k' = k'

  chosen :
      (s : OrderStore float) (b : Bool) (r r' : UpdateAnswer × OrderStore float)
      → b ≡ true
      → After s r
      → After s (if b then r else r')
  chosen s true r r' h k = k
  chosen s false r r' h k = cc

  produce-holds :
      (status : Text) (s : OrderStore float) → (produce float c id status o s).holds ≡ s.holds
  produce-holds status s = ground arith

  with_holds-After :
      (s : OrderStore float) (h : Bool × Holds)
      → has_changed float id (codes "paid") s.orders ≡ true
      → Created vendor_hold s.holds h
      → After s (with_holds float c id o s h)
  with_holds-After s (false, hs) changes created = not_stored refl
  with_holds-After s (true, hs) changes created =
      let set = record s {
        orders =
            set_status float (with_status_tx float (codes "paid") c.now) id (codes "paid") s.orders;
        holds = hs;
      } in
      either-After s c.commit_fails (failed, s) _ (not_stored refl)
        (paid (produce-orders float c id (codes "paid") o set) changes
          (rw (produce-holds (codes "paid") set) created))

  module _ (positive : ltb_ℤ (pos 0) (hold_amount_paisa float o) ≡ true) where
    update_paid-After : (s : OrderStore float) → After s (update_paid float c id o s)
    unfolding update_paid
    update_paid-After s =
        either-After s (c.begin_fails || c.update_fails) (failed, s) _ (not_stored refl)
          (elim (Bool-cases (has_changed float id (codes "paid") s.orders)) [
            | inr nothing ↦ rw nothing (not_changed refl)
            | inl changes ↦
                rw (changes, positive)
                  (with_holds-After s _ changes (create_hold_rows-Created c.hold_answers _ s.holds))
          ])

    update_from-After :
        (s : OrderStore float)
        → c.has_escrow ≡ true
        → After s (update_from float c id (some o) (codes "paid") s)
    unfolding update_from text_eq
    update_from-After s escrow =
        either-After s (text_eq o.status (codes "paid")) (already_there, s) _ (paid_before refl)
          (either-After s (not (is_valid_order_transition o.status (codes "paid")))
            (invalid_transition, s) _ (not_payable refl)
            (chosen s c.has_escrow (update_paid float c id o s)
              (update_other float c id (codes "paid") o s) escrow (update_paid-After s)))

    -- Where the escrow service is there and the vendor's share of the row read is positive, an order
    -- becomes paid only together with a new hold of that share for that vendor, or where an active
    -- hold of the order, or a hold of the order for the vendor in any status and of any amount, kept
    -- it from being made. On any other answer nothing has changed.
    pub update_order_status-Paid :
        (s : OrderStore float)
        → c.has_escrow ≡ true
        → let (r, s') = update_order_status float c id (some o) (codes "paid") s in
          PaidOutcome s s' r
    unfolding update_order_status lower
    update_order_status-Paid s escrow = update_from-After s escrow

-- ===== src/Order/Changed.antt =====
-- How a call of UpdateOrderStatus changes the status of an order.
use mathlib.Core.Path.{subst}
use omnigo_app.Common.{
  ◌≡◌, refl, ap, sym, ◌∙◌, ◌⊎◌, inl, inr, Bool, true, false, not, ◌&&◌, ◌||◌, Option, none, some,
  arith, Bool-cases, if◌then◌else◌,
}
use omnigo_app.Common.Int.{pos, ltb_ℤ}
use omnigo_app.Common.Text.{Text, codes, text_eq, lower, text_eq_sound}
use omnigo_app.Common.Floats.{Float}
use omnigo_app.Escrow.Repository.{Holds, new_hold, create_hold_rows}
use omnigo_app.Order.{is_valid_order_transition}
use omnigo_app.Order.Rows.{
  ShopOrder, OrderStore, find_shop_order, with_status, with_status_tx, has_changed, set_status,
}
use omnigo_app.Order.Update.{
  UpdateAnswer, already_there, no_status_change, failed, UpdateCall, hold_amount_paisa, produce,
  with_holds, update_paid, after_delivered, cancel_for_order, release_stock, after_cancelled,
  update_other, update_from, update_order_status,
}
use omnigo_app.Order.Statuses.{status_of, set_deadline-status, Rewritten, set_status-Rewritten}

module _ (float : Float) where
  abbrev pub status_at : Text → OrderStore float → Option Text
  status_at x s = status_of float (find_shop_order float x s.orders)

  -- The order `x` got the status by the table, seen from the row that was read, and by the condition
  -- of the UPDATE, on the row that was there.
  pub record ByRule (id : Text) (read : Option (ShopOrder float)) (status x : Text)
      (s s' : OrderStore float) : Type 0 where
    pub seen : ShopOrder float
    pub seen_so : read ≡ some seen
    pub valid : is_valid_order_transition seen.status status ≡ true
    pub rewritten : Rewritten float id x status s.orders s'.orders

  abbrev pub Changed :
      Text
      → Option (ShopOrder float)
      → Text
      → Text
      → OrderStore float
      → UpdateAnswer × OrderStore float
      → Type 0
  Changed id read status x s r = (status_at x r.1 ≡ status_at x s) ⊎ ByRule id read status x s r.1

  either-Changed :
      (id : Text) (read : Option (ShopOrder float)) (status x : Text) (s : OrderStore float)
      (b : Bool) (r r' : UpdateAnswer × OrderStore float)
      → Changed id read status x s r
      → Changed id read status x s r'
      → Changed id read status x s (if b then r else r')
  either-Changed id read status x s true r r' k k' = k
  either-Changed id read status x s false r r' k k' = k'

  module _ (c : UpdateCall) (id : Text) where
    pub produce-orders :
        (status : Text) (o : ShopOrder float) (s : OrderStore float)
        → (produce float c id status o s).orders ≡ s.orders
    produce-orders status o s = ground arith

    cancel_for_order-orders :
        (s : OrderStore float) → (cancel_for_order float c id s).orders ≡ s.orders
    unfolding cancel_for_order
    cancel_for_order-orders s = ground arith

    after_cancelled-orders :
        (status : Text) (o : ShopOrder float) (s : OrderStore float)
        → (after_cancelled float c id status o s).orders ≡ s.orders
    unfolding after_cancelled
    after_cancelled-orders status o s =
        ground
          (arith, cancel_for_order-orders s, cancel_for_order-orders (release_stock float c id o s))

    after_delivered-status :
        (x status : Text) (s : OrderStore float)
        → status_at x (after_delivered float c id status s) ≡ status_at x s
    unfolding after_delivered
    after_delivered-status x status s =
        elim (Bool-cases (text_eq status (codes "delivered") && not c.deadline_fails)) [
          | inl sets ↦ rw sets (set_deadline-status float id x _ s.orders)
          | inr leaves ↦ rw leaves refl
        ]

    module _ (o : ShopOrder float) (status x : Text) (s : OrderStore float)
        (valid : is_valid_order_transition o.status status ≡ true) where
      by_rule :
          (s' : OrderStore float) (f : ShopOrder float → ShopOrder float)
          → ((p : ShopOrder float) → (f p).order_tracking_id ≡ p.order_tracking_id)
          → ((p : ShopOrder float) → (f p).status ≡ status)
          → status_at x s'
            ≡ status_of float (find_shop_order float x (set_status float f id status s.orders))
          → (status_at x s' ≡ status_at x s) ⊎ ByRule id (some o) status x s s'
      by_rule s' f keeps sets same =
          elim (set_status-Rewritten float f keeps id x status sets s.orders) [
            | inl stays ↦ inl (same ∙ stays)
            | inr r ↦ inr (record {
              seen = o;
              seen_so = refl;
              valid = valid;
              rewritten = record {
                row = r.row;
                found = r.found;
                may = r.may;
                after = same ∙ r.after;
              };
            })
          ]

      update_other-Changed : Changed id (some o) status x s (update_other float c id status o s)
      unfolding update_other
      update_other-Changed =
          let set = record s {
            orders = set_status float (with_status float status c.now) id status s.orders;
          } in
          let delivered = after_delivered float c id status set in
          let cancelled = after_cancelled float c id status o delivered in
          let orders =
            produce-orders status o cancelled ∙ after_cancelled-orders status o delivered in
          either-Changed id (some o) status x s c.update_fails (failed, s) _ (inl refl)
            (either-Changed id (some o) status x s (not (has_changed float id status s.orders))
              (no_status_change, s) _ (inl refl)
              (by_rule (produce float c id status o cancelled) (with_status float status c.now)
                (λ p. refl) (λ p. refl)
                (ap (λ os. status_of float (find_shop_order float x os)) orders
                  ∙ after_delivered-status x status set)))

    with_holds-Changed :
        (o : ShopOrder float) (x : Text) (s : OrderStore float) (h : Bool × Holds)
        → is_valid_order_transition o.status (codes "paid") ≡ true
        → Changed id (some o) (codes "paid") x s (with_holds float c id o s h)
    with_holds-Changed o x s (false, hs) valid = inl refl
    with_holds-Changed o x s (true, hs) valid =
        let set = record s {
          orders =
              set_status float (with_status_tx float (codes "paid") c.now) id (codes "paid")
                s.orders;
          holds = hs;
        } in
        either-Changed id (some o) (codes "paid") x s c.commit_fails (failed, s) _ (inl refl)
          (by_rule o (codes "paid") x s valid (produce float c id (codes "paid") o set)
            (with_status_tx float (codes "paid") c.now) (λ p. refl) (λ p. refl)
            (ap (λ os. status_of float (find_shop_order float x os))
              (produce-orders (codes "paid") o set)))

    update_paid-Changed :
        (o : ShopOrder float) (x : Text) (s : OrderStore float)
        → is_valid_order_transition o.status (codes "paid") ≡ true
        → Changed id (some o) (codes "paid") x s (update_paid float c id o s)
    unfolding update_paid
    update_paid-Changed o x s valid =
        let either = either-Changed id (some o) (codes "paid") x s in
        let amount = hold_amount_paisa float o in
        let rows =
          create_hold_rows c.hold_answers
            (new_hold c.hold_id id o.vendor_tracking_id amount c.hold_until c.now) s.holds in
        either (c.begin_fails || c.update_fails) (failed, s) _ (inl refl)
          (either (not (has_changed float id (codes "paid") s.orders)) (no_status_change, s) _
            (inl refl)
            (either (ltb_ℤ (pos 0) amount) (with_holds float c id o s rows)
              (with_holds float c id o s (true, s.holds)) (with_holds-Changed o x s rows valid)
              (with_holds-Changed o x s (true, s.holds) valid)))

    update_from-Changed :
        (read : Option (ShopOrder float)) (status x : Text) (s : OrderStore float)
        → Changed id read status x s (update_from float c id read status s)
    unfolding update_from
    update_from-Changed none status x s = inl refl
    update_from-Changed (some o) status x s =
        either-Changed id (some o) status x s (text_eq o.status status) (already_there, s) _
          (inl refl)
          (elim (Bool-cases (is_valid_order_transition o.status status)) [
            | inr refused ↦ rw refused (inl refl)
            | inl valid ↦
                rw valid (elim (Bool-cases (text_eq status (codes "paid") && c.has_escrow)) [
                  | inr other ↦ rw other (update_other-Changed o status x s valid)
                  | inl pays ↦
                      let paid : status ≡ codes "paid" =
                        text_eq_sound status (codes "paid") (ground (arith, pays)) in
                      rw pays (
                        subst (λ t. Changed id (some o) t x s (update_paid float c id o s))
                          (sym paid) (update_paid-Changed o x s (rw (← paid) valid)))
                ])
          ])

    -- A call of UpdateOrderStatus leaves the status of an order as it was, or that order is the one
    -- called for and gets the status asked for, in small letters: the table allows the change from the
    -- status that the row which was read has, and the order's row had another status than the one
    -- asked for, and was not final unless `refunded` is asked for. The row read is any: a replica's may be
    -- out of date, and then nothing is said of the table and the status that the order really had.
    pub update_order_status-Changed :
        (read : Option (ShopOrder float)) (status x : Text) (s : OrderStore float)
        → Changed id read (lower status) x s (update_order_status float c id read status s)
    unfolding update_order_status
    update_order_status-Changed read status x s = update_from-Changed read (lower status) x s

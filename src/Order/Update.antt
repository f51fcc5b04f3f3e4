-- ===== src/Order/Update.antt =====
-- UpdateOrderStatus, updateOrderStatusPaidAtomic and MarkOrderDelivered of order_service.go.
use omnigo_app.Common.{
  ℕ, ◌+◌, ltb, Bool, true, false, not, ◌&&◌, ◌||◌, ◌∷◌, Option, none, some, if◌then◌else◌,
}
use omnigo_app.Common.Int.{ℤ, pos, ltb_ℤ, leb_ℤ}
use omnigo_app.Common.Text.{Text, codes, text_eq, lower}
use omnigo_app.Common.Floats.{Float}
use omnigo_app.Money.{rupees_to_paisa}
use omnigo_app.Escrow.Repository.{Answers, Holds, new_hold, create_hold_rows, cancel_hold_for_order}
use omnigo_app.Order.{is_valid_order_transition}
use omnigo_app.Order.Rows.{
  return_window, ShopOrder, OrderStore, with_status, with_status_tx, has_changed, set_status,
  set_deadline, cancel_cod_debts, remove_holds_from_index,
}

pub data UpdateAnswer : Type 0 where
  updated already_there : UpdateAnswer
  not_found invalid_transition no_status_change failed : UpdateAnswer

-- What the outside does during one call.
pub record UpdateCall : Type 0 where
  pub now : ℕ
  pub has_escrow : Bool
  pub has_kafka : Bool
  pub begin_fails : Bool
  pub update_fails : Bool
  pub commit_fails : Bool
  pub deadline_fails : Bool
  pub stock_fails : Bool
  pub cancel_fails : Bool
  pub index_fails : Bool
  pub debts_fail : Bool
  pub hold_answers : Answers
  pub hold_id : Text
  pub hold_until : ℕ

module _ (float : Float) where
  open float use {sub}

  -- What is held for the vendor, in paisa.
  unfoldable pub hold_amount_paisa : ShopOrder float → ℤ
  unfolding rupees_to_paisa
  hold_amount_paisa o =
      let stored = rupees_to_paisa float o.vendor_escrow in
      let rest =
        rupees_to_paisa float (sub (sub o.total_amount o.admin_commission) o.delivery_escrow) in
      if leb_ℤ stored (pos 0) then if ltb_ℤ rest (pos 0) then pos 0 else rest else stored

  module _ (c : UpdateCall) (id : Text) where
    abbrev pub produce : Text → ShopOrder float → OrderStore float → OrderStore float
    produce status o s =
        if c.has_kafka
        then record s {
          events =
              record {
                order_id = id;
                status = status;
                customer_tracking_id = o.customer_tracking_id;
                vendor_tracking_id = o.vendor_tracking_id;
              }
              ∷ s.events;
        }
        else s

    abbrev pub with_holds :
        ShopOrder float → OrderStore float → Bool × Holds → UpdateAnswer × OrderStore float
    with_holds o s (false, hs) = (failed, s)
    with_holds o s (true, hs) = if c.commit_fails then (failed, s) else (
      updated,
      produce (codes "paid") o (record s {
        orders =
            set_status float (with_status_tx float (codes "paid") c.now) id (codes "paid") s.orders;
        holds = hs;
      }),
    )

    -- One transaction: an error after its start leaves nothing behind.
    unfoldable pub update_paid :
        ShopOrder float → OrderStore float → UpdateAnswer × OrderStore float
    unfolding set_status has_changed create_hold_rows hold_amount_paisa
    update_paid o s =
        let amount = hold_amount_paisa o in
        let hold = new_hold c.hold_id id o.vendor_tracking_id amount c.hold_until c.now in
        if c.begin_fails || c.update_fails
        then (failed, s)
        else if not (has_changed float id (codes "paid") s.orders)
        then (no_status_change, s)
        else if ltb_ℤ (pos 0) amount
        then with_holds o s (create_hold_rows c.hold_answers hold s.holds)
        else with_holds o s (true, s.holds)

    -- The deadline, set a second time by a statement of its own.
    unfoldable pub after_delivered : Text → OrderStore float → OrderStore float
    unfolding set_deadline
    after_delivered status s =
        if text_eq status (codes "delivered") && not c.deadline_fails
        then record s { orders = set_deadline float id (c.now + return_window) s.orders }
        else s

    -- CancelForOrder of the escrow service.
    unfoldable pub cancel_for_order : OrderStore float → OrderStore float
    unfolding cancel_hold_for_order remove_holds_from_index
    cancel_for_order s =
        let hs = cancel_hold_for_order id c.now s.holds in
        if not c.has_escrow || c.cancel_fails then s else record s {
          holds = hs;
          index = if c.index_fails then s.index else remove_holds_from_index id hs s.index;
        }

    abbrev pub cancel_debts : OrderStore float → OrderStore float
    cancel_debts s = if c.debts_fail then s else record s { debts = cancel_cod_debts id s.debts }

    abbrev pub release_stock : ShopOrder float → OrderStore float → OrderStore float
    release_stock o s =
        if ltb 0 o.item_count && not c.stock_fails then record s { stock = id ∷ s.stock } else s

    unfoldable pub after_cancelled : Text → ShopOrder float → OrderStore float → OrderStore float
    unfolding cancel_for_order cancel_cod_debts
    after_cancelled status o s =
        if text_eq status (codes "cancelled") || text_eq status (codes "failed")
        then cancel_debts (cancel_for_order (release_stock o s))
        else if text_eq status (codes "returned")
        then cancel_for_order s
        else s

    unfoldable pub update_other :
        Text → ShopOrder float → OrderStore float → UpdateAnswer × OrderStore float
    unfolding set_status has_changed after_delivered after_cancelled
    update_other status o s =
        if c.update_fails
        then (failed, s)
        else if not (has_changed float id status s.orders)
        then (no_status_change, s)
        else (
          updated,
          produce status o (
              after_cancelled status o (
                after_delivered status (record s {
                  orders = set_status float (with_status float status c.now) id status s.orders;
                }))),
        )

    -- From the order that was read, which a replica may give as it was some time ago; `none` is an order
    -- that is not found or cannot be read.
    unfoldable pub update_from :
        Option (ShopOrder float) → Text → OrderStore float → UpdateAnswer × OrderStore float
    unfolding update_paid update_other
    update_from none status s = (not_found, s)
    update_from (some o) status s =
        if text_eq o.status status
        then (already_there, s)
        else if not (is_valid_order_transition o.status status)
        then (invalid_transition, s)
        else if text_eq status (codes "paid") && c.has_escrow
        then update_paid o s
        else update_other status o s

    unfoldable pub update_order_status :
        Option (ShopOrder float) → Text → OrderStore float → UpdateAnswer × OrderStore float
    unfolding update_from
    update_order_status read status s = update_from read (lower status) s

    abbrev no_error : UpdateAnswer × OrderStore float → UpdateAnswer × OrderStore float
    no_error (no_status_change, s) = (already_there, s)
    no_error (updated, s) = (updated, s)
    no_error (already_there, s) = (already_there, s)
    no_error (not_found, s) = (not_found, s)
    no_error (invalid_transition, s) = (invalid_transition, s)
    no_error (failed, s) = (failed, s)

    unfoldable pub mark_order_delivered :
        Option (ShopOrder float) → OrderStore float → UpdateAnswer × OrderStore float
    unfolding update_order_status
    mark_order_delivered read s = no_error (update_order_status read (codes "delivered") s)

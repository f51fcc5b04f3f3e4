-- ===== src/Return/Dispute.antt =====
-- The vendor's verdict on a return, and the disputes that are resolved by themselves after 48 hours.
-- The vendor's penalty is left out.
use omnigo_app.Common.{
  ◌+◌, ◌==◌, ltb, Bool, true, false, ◌&&◌, ◌||◌, not, List, [], ◌∷◌, Option, none, some,
  if◌then◌else◌,
}
use omnigo_app.Common.Int.{ℤ, pos}
use omnigo_app.Common.Text.{Text, codes, text_eq, lower}
use omnigo_app.Return.Rows.{
  ReturnRow, ReturnOrder, is_valid_return_transition, get_return_request_by_id, update_rows, always,
  find_return_order, set_order_status,
}
use omnigo_app.Return.Service.{
  EscrowManager, ReturnStore, ReturnCall, hours, at_status, update_return_status,
}

unfoldable pub is_prefix : Text → Text → Bool
is_prefix [] t = true
is_prefix (c ∷ s) [] = false
is_prefix (c ∷ s) (d ∷ t) = c == d && is_prefix s t

-- `strings.Contains(t, s)`
unfoldable pub contains_text : Text → Text → Bool
unfolding is_prefix
contains_text s [] = is_prefix s []
contains_text s (d ∷ t) = is_prefix s (d ∷ t) || contains_text s t

module _ {S : Type 0} (escrow : EscrowManager S) (has_escrow : Bool) (c : ReturnCall) where
  abbrev pub verified_row : Text → ReturnRow → ReturnRow
  verified_row photo r = record r {
    status = codes "return_verified";
    vendor_verification_photo = some photo;
    dispute_reason = none;
    updated_at = c.now;
  }

  -- After the refund: it is taken back to `return_delivered` if the refund failed, and completed
  -- otherwise; an error of either statement is not returned.
  abbrev pub finish_verified : Text → Bool × S → ReturnStore S → Bool × ReturnStore S
  finish_verified id (false, e) s = (
    false,
    record s {
      rows =
          if c.revert_fails
          then s.rows
          else update_rows id (λ t. text_eq t (codes "return_verified"))
              (at_status escrow has_escrow c (codes "return_delivered")) s.rows;
      escrow = e;
    },
  )
  finish_verified id (true, e) s = (
    true,
    (update_return_status escrow has_escrow c c.complete_fails id (codes "return_completed")
        (codes "return_verified") (record s { escrow = e })).1,
  )

  -- Without an order to read there is no refund, and the return is completed all the same.
  abbrev pub refund : Text → Option ReturnOrder → S → Bool × S
  refund order none e = (true, e)
  refund order (some o) e =
      let r = escrow.refund_for_return order o.total_amount_paisa e in
      if has_escrow && not c.order_read_fails then r else (true, e)

  unfoldable pub approve : Text → Text → Text → ReturnStore S → Bool × ReturnStore S
  approve id order photo s =
      if c.write_fails
      then (false, s)
      else finish_verified id (refund order (find_return_order order s.orders) s.escrow)
          (record s { rows = update_rows id always (verified_row photo) s.rows })

  abbrev pub disputed_row : Text → Text → ReturnRow → ReturnRow
  disputed_row photo notes r = record r {
    status = codes "return_disputed";
    vendor_verification_photo = some photo;
    dispute_reason = if text_eq notes [] then none else some notes;
    updated_at = c.now;
  }

  abbrev pub detailed_row : Text → ReturnRow → ReturnRow
  detailed_row notes r = record r {
    dispute_reason = some notes;
    escrow_hold_id = some c.dispute_id;
    updated_at = c.now;
  }

  unfoldable pub dispute : Text → Text → Text → Text → ReturnStore S → Bool × ReturnStore S
  dispute id order photo notes s =
      let rows = update_rows id always (disputed_row photo notes) s.rows in
      let frozen = (escrow.freeze_for_dispute order c.dispute_id s.escrow).1 in
      if c.write_fails then (false, s) else (
        true,
        record s {
          rows = if c.details_fail then rows else update_rows id always (detailed_row notes) rows;
          disputes = if c.dispute_fails then s.disputes else c.dispute_id ∷ s.disputes;
          escrow = if has_escrow then frozen else s.escrow;
        },
      )

  abbrev pub judge :
      Text → Bool → Text → Text → Option ReturnRow → ReturnStore S → Bool × ReturnStore S
  judge id verified photo notes none s = (false, s)
  judge id verified photo notes (some r) s =
      if is_valid_return_transition r.status (codes "return_verified")
        || is_valid_return_transition r.status (codes "return_disputed")
      then if verified
        then approve id r.order_tracking_id photo s
        else dispute id r.order_tracking_id photo notes s
      else (false, s)

  unfoldable pub verify_by_vendor : Text → Bool → Text → Text → ReturnStore S → Bool × ReturnStore S
  unfolding approve dispute
  verify_by_vendor id verified photo notes s =
      judge id verified photo notes (get_return_request_by_id c.read_fails id s.rows) s

  abbrev pub is_stale : ReturnRow → Bool
  is_stale r = text_eq r.status (codes "return_disputed") && ltb (r.updated_at + hours 48) c.now

  unfoldable pub favours_customer : Text → Bool
  unfolding contains_text
  favours_customer reason =
      contains_text (codes "not received") (lower reason)
      || (contains_text (codes "damaged") (lower reason)
          || contains_text (codes "wrong item") (lower reason))

  abbrev pub total_of : Option ReturnOrder → ℤ
  total_of none = pos 0
  total_of (some o) = if c.order_read_fails then pos 0 else o.total_amount_paisa

  -- One dispute; an error of the refund is only logged, and the write of the order is taken to succeed.
  unfoldable pub resolve : ReturnRow → ReturnStore S → ReturnStore S
  unfolding favours_customer
  resolve r s =
      let wins = favours_customer r.reason in
      let paid =
        (escrow.refund_for_return r.order_tracking_id
          (total_of (find_return_order r.order_tracking_id s.orders)) s.escrow).1 in
      if c.write_fails then s else record s {
        rows =
            update_rows r.id always
              (at_status escrow has_escrow c
                (if wins then codes "return_completed" else codes "return_cancelled"))
              s.rows;
        orders =
            set_order_status (if wins then codes "returned" else codes "return_rejected")
              r.order_tracking_id s.orders;
        escrow = if wins && has_escrow then paid else s.escrow;
      }

  unfoldable pub resolve_all : List ReturnRow → ReturnStore S → ReturnStore S
  unfolding resolve
  resolve_all [] s = s
  resolve_all (r ∷ rs) s = resolve_all rs (if is_stale r then resolve r s else s)

  -- `AutoResolveStaleDisputes`: the rows are those of the query.
  unfoldable pub auto_resolve_stale_disputes : ReturnStore S → Bool × ReturnStore S
  unfolding resolve_all
  auto_resolve_stale_disputes s = if c.read_fails then (false, s) else (true, resolve_all s.rows s)

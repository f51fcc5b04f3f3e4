-- ===== src/Return/Tests.antt =====
-- A delivered order whose return is requested.
use omnigo_app.Common.{◌≡◌, ℕ, suc, refl, true, false, [], ◌∷◌, some}
use omnigo_app.Common.Int.{pos}
use omnigo_app.Common.Text.{codes, text_eq}
use omnigo_app.Return.Rows.{ReturnOrder, find_return_order, has_active_return}
use omnigo_app.Return.Service.{EscrowManager, ReturnStore, ReturnCall, request_return}

-- An escrow that counts its refunds.
abbrev counting : EscrowManager ℕ
counting = record {
  cancel_for_order = λ order n. (true, n);
  create_return_hold = λ order vendor amount until n. (true, n);
  refund_for_return = λ order amount n. (true, suc n);
  freeze_for_dispute = λ order dispute n. (true, n);
}

abbrev call : ReturnCall
call = record {
  now = 1000;
  new_id = codes "RET-1";
  dispute_id = codes "D-1";
  blocked_by_fraud = false;
  read_fails = false;
  active_read_fails = false;
  window_read_fails = false;
  order_read_fails = false;
  otp_read_fails = false;
  write_fails = false;
  revert_fails = false;
  complete_fails = false;
  dispute_fails = false;
  details_fail = false;
}

abbrev order : ReturnOrder
order = record {
  order_tracking_id = codes "ORD-1";
  customer_tracking_id = codes "CUST-1";
  vendor_tracking_id = codes "V-1";
  store_tracking_id = codes "ST-1";
  total_amount_paisa = pos 120000;
  status = codes "delivered";
  otp_code = codes "4711";
  return_deadline = some 2000;
}

abbrev store : ReturnStore ℕ
store = record { rows = []; orders = order ∷ []; disputes = []; escrow = 0 }

-- On a database without the columns of `users` that the read of the order names, nothing comes of
-- the request.
unread :
    request_return counting true
      (record call { order_read_fails = true })
      (codes "ORD-1")
      (codes "CUST-1")
      (codes "damaged")
      store
    ≡ (false, store)
unfolding request_return find_return_order text_eq has_active_return
unread = refl

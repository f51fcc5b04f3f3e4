-- ===== src/Order/Tests.antt =====
-- An order's life.
use omnigo_app.Common.{◌≡◌, ◌⊎◌, true, false, none, some, [], ◌∷◌, refl}
use omnigo_app.Common.Text.{codes, lower, text_eq}
use omnigo_app.Common.Floats.{hundredths}
use omnigo_app.Money.{rupees_to_paisa}
use omnigo_app.Escrow.Repository.{Answers}
use omnigo_app.Order.Rows.{ShopOrder, OrderStore, find_shop_order}
use omnigo_app.Order.Update.{UpdateCall, hold_amount_paisa, update_order_status}
use omnigo_app.Order.Changed.{status_at, ByRule, update_order_status-Changed}
use omnigo_app.Order.History.{update_order_status-final}
use omnigo_app.Order.Paid.{PaidOutcome, update_order_status-Paid}

abbrev answers : Answers
answers = record {
  order_check = some true;
  vendor_check = some true;
  count_fails = false;
  existing_fails = false;
  insert_fails = false;
  update_fails = false;
  index_fails = false;
}

abbrev call : UpdateCall
call = record {
  now = 100;
  has_escrow = true;
  has_kafka = true;
  begin_fails = false;
  update_fails = false;
  commit_fails = false;
  deadline_fails = false;
  stock_fails = false;
  cancel_fails = false;
  index_fails = false;
  debts_fail = false;
  hold_answers = answers;
  hold_id = codes "h1";
  hold_until = 900;
}

-- An order of 1000 rupees, of which 850 are the vendor's.
abbrev order : ShopOrder hundredths
order = record {
  order_tracking_id = codes "ORD-1";
  customer_tracking_id = codes "C-1";
  vendor_tracking_id = codes "V-1";
  status = codes "pending";
  total_amount = 100000;
  admin_commission = 5000;
  vendor_escrow = 85000;
  delivery_escrow = 10000;
  item_count = 2;
  delivered_at = none;
  return_deadline = none;
}

abbrev store : OrderStore hundredths
store = record { orders = order ∷ []; holds = []; index = []; debts = []; stock = []; events = [] }

update_order_status-Changed_example :
    let s' =
      (update_order_status hundredths call (codes "ORD-1") (some order) (codes "Paid") store).1 in
    (status_at hundredths (codes "ORD-1") s' ≡ status_at hundredths (codes "ORD-1") store)
    ⊎ ByRule hundredths (codes "ORD-1") (some order) (codes "paid") (codes "ORD-1") store s'
unfolding lower
update_order_status-Changed_example =
    update_order_status-Changed hundredths call (codes "ORD-1") (some order) (codes "Paid")
      (codes "ORD-1") store

abbrev cancelled_store : OrderStore hundredths
cancelled_store = record store { orders = record order { status = codes "cancelled" } ∷ [] }

-- A replica that still says `paid`.
update_order_status-final_example :
    let s' =
      (update_order_status hundredths call
        (codes "ORD-1")
        (some (record order { status = codes "paid" }))
        (codes "accepted")
        cancelled_store).1 in
    (status_at hundredths (codes "ORD-1") s' ≡ some (codes "cancelled"))
    ⊎ (status_at hundredths (codes "ORD-1") s' ≡ some (codes "refunded"))
unfolding find_shop_order text_eq
update_order_status-final_example =
    update_order_status-final hundredths call (codes "ORD-1")
      (some (record order { status = codes "paid" })) (codes "accepted") (codes "ORD-1")
      (codes "cancelled") cancelled_store refl refl

update_order_status-Paid_example :
    let (r, s') =
      update_order_status hundredths call (codes "ORD-1") (some order) (codes "paid") store in
    PaidOutcome hundredths call (codes "ORD-1") order store s' r
unfolding hold_amount_paisa rupees_to_paisa
update_order_status-Paid_example =
    update_order_status-Paid hundredths call (codes "ORD-1") order refl store refl

-- ===== src/Refund/Tests.antt =====
-- A disputed order of 900 rupees, and an order whose escrow was released.
use omnigo_app.Common.{◌≡◌, refl, true, false, List, [], ◌∷◌, ◌++◌, length, some, none}
use omnigo_app.Common.Int.{pos, ◌+ℤ◌}
use omnigo_app.Common.Text.{Text, codes, text_eq}
use omnigo_app.Common.Decimal.{format_nat}
use omnigo_app.Ledger.Models.{empty_db, is_valid_account, valid_accounts}
use omnigo_app.Ledger.Tx.{no_faults}
use omnigo_app.Ledger.Entries.{
  Externals, debit_entry, credit_entry, make_entry, debit_key, credit_key,
}
use omnigo_app.Ledger.Rows.{
  existing, find_entry, reserve_key, insert_entries, insert_tb_outbox_entry,
}
use omnigo_app.Ledger.Service.{transfer}
use omnigo_app.Escrow.Models.{EscrowHold, disputed, find_hold}
use omnigo_app.Wallet.Rows.{upsert_balance, balance_of, add_balance}
use omnigo_app.Wallet.Spec.{with_more}
use omnigo_app.Wallet.Customer.{done}
use omnigo_app.Refund.Rows.{RefundOrder, RefundBooks, RefundCall, find_refund_order, mark_refunded}
use omnigo_app.Refund.Service.{
  refund_transfer, refund_dispute, refund_dispute_of, disputed_hold, refund_for_return,
}
use omnigo_app.Refund.Outcome.{ReturnOutcome, refund_for_return-Outcome}
use omnigo_app.Refund.Overlap.{refund_dispute-overlapped}

abbrev externals : Externals
externals = record {
  new_uuid = λ n. codes "uuid-" ++ format_nat n;
  hmac_hex = λ s. s;
  uuid_to_uint128 = λ s. some 7;
  account_to_uint128 = length;
  md5_uint128 = length;
  has_tb = false;
}

abbrev call : RefundCall
call = record {
  now = 700;
  amount_column = λ h. some (pos 900);
  order_read_fails = false;
  hold_read_fails = false;
  customer_read_fails = false;
  total_read_fails = false;
  rider_read_fails = false;
  begin_fails = false;
  hold_write_fails = false;
  wallet_fails = false;
  order_write_fails = false;
  debt_write_fails = false;
  rider_write_fails = false;
  clawback_fails = false;
  commit_fails = false;
  index_fails = false;
  ext = externals;
  ledger_faults = no_faults;
}

abbrev hold : EscrowHold
hold = record {
  id = codes "h1";
  order_tracking_id = codes "ORD-1";
  vendor_tracking_id = codes "V-1";
  amount = pos 90000;
  status = disputed;
  hold_until = 400;
  released_at = none;
  dispute_id = some (codes "D-1");
  created_at = 100;
}

abbrev order : RefundOrder
order = record {
  order_tracking_id = codes "ORD-1";
  customer_tracking_id = codes "CUST-1";
  vendor_tracking_id = codes "V-1";
  payment_gateway = codes "payfast";
  payment_status = codes "paid";
  escrow_released = false;
  total_amount_paisa = pos 90000;
}

abbrev books : RefundBooks
books = record {
  holds = hold ∷ [];
  orders = order ∷ [];
  debts = [];
  customers = [];
  riders = [];
  vendors = [];
  ledger = empty_db;
  index = codes "h1" ∷ [];
}

-- The first call fails at its Commit.
abbrev calls : List RefundCall
calls = record call { commit_fails = true } ∷ (call ∷ (call ∷ []))

dispute_done : (refund_dispute call (codes "D-1") books).0 ≡ done
unfolding refund_dispute refund_dispute_of disputed_hold refund_transfer find_hold find_refund_order
    upsert_balance transfer reserve_key insert_entries insert_tb_outbox_entry is_valid_account
    valid_accounts text_eq format_nat debit_entry credit_entry make_entry debit_key credit_key
dispute_done = refl

again_done :
    (refund_dispute_of call
      (codes "D-1")
      (disputed_hold (codes "D-1") books)
      (refund_dispute call (codes "D-1") books).1).0
    ≡ done
unfolding refund_dispute refund_dispute_of disputed_hold refund_transfer find_hold find_refund_order
    upsert_balance transfer reserve_key insert_entries insert_tb_outbox_entry is_valid_account
    valid_accounts text_eq format_nat debit_entry credit_entry make_entry debit_key credit_key
    mark_refunded add_balance balance_of existing find_entry ◌+ℤ◌
again_done = refl

-- Two calls that both found the hold in dispute.
refund_dispute-overlapped_example :
    let t = (refund_dispute call (codes "D-1") books).1 in
    let t' = (refund_dispute_of call (codes "D-1") (disputed_hold (codes "D-1") books) t).1 in
    (t'.ledger ≡ t.ledger)
    × ((x : Text)
        → balance_of t'.customers x
          ≡ with_more
              (codes "CUST-1")
              (pos 900)
              (with_more (codes "CUST-1") (pos 900) (balance_of books.customers))
              x)
unfolding disputed_hold find_hold find_refund_order text_eq
refund_dispute-overlapped_example =
    refund_dispute-overlapped (codes "D-1") hold order (pos 900) call call books refl refl refl refl
      dispute_done again_done

abbrev released_books : RefundBooks
released_books = record books {
  holds = [];
  orders = record order { escrow_released = true } ∷ [];
  vendors =
      record {
        vendor_tracking_id = codes "V-1";
        balance_paisa = pos 90000;
        total_payouts_paisa = pos 0;
        vendor_clawback_paisa = pos 0;
      }
      ∷ [];
}

refund_for_return-Outcome_example :
    let (r, b) = refund_for_return call (codes "ORD-1") (pos 90000) released_books in
    ReturnOutcome call (codes "ORD-1") (pos 90000) released_books b r
refund_for_return-Outcome_example =
    refund_for_return-Outcome call (codes "ORD-1") (pos 90000) released_books

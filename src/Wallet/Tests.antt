-- ===== src/Wallet/Tests.antt =====
-- A wallet of 1000 rupees, and an order of 400 that is charged twice.
use omnigo_app.Common.{
  ◌≡◌, refl, true, false, List, [], ◌∷◌, ◌++◌, length, some, arith, inl, inr, Bool-cases,
}
use omnigo_app.Common.Int.{pos, ◌+ℤ◌, ◌-ℤ◌}
use omnigo_app.Common.Text.{Text, codes, text_eq}
use omnigo_app.Common.Decimal.{format_nat}
use omnigo_app.Ledger.Models.{empty_db, is_valid_account, valid_accounts}
use omnigo_app.Ledger.Tx.{no_faults}
use omnigo_app.Ledger.Entries.{
  Externals, debit_entry, credit_entry, make_entry, debit_key, credit_key,
}
use omnigo_app.Ledger.Rows.{
  reserve_key, insert_entries, insert_tb_outbox_entry, existing, find_entry,
}
use omnigo_app.Ledger.Service.{transfer}
use omnigo_app.Common.Floats.{hundredths}
use omnigo_app.Money.{rupees_to_paisa}
use omnigo_app.Commission.{env_float}
use omnigo_app.Wallet.Rider.{RiderCall, RiderStore, find_rider}
use omnigo_app.Wallet.Withdrawal.{RiderWithdrawalRequest, withdraw, check_rider, request_withdrawal}
use omnigo_app.Wallet.Withdrawn.{WithdrawalOutcome, request_withdrawal-Outcome}
use omnigo_app.Wallet.Rows.{deduct_balance, balance_of}
use omnigo_app.Wallet.Customer.{
  Store, Call, done, purchase_key, purchase_request, check_request, charge, deduct_for_purchase,
}
use omnigo_app.Wallet.Refine.{Request, crediting, purchasing, serve, Step, serve-Step}
use omnigo_app.Wallet.Bounds.{serve_all, IsCovering, serve_all-IsCovering}
use omnigo_app.Wallet.Again.{moved, serve_again}

abbrev externals : Externals
externals = record {
  new_uuid = λ n. codes "uuid-" ++ format_nat n;
  hmac_hex = λ s. s;
  uuid_to_uint128 = λ s. some 7;
  account_to_uint128 = length;
  md5_uint128 = length;
  has_tb = false;
}

abbrev good : Call
good = record {
  begin_fails = false;
  update_fails = false;
  commit_fails = false;
  refund_begin_fails = false;
  refund_update_fails = false;
  refund_commit_fails = false;
  has_ledger = true;
  ext = externals;
  check_faults = no_faults;
  ledger_faults = no_faults;
}

abbrev customer : Text
customer = codes "CUST-1"

abbrev wallet : Store
wallet = record {
  wallets =
      record {
        customer_tracking_id = customer;
        balance_paisa = pos 100000;
        lifetime_spent_paisa = pos 0;
      }
      ∷ [];
  ledger = empty_db;
}

abbrev order_1 : Request
order_1 = purchasing customer (codes "ORD-1") (pos 40000)

abbrev charged_once : Store
charged_once = (serve good order_1 wallet).1

serve-Step_example :
    Step order_1
      (serve good order_1 wallet).0
      (balance_of wallet.wallets)
      (balance_of charged_once.wallets)
serve-Step_example = serve-Step good order_1 wallet

wallet-IsCovering : IsCovering wallet.wallets
unfolding balance_of
wallet-IsCovering x = elim (Bool-cases (text_eq customer x)) [
  | inl same ↦ rw same (omega arith)
  | inr other ↦ rw other (omega arith)
]

abbrev calls : List (Call × Request)
calls = (good, order_1) ∷ ((good, order_1) ∷ ((good, crediting customer (codes "R") (pos 7)) ∷ []))

serve_all-IsCovering_example : IsCovering (serve_all calls wallet).wallets
serve_all-IsCovering_example = serve_all-IsCovering calls wallet wallet-IsCovering

serve_again_example :
    let t = (serve good order_1 charged_once).1 in
    (t.ledger ≡ charged_once.ledger)
    × ((x : Text) → balance_of t.wallets x ≡ moved order_1 (balance_of charged_once.wallets) x)
unfolding serve deduct_for_purchase charge check_request purchase_request purchase_key
    deduct_balance transfer reserve_key existing find_entry insert_entries insert_tb_outbox_entry
    is_valid_account valid_accounts text_eq format_nat debit_entry credit_entry make_entry debit_key
    credit_key ◌+ℤ◌ ◌-ℤ◌
serve_again_example = serve_again good order_1 charged_once refl refl

-- A rider with 1000 rupees, 20 of them in cash elsewhere, who asks for 600.
abbrev rider_call : RiderCall
rider_call = record {
  payout_id = codes "P-1";
  begin_fails = false;
  read_fails = false;
  update_fails = false;
  insert_fails = false;
  commit_fails = false;
  has_ledger = true;
  is_cod_order = false;
  ext = externals;
  commission_ext = externals;
  ledger_faults = no_faults;
}

abbrev withdrawal : RiderWithdrawalRequest hundredths (λ _. [])
withdrawal = record {
  rider_tracking_id = codes "R-1";
  amount = 60000;
  amount_paisa = pos 0;
  method = codes "jazzcash";
  account_number = codes "03001234567";
  account_title = codes "Rider";
}

abbrev riders : RiderStore
riders = record {
  riders =
      record {
        rider_tracking_id = codes "R-1";
        balance_paisa = pos 100000;
        cash_in_hand_paisa = pos 2000;
        is_cash_blocked = false;
      }
      ∷ [];
  payouts = [];
  ledger = empty_db;
}

request_withdrawal-Outcome_example :
    let (r, t) = request_withdrawal hundredths (λ _. []) rider_call withdrawal riders in
    WithdrawalOutcome hundredths (λ _. []) rider_call withdrawal riders t r
request_withdrawal-Outcome_example =
    request_withdrawal-Outcome hundredths (λ _. []) rider_call withdrawal riders

withdrawal_done : (request_withdrawal hundredths (λ _. []) rider_call withdrawal riders).0 ≡ done
unfolding request_withdrawal check_rider withdraw find_rider rupees_to_paisa env_float text_eq
withdrawal_done = refl

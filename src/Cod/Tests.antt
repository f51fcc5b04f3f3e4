-- ===== src/Cod/Tests.antt =====
-- A debt of 1000 rupees with a delivery fee of 150; the gateway reports its payment twice.
use mathlib.Core.Option.{some-injective}
use mathlib.Core.Path.{subst}
use omnigo_app.Common.{◌≡◌, refl, ◌⊎◌, inr, true, false, [], ◌∷◌, ◌++◌, length, none, some, arith}
use omnigo_app.Common.Int
use omnigo_app.Common.Int.{ℤ, pos}
use omnigo_app.Common.Text.{Text, codes, text_eq}
use omnigo_app.Common.Decimal.{format_nat}
use omnigo_app.Common.Floats.{hundredths}
use omnigo_app.Commission.{
  share, cod_rate, store_rate, env_float, fee_paisa, cap_split, calculate_cod_split,
}
use omnigo_app.Commission.Laws.{Fits}
use omnigo_app.Ledger.Models.{empty_db, cash_receivable}
use omnigo_app.Ledger.Tx.{no_faults}
use omnigo_app.Ledger.Entries.{Externals}
use omnigo_app.Ledger.Service.{balance}
use omnigo_app.Ledger.Replay.{start}
use omnigo_app.Escrow.Repository.{Answers}
use omnigo_app.Cod.Rows.{CodDebt, CodOrder, CodBooks, debt_and_order}
use omnigo_app.Cod.Settle.{CodCall, CodSettlementRequest, split_of, settlement}
use omnigo_app.Cod.Once.{settlement-once}
use omnigo_app.Cod.Cleared.{settlement-clears}
use omnigo_app.Cod.Zero.{settlement-zero}

abbrev externals : Externals
externals = record {
  new_uuid = λ n. codes "uuid-" ++ format_nat n;
  hmac_hex = λ s. s;
  uuid_to_uint128 = λ s. some 7;
  account_to_uint128 = length;
  md5_uint128 = length;
  has_tb = false;
}

abbrev answers : Answers
answers = record {
  order_check = some true;
  vendor_check = some true;
  count_fails = false;
  existing_fails = false;
  insert_fails = false;
  update_fails = false;
  index_fails = false;
}

abbrev unset : Text → Text
unset _ = []

abbrev call : CodCall hundredths unset
call = record {
  role = codes "rider";
  caller = codes "R-1";
  exists_fails = false;
  debt_read_fails = false;
  stored_rate = some 1000;
  delivery_fee = some 15000;
  vendor_user_id = none;
  ext = externals;
  ledger_faults = no_faults;
  begin_fails = false;
  debt_write_fails = false;
  rider_write_fails = false;
  commit_fails = false;
  hold_answers = answers;
  hold_id = codes "h1";
  hold_until = 900;
  now = 100;
}

abbrev request : CodSettlementRequest hundredths unset
request = record {
  cod_debt_id = codes "D-1";
  transaction_id = codes "T-1";
  amount = 100000;
  status = codes "success";
  webhook_event_id = codes "E-1";
  gateway = codes "payfast";
}

abbrev debt : CodDebt
debt = record {
  id = codes "D-1";
  order_tracking_id = codes "ORD-1";
  rider_tracking_id = codes "R-1";
  amount_owed = pos 100000;
  status = codes "pending";
  settled_via = none;
  webhook_event_id = none;
}

abbrev order : CodOrder
order = record {
  order_tracking_id = codes "ORD-1";
  store_tracking_id = codes "S-1";
  vendor_tracking_id = codes "V-1";
  total_amount_paisa = pos 100000;
}

abbrev books : CodBooks
books = record {
  debts = debt ∷ [];
  orders = order ∷ [];
  users = codes "R-1" ∷ [];
  riders =
      record {
        rider_tracking_id = codes "R-1";
        balance_paisa = pos 0;
        cash_in_hand_paisa = pos 120000;
        is_cash_blocked = false;
      }
      ∷ [];
  holds = [];
  ledger = empty_db;
}

-- The hold could not be made the first time, so that the report comes again.
abbrev failing : CodCall hundredths unset
failing = record call { commit_fails = true }

settlement-once_example :
    ((settlement hundredths unset failing request books).1.ledger ≡ books.ledger)
    ⊎ ((settlement hundredths unset call request
          (settlement hundredths unset failing request books).1).1.ledger
        ≡ (settlement hundredths unset failing request books).1.ledger)
settlement-once_example =
    settlement-once hundredths unset failing call request request books
      (settlement hundredths unset failing request books).1 refl start

debt-Fits :
    (d : CodDebt) (o : CodOrder)
    → debt_and_order request.cod_debt_id books ≡ some (d, o)
    → Fits hundredths d.amount_owed
        (share hundredths d.amount_owed (cod_rate hundredths unset call.stored_rate))
        (fee_paisa hundredths d.order_tracking_id call.delivery_fee)
unfolding debt_and_order text_eq share cod_rate store_rate env_float fee_paisa Int.◌+ℤ◌
debt-Fits d o found =
    subst
      (λ p.
        Fits hundredths p.0.amount_owed
          (share hundredths p.0.amount_owed (cod_rate hundredths unset call.stored_rate))
          (fee_paisa hundredths p.0.order_tracking_id call.delivery_fee))
      (some-injective _ (d, o) found)
      (omega arith, omega arith, omega arith, omega arith, omega arith)

settlement-clears_example :
    balance cash_receivable (settlement hundredths unset call request books).1.ledger
    ≡ balance cash_receivable books.ledger
settlement-clears_example = settlement-clears hundredths unset call request books debt-Fits

-- The delivery fee is all of the debt.
abbrev no_share : CodCall hundredths unset
no_share = record call { delivery_fee = some 100000 }

debt_zero :
    (d : CodDebt) (o : CodOrder)
    → debt_and_order request.cod_debt_id books ≡ some (d, o)
    → ((split_of hundredths unset no_share d o).admin_revenue ≡ pos 0)
      ⊎ ((split_of hundredths unset no_share d o).vendor_escrow ≡ pos 0)
unfolding debt_and_order text_eq calculate_cod_split share cod_rate store_rate env_float fee_paisa
    cap_split Int.◌+ℤ◌ Int.◌-ℤ◌ Int.int64
debt_zero d o found =
    subst
      (λ p.
        ((split_of hundredths unset no_share p.0 p.1).admin_revenue ≡ pos 0)
        ⊎ ((split_of hundredths unset no_share p.0 p.1).vendor_escrow ≡ pos 0))
      (some-injective _ (d, o) found) (inr refl)

settlement-zero_example :
    (settlement hundredths unset no_share request books).1.ledger ≡ books.ledger
settlement-zero_example = settlement-zero hundredths unset no_share request books debt_zero

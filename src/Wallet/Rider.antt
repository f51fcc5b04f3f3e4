-- ===== src/Wallet/Rider.antt =====
-- backend/go-services/internal/wallet/service/rider_wallet_service.go: a rider's balance and the cash
-- in the rider's hand. Of the columns, those in paisa are kept; sums in the statements are exact.
use omnigo_app.Common.{
  Bool, true, false, not, ◌&&◌, ◌||◌, ◌++◌, Option, none, some, if◌then◌else◌, List, [], ◌∷◌,
}
use omnigo_app.Common.Int.{ℤ, pos, ◌+ℤ◌, ◌-ℤ◌, ltb_ℤ, leb_ℤ}
use omnigo_app.Common.Text.{Text, codes, text_eq}
use omnigo_app.Common.Decimal.{format_int}
use omnigo_app.Ledger.Models.{
  TransferRequest, Db, central_escrow, rider_wallet, admin_revenue, cash_receivable, rider_cod_debt,
  gateway_clearing,
}
use omnigo_app.Ledger.Tx.{Faults}
use omnigo_app.Ledger.Entries.{Externals}
use omnigo_app.Ledger.Service.{transfer}
use omnigo_app.Wallet.Customer.{succeeded}

pub record RiderWallet : Type 0 where
  pub rider_tracking_id : Text
  pub balance_paisa : ℤ
  pub cash_in_hand_paisa : ℤ
  pub is_cash_blocked : Bool

-- A row of `rider_payouts`, whose status is `pending`.
pub record RiderPayout : Type 0 where
  pub id : Text
  pub rider_tracking_id : Text
  pub amount_paisa : ℤ
  pub method : Text
  pub account_number : Text
  pub account_title : Text

pub record RiderStore : Type 0 where
  pub riders : List RiderWallet
  pub payouts : List RiderPayout
  pub ledger : Db

-- What the outside does during one call.
pub record RiderCall : Type 0 where
  pub payout_id : Text
  pub begin_fails : Bool
  pub read_fails : Bool
  pub update_fails : Bool
  pub insert_fails : Bool
  pub commit_fails : Bool
  pub has_ledger : Bool
  pub is_cod_order : Bool
  pub ext : Externals
  pub commission_ext : Externals
  pub ledger_faults : Faults

unfoldable pub find_rider : Text → List RiderWallet → Option RiderWallet
find_rider id [] = none
find_rider id (w ∷ ws) = if text_eq w.rider_tracking_id id then some w else find_rider id ws

-- `… WHERE rider_tracking_id = $1`
unfoldable pub update_rider :
    Text → (RiderWallet → RiderWallet) → List RiderWallet → List RiderWallet
update_rider id f [] = []
update_rider id f (w ∷ ws) =
    let rest = update_rider id f ws in
    if text_eq w.rider_tracking_id id then f w ∷ rest else w ∷ rest

abbrev pub has_more_cash : ℤ → RiderWallet → RiderWallet
has_more_cash amount w = record w { cash_in_hand_paisa = w.cash_in_hand_paisa +ℤ amount }

-- `INSERT … ON CONFLICT (rider_tracking_id) DO UPDATE SET cash_in_hand_paisa = … + $2`
unfoldable pub upsert_cash : Text → ℤ → List RiderWallet → List RiderWallet
upsert_cash id amount [] =
    record {
      rider_tracking_id = id;
      balance_paisa = pos 0;
      cash_in_hand_paisa = amount;
      is_cash_blocked = false;
    }
    ∷ []
upsert_cash id amount (w ∷ ws) =
    let rest = upsert_cash id amount ws in
    if text_eq w.rider_tracking_id id then has_more_cash amount w ∷ ws else w ∷ rest

-- `GREATEST(0, cash_in_hand_paisa - $1)`
abbrev pub has_less_cash : ℤ → RiderWallet → RiderWallet
has_less_cash amount w =
    let left = w.cash_in_hand_paisa -ℤ amount in
    record w { cash_in_hand_paisa = if ltb_ℤ left (pos 0) then pos 0 else left }

abbrev pub has_no_cash : RiderWallet → RiderWallet
has_no_cash w = record w { cash_in_hand_paisa = pos 0 }

unfoldable pub earning_request : Text → Text → ℤ → ℤ → TransferRequest
earning_request rider delivery earning commission = record {
  debit_account = central_escrow;
  credit_account = rider_wallet;
  amount = earning;
  currency = codes "PKR";
  reference_type = codes "delivery_credit";
  reference_id = delivery;
  description =
      codes "Rider delivery earning: "
      ++ (format_int earning
          ++ (codes " paisa (fee: "
              ++ (format_int earning
                  ++ (codes ", commission: " ++ (format_int commission ++ codes ")")))));
  idempotency_key = codes "rider:credit:" ++ (delivery ++ (codes ":" ++ rider));
}

unfoldable pub delivery_commission_request : Text → ℤ → TransferRequest
delivery_commission_request delivery commission = record {
  debit_account = central_escrow;
  credit_account = admin_revenue;
  amount = commission;
  currency = codes "PKR";
  reference_type = codes "delivery_commission";
  reference_id = delivery;
  description =
      codes "Delivery admin commission from central_escrow: "
      ++ (format_int commission ++ codes " paisa");
  idempotency_key = codes "delivery:admin_comm:" ++ delivery;
}

unfoldable pub cod_debt_request : Text → ℤ → TransferRequest
cod_debt_request order amount = record {
  debit_account = cash_receivable;
  credit_account = rider_cod_debt;
  amount = amount;
  currency = codes "PKR";
  reference_type = codes "cod_debt";
  reference_id = order;
  description =
      codes "COD debt: rider collected "
      ++ (format_int amount ++ (codes " paisa for order " ++ order));
  idempotency_key = codes "cod:debt:" ++ order;
}

unfoldable pub withdrawal_request : Text → ℤ → Text → Text → TransferRequest
withdrawal_request payout amount method account = record {
  debit_account = rider_wallet;
  credit_account = gateway_clearing;
  amount = amount;
  currency = codes "PKR";
  reference_type = codes "rider_payout";
  reference_id = payout;
  description =
      codes "Rider payout request "
      ++ (payout
          ++ (codes ": "
              ++ (format_int amount
                  ++ (codes " paisa to " ++ (method ++ (codes " (" ++ (account ++ codes ")")))))));
  idempotency_key = codes "rider:payout:" ++ payout;
}

-- The methods on the cash in hand answer whether there was no error.
module _ (c : RiderCall) where
  unfoldable pub add_cod_collection : Text → ℤ → RiderStore → Bool × RiderStore
  add_cod_collection rider amount s =
      if leb_ℤ amount (pos 0)
      then (true, s)
      else if c.update_fails
      then (false, s)
      else (true, record s { riders = upsert_cash rider amount s.riders })

  unfoldable pub clear_cod_collection : Text → RiderStore → Bool × RiderStore
  clear_cod_collection rider s =
      if c.update_fails
      then (false, s)
      else (true, record s { riders = update_rider rider has_no_cash s.riders })

  unfoldable pub decrement_cod_collection : Text → ℤ → RiderStore → Bool × RiderStore
  decrement_cod_collection rider amount s =
      if leb_ℤ amount (pos 0)
      then (true, s)
      else if c.update_fails
      then (false, s)
      else (true, record s { riders = update_rider rider (has_less_cash amount) s.riders })

  abbrev pub post_if : Externals → Bool → TransferRequest → Db → Db
  post_if ext test req d =
      if c.has_ledger && test then (transfer ext c.ledger_faults req d).1 else d

  -- The ledger alone; its errors are only logged.
  unfoldable pub credit_delivery : Text → Text → ℤ → ℤ → RiderStore → Bool × RiderStore
  unfolding earning_request delivery_commission_request
  credit_delivery rider delivery earning commission s =
      let credited =
        post_if c.ext (ltb_ℤ (pos 0) earning) (earning_request rider delivery earning commission)
          s.ledger in
      if ltb_ℤ earning (pos 0) then (false, s) else if c.is_cod_order then (true, s) else (
        true,
        record s {
          ledger =
              post_if c.commission_ext (ltb_ℤ (pos 0) commission)
                (delivery_commission_request delivery commission) credited;
        },
      )

  unfoldable pub create_cod_debt_ledger : Text → ℤ → RiderStore → Bool × RiderStore
  unfolding cod_debt_request
  create_cod_debt_ledger order amount s =
      let (r, d) = transfer c.ext c.ledger_faults (cod_debt_request order amount) s.ledger in
      if leb_ℤ amount (pos 0) || not c.has_ledger
      then (true, s)
      else (succeeded r, record s { ledger = d })

-- ===== src/Cod/Settle.antt =====
-- Settlement: the webhook by which the gateway says that a rider has paid.
use omnigo_app.Common.{
  ℕ, Bool, true, false, not, ◌&&◌, ◌||◌, ◌++◌, List, [], ◌∷◌, Option, none, some, if◌then◌else◌,
}
use omnigo_app.Common.Int.{ℤ, pos, ltb_ℤ}
use omnigo_app.Common.Text.{Text, codes, text_eq}
use omnigo_app.Common.Floats.{Float}
use omnigo_app.Commission.{SplitResult, calculate_cod_split}
use omnigo_app.Ledger.Models.{
  TransferRequest, Db, rider_cod_debt, cash_receivable, admin_revenue, vendor_locked_escrow,
  central_escrow,
}
use omnigo_app.Ledger.Tx.{Result, ok, err, Faults}
use omnigo_app.Ledger.Entries.{Externals}
use omnigo_app.Ledger.Service.{multi_transfer}
use omnigo_app.Escrow.Models.{EscrowHold}
use omnigo_app.Escrow.Repository.{Answers, Holds, new_hold, create_hold_rows}
use omnigo_app.Wallet.Rider.{update_rider, has_less_cash}
use omnigo_app.Payout.Withdraw.{has_text}
use omnigo_app.Cod.Rows.{
  CodDebt, CodOrder, CodBooks, has_event, debt_and_order, settle_debt, has_rider,
}

pub data CodAnswer : Type 0 where
  settled : Text → CodAnswer
  already_processed settlement_failed : CodAnswer
  bad_request not_found forbidden server_error : CodAnswer

-- The vendor's share as the ledger and the hold get it, and the requests of a settlement.
unfoldable pub clear_request : Text → Text → Text → ℤ → TransferRequest
clear_request event rider order amount = record {
  debit_account = rider_cod_debt;
  credit_account = cash_receivable;
  amount = amount;
  currency = [];
  reference_type = codes "cod_settlement";
  reference_id = order;
  description = codes "COD debt cleared for rider " ++ (rider ++ (codes ", order " ++ order));
  idempotency_key = codes "cod:settle:" ++ (event ++ codes ":clear");
}

unfoldable pub admin_request : Text → Text → ℤ → TransferRequest
admin_request event order amount = record {
  debit_account = cash_receivable;
  credit_account = admin_revenue;
  amount = amount;
  currency = [];
  reference_type = codes "cod_commission";
  reference_id = order;
  description = codes "COD admin commission for order " ++ order;
  idempotency_key = codes "cod:settle:" ++ (event ++ codes ":admin");
}

unfoldable pub vendor_request : Text → Text → ℤ → TransferRequest
vendor_request event order amount = record {
  debit_account = cash_receivable;
  credit_account = vendor_locked_escrow;
  amount = amount;
  currency = [];
  reference_type = codes "cod_vendor_escrow";
  reference_id = order;
  description = codes "COD vendor escrow for order " ++ order;
  idempotency_key = codes "cod:settle:" ++ (event ++ codes ":vendor");
}

unfoldable pub delivery_request : Text → Text → ℤ → TransferRequest
delivery_request event order amount = record {
  debit_account = cash_receivable;
  credit_account = central_escrow;
  amount = amount;
  currency = [];
  reference_type = codes "cod_delivery_escrow";
  reference_id = order;
  description = codes "COD delivery fee escrow for order " ++ order;
  idempotency_key = codes "cod:settle:" ++ (event ++ codes ":delivery_escrow");
}

-- The vendor of the order, or else what the store's row says.
unfoldable pub resolve_vendor_id : Option Text → Text → Text → Text
resolve_vendor_id none vendor store = vendor
resolve_vendor_id (some found) vendor store =
    if has_text vendor then vendor else if has_text store then found else []

module _ (float : Float) (getenv : Text → Text) where
  open float use {F, of_int, lt}

  pub record CodSettlementRequest : Type 0 where
    pub cod_debt_id : Text
    pub transaction_id : Text
    pub amount : F
    pub status : Text
    pub webhook_event_id : Text
    pub gateway : Text

  -- What the outside does during one call. The rate, the fee and the vendor of the store are what the
  -- reads of those give, `none` for a read that fails.
  pub record CodCall : Type 0 where
    pub role : Text
    pub caller : Text
    pub exists_fails : Bool
    pub debt_read_fails : Bool
    pub stored_rate : Option F
    pub delivery_fee : Option F
    pub vendor_user_id : Option Text
    pub ext : Externals
    pub ledger_faults : Faults
    pub begin_fails : Bool
    pub debt_write_fails : Bool
    pub rider_write_fails : Bool
    pub commit_fails : Bool
    pub hold_answers : Answers
    pub hold_id : Text
    pub hold_until : ℕ
    pub now : ℕ

  -- The `binding` tags of the request.
  abbrev pub is_bound : CodSettlementRequest → Bool
  is_bound req =
      has_text req.cod_debt_id
      && (has_text req.transaction_id
          && (has_text req.status
              && (has_text req.webhook_event_id
                  && (has_text req.gateway
                      && (lt (of_int (pos 0)) req.amount || lt req.amount (of_int (pos 0)))))))

  abbrev pub may_settle : CodCall → CodDebt → Bool
  may_settle c d =
      text_eq c.role (codes "admin")
      || (text_eq c.role (codes "rider") && text_eq c.caller d.rider_tracking_id)

  abbrev pub split_of : CodCall → CodDebt → CodOrder → SplitResult float
  split_of c d o =
      calculate_cod_split float getenv d.amount_owed c.stored_rate d.order_tracking_id
        c.delivery_fee

  unfoldable pub settlement_requests : Text → CodDebt → SplitResult float → List TransferRequest
  unfolding clear_request admin_request vendor_request delivery_request
  settlement_requests event d split =
      clear_request event d.rider_tracking_id d.order_tracking_id d.amount_owed
      ∷ admin_request event d.order_tracking_id split.admin_revenue
      ∷ vendor_request event d.order_tracking_id split.vendor_escrow
      ∷ (if ltb_ℤ (pos 0) split.delivery_escrow
          then delivery_request event d.order_tracking_id split.delivery_escrow ∷ []
          else [])

  abbrev pub vendor_hold : CodCall → CodDebt → Text → ℤ → EscrowHold
  vendor_hold c d vendor amount =
      new_hold c.hold_id d.order_tracking_id vendor amount c.hold_until c.now

  module _ (c : CodCall) (req : CodSettlementRequest) where
    -- The tables after the statements of the transaction, with the holds that CreateHoldTx gives.
    abbrev pub settled_books : CodDebt → Holds → CodBooks → CodBooks
    settled_books d hs b = record b {
      debts = settle_debt req.gateway req.webhook_event_id req.cod_debt_id b.debts;
      riders = update_rider d.rider_tracking_id (has_less_cash d.amount_owed) b.riders;
      holds = hs;
    }

    abbrev pub commit_settlement : Text → CodDebt → CodBooks → Bool × Holds → CodAnswer × CodBooks
    commit_settlement tx_id d b (false, hs) = (server_error, b)
    commit_settlement tx_id d b (true, hs) =
        if c.commit_fails then (server_error, b) else (settled tx_id, settled_books d hs b)

    -- The transaction that follows the ledger.
    unfoldable pub write_settlement :
        Text → CodDebt → Text → SplitResult float → CodBooks → CodAnswer × CodBooks
    unfolding settle_debt has_rider create_hold_rows
    write_settlement tx_id d vendor split b =
        if c.begin_fails
          || c.debt_write_fails
          || c.rider_write_fails
          || not (has_rider d.rider_tracking_id b.riders)
        then (server_error, b)
        else commit_settlement tx_id d b
            (create_hold_rows c.hold_answers (vendor_hold c d vendor split.vendor_escrow) b.holds)

    abbrev pub after_ledger :
        CodDebt → Text → SplitResult float → CodBooks → Result Text × Db → CodAnswer × CodBooks
    after_ledger d vendor split b (err e, db) = (server_error, record b { ledger = db })
    after_ledger d vendor split b (ok tx_id, db) =
        write_settlement tx_id d vendor split (record b { ledger = db })

    -- From the check of the caller on.
    unfoldable pub settle : CodBooks → Option (CodDebt × CodOrder) → CodAnswer × CodBooks
    unfolding write_settlement settlement_requests
    settle b none = (not_found, b)
    settle b (some (d, o)) =
        let split = split_of c d o in
        let vendor = resolve_vendor_id c.vendor_user_id o.vendor_tracking_id o.store_tracking_id in
        if not (may_settle c d)
        then (forbidden, b)
        else if not (has_text vendor)
        then (server_error, b)
        else after_ledger d vendor split b (
            multi_transfer c.ext c.ledger_faults (settlement_requests req.webhook_event_id d split)
              b.ledger)

    unfoldable pub settlement : CodBooks → CodAnswer × CodBooks
    unfolding settle
    settlement b =
        if not (is_bound req)
        then (bad_request, b)
        else if not c.exists_fails && has_event req.webhook_event_id b.debts
        then (already_processed, b)
        else if not (text_eq req.status (codes "success"))
        then (settlement_failed, b)
        else settle b (if c.debt_read_fails then none else debt_and_order req.cod_debt_id b)

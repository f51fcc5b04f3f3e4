-- ===== src/Cod/Settled.antt =====
-- What a settlement does to the debts, the rider's cash and the vendor's holds.
use omnigo_app.Common.{◌≡◌, true, List, some}
use omnigo_app.Common.Text.{Text}
use omnigo_app.Common.Floats.{Float}
use omnigo_app.Commission.{SplitResult}
use omnigo_app.Ledger.Models.{TransferRequest}
use omnigo_app.Ledger.Tx.{ok}
use omnigo_app.Ledger.Service.{multi_transfer}
use omnigo_app.Escrow.Created.{HasHold, Created}
use omnigo_app.Wallet.Rider.{update_rider, has_less_cash}
use omnigo_app.Cod.Rows.{CodDebt, CodOrder, CodBooks, debt_and_order, settle_debt}
use omnigo_app.Cod.Settle.{
  CodAnswer, settled, bad_request, already_processed, settlement_failed, not_found, forbidden,
  server_error, CodCall, CodSettlementRequest, settlement_requests, split_of, vendor_hold,
  may_settle, resolve_vendor_id,
}

module _ (float : Float) (getenv : Text → Text) (c : CodCall float getenv)
    (req : CodSettlementRequest float getenv) where
  -- A settlement that is done.
  pub record Settled (b b' : CodBooks) (tx_id : Text) : Type 0 where
    pub debt : CodDebt
    pub order : CodOrder
    pub found : debt_and_order req.cod_debt_id b ≡ some (debt, order)
    pub allowed : may_settle float getenv c debt ≡ true
    pub posted :
        multi_transfer c.ext c.ledger_faults
          (settlement_requests float getenv req.webhook_event_id debt
            (split_of float getenv c debt order))
          b.ledger
        ≡ (ok tx_id, b'.ledger)
    pub marked : b'.debts ≡ settle_debt req.gateway req.webhook_event_id req.cod_debt_id b.debts
    pub handed_in :
        b'.riders ≡ update_rider debt.rider_tracking_id (has_less_cash debt.amount_owed) b.riders
    pub held :
        HasHold
          (vendor_hold float getenv c debt
            (resolve_vendor_id c.vendor_user_id order.vendor_tracking_id order.store_tracking_id)
            (split_of float getenv c debt order).vendor_escrow)
          b.holds
          b'.holds

  -- What an answer says of the tables before and after.
  pub data SettlementOutcome (b b' : CodBooks) : CodAnswer → Type 0 where
    done : (tx_id : Text) → Settled b b' tx_id → SettlementOutcome b b' (settled tx_id)
    processed : b' ≡ b → SettlementOutcome b b' already_processed
    unsuccessful : b' ≡ b → SettlementOutcome b b' settlement_failed
    unbound : b' ≡ b → SettlementOutcome b b' bad_request
    unknown : b' ≡ b → SettlementOutcome b b' not_found
    unallowed : b' ≡ b → SettlementOutcome b b' forbidden
    failed : b' ≡ record b { ledger = b'.ledger } → SettlementOutcome b b' server_error

  abbrev After : CodBooks → CodAnswer × CodBooks → Type 0
  After b r = SettlementOutcome b r.1 r.0

  module _ (b : CodBooks) (d : CodDebt) (o : CodOrder)
      (found : debt_and_order req.cod_debt_id b ≡ some (d, o))
      (allowed : may_settle float getenv c d ≡ true) where
    abbrev split : SplitResult float
    split = split_of float getenv c d o

    abbrev vendor : Text
    vendor = resolve_vendor_id c.vendor_user_id o.vendor_tracking_id o.store_tracking_id

    abbrev requests : List TransferRequest
    requests = settlement_requests float getenv req.webhook_event_id d split

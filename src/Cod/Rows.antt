-- ===== src/Cod/Rows.antt =====
-- The tables that cash on delivery reads and writes, with its statements on them. Amounts are in
-- paisa, as the handlers write them.
use omnigo_app.Common.{Bool, false, ◌&&◌, List, [], ◌∷◌, Option, none, some, any, if◌then◌else◌}
use omnigo_app.Common.Int.{ℤ}
use omnigo_app.Common.Text.{Text, codes, text_eq}
use omnigo_app.Ledger.Models.{Db}
use omnigo_app.Escrow.Models.{EscrowHold}
use omnigo_app.Wallet.Rider.{RiderWallet}

-- A row of `cod_debts`.
pub record CodDebt : Type 0 where
  pub id : Text
  pub order_tracking_id : Text
  pub rider_tracking_id : Text
  pub amount_owed : ℤ
  pub status : Text
  pub settled_via : Option Text
  pub webhook_event_id : Option Text

-- The columns of `orders` that are read, with a missing vendor as the empty text.
pub record CodOrder : Type 0 where
  pub order_tracking_id : Text
  pub store_tracking_id : Text
  pub vendor_tracking_id : Text
  pub total_amount_paisa : ℤ

pub record CodBooks : Type 0 where
  pub debts : List CodDebt
  pub orders : List CodOrder
  pub users : List Text
  pub riders : List RiderWallet
  pub holds : List EscrowHold
  pub ledger : Db

-- NULL equals nothing.
abbrev pub is_event : Text → Option Text → Bool
is_event event none = false
is_event event (some e) = text_eq e event

-- `EXISTS(SELECT 1 FROM cod_debts WHERE webhook_event_id = $1)`
unfoldable pub has_event : Text → List CodDebt → Bool
has_event event = any (λ d. is_event event d.webhook_event_id)

unfoldable pub find_debt : Text → List CodDebt → Option CodDebt
find_debt id [] = none
find_debt id (d ∷ ds) = if text_eq d.id id then some d else find_debt id ds

-- `WHERE order_tracking_id = $1 AND rider_tracking_id = $2`
unfoldable pub find_confirmed : Text → Text → List CodDebt → Option CodDebt
find_confirmed order rider [] = none
find_confirmed order rider (d ∷ ds) =
    if text_eq d.order_tracking_id order && text_eq d.rider_tracking_id rider
    then some d
    else find_confirmed order rider ds

unfoldable pub find_cod_order : Text → List CodOrder → Option CodOrder
find_cod_order id [] = none
find_cod_order id (o ∷ os) = if text_eq o.order_tracking_id id then some o else find_cod_order id os

abbrev joined : CodDebt → Option CodOrder → Option (CodDebt × CodOrder)
joined d none = none
joined d (some o) = some (d, o)

abbrev with_order : List CodOrder → Option CodDebt → Option (CodDebt × CodOrder)
with_order os none = none
with_order os (some d) = joined d (find_cod_order d.order_tracking_id os)

-- `FROM cod_debts c JOIN orders o ON … WHERE c.id = $1`
unfoldable pub debt_and_order : Text → CodBooks → Option (CodDebt × CodOrder)
unfolding find_debt find_cod_order
debt_and_order id b = with_order b.orders (find_debt id b.debts)

abbrev pub settled_debt : Text → Text → CodDebt → CodDebt
settled_debt gateway event d = record d {
  status = codes "settled";
  settled_via = some gateway;
  webhook_event_id = some event;
}

-- `SET status = 'settled', … WHERE id = $3`
unfoldable pub settle_debt : Text → Text → Text → List CodDebt → List CodDebt
settle_debt gateway event id [] = []
settle_debt gateway event id (d ∷ ds) =
    (if text_eq d.id id then settled_debt gateway event d else d) ∷ settle_debt gateway event id ds

-- `tag.RowsAffected() > 0` of the UPDATE on `rider_wallet`.
unfoldable pub has_rider : Text → List RiderWallet → Bool
has_rider id = any (λ w. text_eq w.rider_tracking_id id)

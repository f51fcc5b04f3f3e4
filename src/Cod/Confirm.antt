-- ===== src/Cod/Confirm.antt =====
-- Confirm: a rider says that the cash of an order will be collected.
use omnigo_app.Common.{Bool, not, ◌&&◌, ◌||◌, List, ◌∷◌, Option, none, some, any, if◌then◌else◌}
use omnigo_app.Common.Int.{ℤ, pos, leb_ℤ}
use omnigo_app.Common.Text.{Text, codes, text_eq}
use omnigo_app.Common.Floats.{Float}
use omnigo_app.Payout.Withdraw.{has_text}
use omnigo_app.Cod.Rows.{CodDebt, CodOrder, CodBooks, find_confirmed, find_cod_order}

pub data ConfirmAnswer : Type 0 where
  created : Text → ConfirmAnswer
  already_confirmed : Text → ConfirmAnswer
  bad_request no_parent server_error : ConfirmAnswer

-- What fails. A check of a parent that fails is an error of the server.
pub record ConfirmCall : Type 0 where
  pub debt_id : Text
  pub order_check_fails : Bool
  pub user_check_fails : Bool
  pub confirmed_read_fails : Bool
  pub total_read_fails : Bool
  pub insert_fails : Bool

abbrev pub has_order : Text → List CodOrder → Bool
has_order id = any (λ o. text_eq o.order_tracking_id id)

abbrev pub new_debt : Text → Text → Text → ℤ → CodDebt
new_debt id order rider amount = record {
  id = id;
  order_tracking_id = order;
  rider_tracking_id = rider;
  amount_owed = amount;
  status = codes "pending";
  settled_via = none;
  webhook_event_id = none;
}

module _ (float : Float) where
  open float use {F, of_int, lt}

  pub record CodConfirmRequest : Type 0 where
    pub order_tracking_id : Text
    pub rider_tracking_id : Text
    pub amount : F
    pub store_tracking_id : Text

  -- The `binding` tags of the request.
  abbrev pub is_confirmable : CodConfirmRequest → Bool
  is_confirmable req =
      has_text req.order_tracking_id
      && (has_text req.rider_tracking_id
          && (has_text req.store_tracking_id
              && (lt (of_int (pos 0)) req.amount || lt req.amount (of_int (pos 0)))))

  module _ (c : ConfirmCall) (req : CodConfirmRequest) where
    -- The amount is the order's, whatever the request says.
    unfoldable pub insert_debt : CodBooks → Option CodOrder → ConfirmAnswer × CodBooks
    insert_debt b none = (server_error, b)
    insert_debt b (some o) =
        if leb_ℤ o.total_amount_paisa (pos 0)
        then (bad_request, b)
        else if c.insert_fails
        then (server_error, b)
        else (
          created c.debt_id,
          record b {
            debts =
                new_debt c.debt_id req.order_tracking_id req.rider_tracking_id o.total_amount_paisa
                ∷ b.debts;
          },
        )

    -- By the debt that is there already.
    unfoldable pub confirm_by : CodBooks → Option CodDebt → ConfirmAnswer × CodBooks
    unfolding insert_debt find_cod_order
    confirm_by b (some d) = (already_confirmed d.id, b)
    confirm_by b none =
        insert_debt b
          (if c.total_read_fails then none else find_cod_order req.order_tracking_id b.orders)

    unfoldable pub confirm : CodBooks → ConfirmAnswer × CodBooks
    unfolding confirm_by find_confirmed
    confirm b =
        if not (is_confirmable req)
        then (bad_request, b)
        else if c.order_check_fails
        then (server_error, b)
        else if not (has_order req.order_tracking_id b.orders)
        then (no_parent, b)
        else if c.user_check_fails
        then (server_error, b)
        else if not (any (λ u. text_eq u req.rider_tracking_id) b.users)
        then (no_parent, b)
        else confirm_by b (
            if c.confirmed_read_fails
            then none
            else find_confirmed req.order_tracking_id req.rider_tracking_id b.debts)

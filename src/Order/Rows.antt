-- ===== src/Order/Rows.antt =====
-- The tables that a change of an order's status reads and writes: order/repository, and the methods
-- of the escrow service that it calls.
use omnigo_app.Common.{
  ℕ, Bool, true, false, not, ◌&&◌, ◌||◌, ◌+◌, ◌*◌, ◌^◌, List, [], ◌∷◌, Option, none, some, any,
  if◌then◌else◌,
}
use omnigo_app.Common.Text.{Text, codes, text_eq}
use omnigo_app.Common.Floats.{Float}
use omnigo_app.Escrow.Models.{EscrowStatus, cancelled, released, refunded, disputed}
use omnigo_app.Escrow.Process.{remove_id}
use omnigo_app.Escrow.Repository.{Holds, of_order}
use omnigo_app.Cod.Rows.{CodDebt}

-- `status IN ('cancelled', 'failed', 'refunded', 'returned')`
abbrev pub is_final : Text → Bool
is_final s =
    text_eq s (codes "cancelled")
    || (text_eq s (codes "failed")
        || (text_eq s (codes "refunded") || text_eq s (codes "returned")))

-- `SET status = 'cancelled' WHERE order_tracking_id = $1 AND status = 'pending'`
unfoldable pub cancel_cod_debts : Text → List CodDebt → List CodDebt
cancel_cod_debts order [] = []
cancel_cod_debts order (d ∷ ds) =
    (if text_eq d.order_tracking_id order && text_eq d.status (codes "pending")
      then record d { status = codes "cancelled" }
      else d)
    ∷ cancel_cod_debts order ds

-- `status IN ('cancelled', 'released', 'refunded', 'disputed')`
abbrev pub is_unindexed : EscrowStatus → Bool
is_unindexed cancelled = true
is_unindexed released = true
is_unindexed refunded = true
is_unindexed disputed = true
is_unindexed _ = false

-- removeHoldsFromIndexByOrder.
unfoldable pub remove_holds_from_index : Text → Holds → List Text → List Text
remove_holds_from_index order [] ids = ids
remove_holds_from_index order (h ∷ hs) ids =
    let rest = remove_holds_from_index order hs ids in
    if of_order order h && is_unindexed h.status then remove_id h.id rest else rest

-- 36 hours, in nanoseconds.
abbrev pub return_window : ℕ
return_window = 36 * 3600 * 10 ^ 9

module _ (float : Float) where
  open float use {F}

  -- The columns of `orders`, with the amounts in rupees.
  pub record ShopOrder : Type 0 where
    pub order_tracking_id : Text
    pub customer_tracking_id : Text
    pub vendor_tracking_id : Text
    pub status : Text
    pub total_amount : F
    pub admin_commission : F
    pub vendor_escrow : F
    pub delivery_escrow : F
    pub item_count : ℕ
    pub delivered_at : Option ℕ
    pub return_deadline : Option ℕ

  unfoldable pub find_shop_order : Text → List ShopOrder → Option ShopOrder
  find_shop_order id [] = none
  find_shop_order id (o ∷ os) =
      if text_eq o.order_tracking_id id then some o else find_shop_order id os

  -- The condition of the UPDATE.
  abbrev pub may_become : Text → Text → ShopOrder → Bool
  may_become id status o =
      text_eq o.order_tracking_id id
      && (not (text_eq o.status status)
          && not (is_final o.status && not (text_eq status (codes "refunded"))))

  abbrev pub stamped : Text → Option ℕ → Option ℕ → Option ℕ
  stamped status time old = if text_eq status (codes "delivered") then time else old

  -- The columns that UpdateOrderStatus sets, or UpdateOrderStatusTx, which leaves the deadline alone.
  abbrev pub with_status : Text → ℕ → ShopOrder → ShopOrder
  with_status status now o = record o {
    status = status;
    delivered_at = stamped status (some now) o.delivered_at;
    return_deadline = stamped status (some (now + return_window)) o.return_deadline;
  }

  abbrev pub with_status_tx : Text → ℕ → ShopOrder → ShopOrder
  with_status_tx status now o = record o {
    status = status;
    delivered_at = stamped status (some now) o.delivered_at;
  }

  -- `tag.RowsAffected() > 0`
  unfoldable pub has_changed : Text → Text → List ShopOrder → Bool
  has_changed id status = any (may_become id status)

  unfoldable pub set_status :
      (ShopOrder → ShopOrder) → Text → Text → List ShopOrder → List ShopOrder
  set_status f id status [] = []
  set_status f id status (o ∷ os) =
      (if may_become id status o then f o else o) ∷ set_status f id status os

  -- `UPDATE orders SET return_deadline = $1 WHERE order_tracking_id = $2`
  unfoldable pub set_deadline : Text → ℕ → List ShopOrder → List ShopOrder
  set_deadline id until [] = []
  set_deadline id until (o ∷ os) =
      (if text_eq o.order_tracking_id id then record o { return_deadline = some until } else o)
      ∷ set_deadline id until os

  -- A record on the topic `orders.updated`.
  pub record OrderUpdated : Type 0 where
    pub order_id : Text
    pub status : Text
    pub customer_tracking_id : Text
    pub vendor_tracking_id : Text

  -- `stock` is the orders whose items the product service was asked to release, newest first.
  pub record OrderStore : Type 0 where
    pub orders : List ShopOrder
    pub holds : Holds
    pub index : List Text
    pub debts : List CodDebt
    pub stock : List Text
    pub events : List OrderUpdated

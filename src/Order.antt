-- ===== src/Order.antt =====
-- backend/go-services/internal/order/service/order_service.go: which changes of an order's status are
-- allowed.
pub mod Rows
pub mod Update
pub mod Statuses
pub mod Changed
pub mod History
pub mod Paid
mod Tests
use omnigo_app.Common.{
  Bool, true, false, not, ◌&&◌, List, [], ◌∷◌, Option, none, some, any, if◌then◌else◌,
}
use omnigo_app.Common.Text.{Text, codes, text_eq, lower}

abbrev pub Table : Type 0
Table = List (Text × List Text)

-- The map `validOrderTransitions`.
unfoldable pub valid_order_transitions : Table
valid_order_transitions =
    (codes "pending", codes "paid" ∷ codes "accepted" ∷ codes "cancelled" ∷ codes "failed" ∷ [])
    ∷ (codes "paid", codes "accepted" ∷ codes "cancelled" ∷ codes "refunded" ∷ [])
    ∷ (codes "accepted", codes "shipped" ∷ codes "cancelled" ∷ [])
    ∷ (codes "shipped", codes "in_transit" ∷ codes "delivered" ∷ codes "failed" ∷ [])
    ∷ (codes "in_transit", codes "delivered" ∷ codes "failed" ∷ [])
    ∷ (codes "delivered", codes "completed" ∷ codes "refunded" ∷ codes "returned" ∷ [])
    ∷ (codes "completed", codes "refunded" ∷ codes "returned" ∷ [])
    ∷ (codes "cancelled", [])
    ∷ (codes "failed", [])
    ∷ (codes "refunded", [])
    ∷ (codes "returned", [])
    ∷ []

-- `validOrderTransitions[from]`
unfoldable pub lookup : Text → Table → Option (List Text)
lookup from [] = none
lookup from ((key, allowed) ∷ rows) = if text_eq key from then some allowed else lookup from rows

abbrev pub allows : Text → Option (List Text) → Bool
allows to none = false
allows to (some allowed) = any (λ target. text_eq target to) allowed

unfoldable pub is_valid_order_transition : Text → Text → Bool
unfolding valid_order_transitions lookup
is_valid_order_transition from to =
    if text_eq (lower from) (lower to)
    then false
    else allows (lower to) (lookup (lower from) valid_order_transitions)

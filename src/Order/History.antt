-- ===== src/Order/History.antt =====
-- Final statuses of orders.
use mathlib.Core.Option.{some-injective}
use omnigo_app.Common.{◌≡◌, ap, sym, ◌∙◌, ◌⊎◌, inl, inr, true, Option, some, arith}
use omnigo_app.Common.Text.{Text, codes, lower, text_eq_sound}
use omnigo_app.Common.Floats.{Float}
use omnigo_app.Order.Rows.{ShopOrder, OrderStore, is_final}
use omnigo_app.Order.Update.{UpdateCall, update_order_status}
use omnigo_app.Order.Statuses.{status_of}
use omnigo_app.Order.Changed.{status_at, update_order_status-Changed}

module _ (float : Float) where
  -- An order that is cancelled, failed, refunded or returned stays so, or becomes refunded, whatever
  -- the replica says of it and of others.
  pub update_order_status-final :
      (c : UpdateCall) (id : Text) (read : Option (ShopOrder float)) (status x final : Text)
      (s : OrderStore float)
      → status_at float x s ≡ some final
      → is_final final ≡ true
      → let s' = (update_order_status float c id read status s).1 in
        (status_at float x s' ≡ some final) ⊎ (status_at float x s' ≡ some (codes "refunded"))
  update_order_status-final c id read status x final s at over =
      elim (update_order_status-Changed float c id read status x s) [
        | inl same ↦ inl (same ∙ at)
        | inr rule ↦
            let r = rule.rewritten in
            let was : final ≡ r.row.status =
              some-injective final r.row.status (sym at ∙ ap (status_of float) r.found) in
            let done : is_final r.row.status ≡ true = rw (← was) over in
            let may = r.may in
            let back : lower status ≡ codes "refunded" =
              text_eq_sound (lower status) (codes "refunded") (ground (arith, may, done)) in
            inr (r.after ∙ ap some back)
      ]

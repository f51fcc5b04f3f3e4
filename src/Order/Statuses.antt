-- ===== src/Order/Statuses.antt =====
-- What the statements on `orders` do to the status of an order.
use mathlib.Core.Option
use omnigo_app.Common.{
  ◌≡◌, refl, ap, sym, ◌∙◌, ◌⊎◌, inl, inr, Bool, true, false, ℕ, List, [], ◌∷◌, Option, some, arith,
  Bool-cases, if◌then◌else◌,
}
use omnigo_app.Common.Text.{Text, text_eq}
use omnigo_app.Common.Floats.{Float}
use omnigo_app.Order.Rows.{ShopOrder, find_shop_order, may_become, set_status, set_deadline}

module _ (float : Float) where
  abbrev pub status_of : Option (ShopOrder float) → Option Text
  status_of = Option.map (λ o. o.status)

  pub found-is :
      (x : Text) (os : List (ShopOrder float)) (o : ShopOrder float)
      → find_shop_order float x os ≡ some o
      → text_eq o.order_tracking_id x ≡ true
  unfolding find_shop_order
  found-is x [] o found = absurd (ground (arith, found))
  found-is x (p ∷ ps) o found = elim (Bool-cases (text_eq p.order_tracking_id x)) [
    | inl own ↦ let same : p ≡ o = ground (arith, found, own) in rw (← same) own
    | inr other ↦ found-is x ps o (ground (arith, found, other))
  ]

  pub set_deadline-status :
      (id x : Text) (until : ℕ) (os : List (ShopOrder float))
      → status_of (find_shop_order float x (set_deadline float id until os))
        ≡ status_of (find_shop_order float x os)
  unfolding find_shop_order set_deadline
  set_deadline-status id x until [] = refl
  set_deadline-status id x until (o ∷ os) = ground (arith, set_deadline-status id x until os)

  -- The row of `x` whose status the UPDATE has changed.
  pub record Rewritten (id x status : Text) (os os' : List (ShopOrder float)) : Type 0 where
    pub row : ShopOrder float
    pub found : find_shop_order float x os ≡ some row
    pub may : may_become float id status row ≡ true
    pub after : status_of (find_shop_order float x os') ≡ some status

  skipped :
      (x : Text) (o : ShopOrder float) (os : List (ShopOrder float))
      → text_eq o.order_tracking_id x ≡ false
      → find_shop_order float x (o ∷ os) ≡ find_shop_order float x os
  unfolding find_shop_order
  skipped x o os other = rw other refl

  head-other :
      (f : ShopOrder float → ShopOrder float) (x : Text) (b : Bool) (o : ShopOrder float)
      → (f o).order_tracking_id ≡ o.order_tracking_id
      → text_eq o.order_tracking_id x ≡ false
      → text_eq (if b then f o else o).order_tracking_id x ≡ false
  head-other f x true o keeps other = rw keeps other
  head-other f x false o keeps other = other

  pub set_status-Rewritten :
      (f : ShopOrder float → ShopOrder float)
      → ((o : ShopOrder float) → (f o).order_tracking_id ≡ o.order_tracking_id)
      → (id x status : Text) → ((o : ShopOrder float) → (f o).status ≡ status)
      → (os : List (ShopOrder float))
      → (status_of (find_shop_order float x (set_status float f id status os))
          ≡ status_of (find_shop_order float x os))
        ⊎ Rewritten id x status os (set_status float f id status os)
  unfolding find_shop_order set_status
  set_status-Rewritten f keeps id x status sets [] = inl refl
  set_status-Rewritten f keeps id x status sets (o ∷ os) =
      elim (Bool-cases (text_eq o.order_tracking_id x)) [
        | inl own ↦ elim (Bool-cases (may_become float id status o)) [
          | inl may ↦ inr (record {
            row = o;
            found = rw own refl;
            may = may;
            after = rw may (rw (keeps o) (rw own (rw (sets o) refl)));
          })
          | inr stays ↦ inl (rw (stays, own) refl)
        ]
        | inr other ↦
            let skip = ap status_of (
              skipped x (if may_become float id status o then f o else o)
                (set_status float f id status os)
                (head-other f x (may_become float id status o) o (keeps o) other)) in
            elim (set_status-Rewritten f keeps id x status sets os) [
              | inl same ↦ inl (skip ∙ same ∙ sym (ap status_of (skipped x o os other)))
              | inr r ↦ inr (record {
                row = r.row;
                found = skipped x o os other ∙ r.found;
                may = r.may;
                after = skip ∙ r.after;
              })
            ]
      ]

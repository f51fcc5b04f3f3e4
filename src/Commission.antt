-- ===== src/Commission.antt =====
-- backend/go-services/internal/payment_orchestrator/commission.go: the split of an order's total
-- between the platform, the rider's delivery fee and the vendor. What the database and the
-- environment answer is an argument; `none` is a failed read.
pub mod Laws
mod Tests
use mathlib.Core.Option
use omnigo_app.Common.{Bool, true, false, Option, none, some, if◌then◌else◌, not, List, []}
use omnigo_app.Common.Int.{ℤ, pos, ◌+ℤ◌, ◌-ℤ◌, ltb_ℤ, leb_ℤ, int64}
use omnigo_app.Common.Text.{Text, codes, text_eq}
use omnigo_app.Common.Floats.{Float}

module _ (float : Float) where
  open float use {F, of_int, add, mul, div, round_to_int, parse_float}

  pub record SplitResult : Type 0 where
    pub order_total : ℤ
    pub delivery_fee : ℤ
    pub admin_revenue : ℤ
    pub vendor_escrow : ℤ
    pub delivery_escrow : ℤ
    pub commission_rate : F

  -- `getenv` is `os.Getenv`; a value that does not parse counts as unset.
  unfoldable pub env_float : (Text → Text) → Text → F → F
  env_float getenv key fallback =
      let val_str = getenv key in
      if not (text_eq val_str []) then Option.get_or (parse_float val_str) fallback else fallback

  -- The rate of a store, or the default where the store is not found.
  unfoldable pub store_rate : (Text → Text) → Option F → F
  store_rate getenv none = env_float getenv (codes "DEFAULT_COMMISSION_RATE") (of_int (pos 2))
  store_rate getenv (some commission_rate) = commission_rate

  -- The fee of a delivery in paisa; no delivery, or a failed read, counts as no fee.
  unfoldable pub fee_paisa : Text → Option F → ℤ
  fee_paisa tracking_id none = pos 0
  fee_paisa tracking_id (some delivery_fee_rupees) =
      if not (text_eq tracking_id [])
      then round_to_int (mul delivery_fee_rupees (of_int (pos 100)))
      else pos 0

  -- `int64(math.Round(float64(orderTotalPaisa) * rate / 100.0))`
  unfoldable pub share : ℤ → F → ℤ
  share order_total_paisa rate =
      round_to_int (div (mul (of_int order_total_paisa) rate) (of_int (pos 100)))

  -- The cap that both splits end with; both sums are in `int64`.
  unfoldable pub cap_split : ℤ → ℤ → ℤ → F → SplitResult
  cap_split order_total_paisa admin_revenue delivery_escrow commission_rate =
      if ltb_ℤ order_total_paisa (int64 (admin_revenue +ℤ delivery_escrow))
      then if leb_ℤ order_total_paisa delivery_escrow
        then split (pos 0) (pos 0) order_total_paisa
        else split (int64 (order_total_paisa -ℤ delivery_escrow)) (pos 0) delivery_escrow
      else split admin_revenue
          (int64 (int64 (order_total_paisa -ℤ admin_revenue) -ℤ delivery_escrow)) delivery_escrow
    where
      split : ℤ → ℤ → ℤ → SplitResult
      split admin vendor delivery = record {
        order_total = order_total_paisa;
        delivery_fee = delivery;
        admin_revenue = admin;
        vendor_escrow = vendor;
        delivery_escrow = delivery;
        commission_rate = commission_rate;
      }

  unfoldable pub calculate_split : (Text → Text) → ℤ → Option F → Text → Option F → SplitResult
  calculate_split getenv order_total_paisa stored_rate delivery_tracking_id delivery_fee =
      let commission_rate = store_rate getenv stored_rate in
      cap_split order_total_paisa (share order_total_paisa commission_rate)
        (fee_paisa delivery_tracking_id delivery_fee) commission_rate

  -- The literal 0.5 is a half, exactly.
  unfoldable pub cod_rate : (Text → Text) → Option F → F
  cod_rate getenv stored_rate =
      add (store_rate getenv stored_rate)
        (env_float getenv (codes "COD_SURCHARGE_RATE") (div (of_int (pos 1)) (of_int (pos 2))))

  unfoldable pub calculate_cod_split : (Text → Text) → ℤ → Option F → Text → Option F → SplitResult
  calculate_cod_split getenv order_total_paisa stored_rate order_tracking_id delivery_fee =
      cap_split order_total_paisa (share order_total_paisa (cod_rate getenv stored_rate))
        (fee_paisa order_tracking_id delivery_fee) (store_rate getenv stored_rate)

-- The row read is (rider_earning_paisa, admin_commission_paisa).
unfoldable pub calculate_rider_delivery_credit : Option (ℤ × ℤ) → Option (ℤ × ℤ)
calculate_rider_delivery_credit none = none
calculate_rider_delivery_credit (some (rider_earning, admin_commission)) =
    some (if ltb_ℤ rider_earning (pos 0) then pos 0 else rider_earning, admin_commission)

-- The argument is what the database answers for the order's delivery.
unfoldable pub resolve_delivery_tracking_id : Text → Option Text → Text
resolve_delivery_tracking_id order_tracking_id row =
    if text_eq order_tracking_id [] then [] else Option.get_or row []

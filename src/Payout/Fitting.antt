-- ===== src/Payout/Fitting.antt =====
-- Which released holds a sweep pays: the arithmetic of processPayouts.
use mathlib.Core.Option
use omnigo_app.Common.{List, [], ◌∷◌, Option, if◌then◌else◌}
use omnigo_app.Common.Int.{ℤ, pos, ◌+ℤ◌, ◌-ℤ◌, ltb_ℤ, leb_ℤ, int64}
use omnigo_app.Escrow.Models.{EscrowHold}
use omnigo_app.Payout.Rows.{VendorWallet}

abbrev pub at_least_zero : ℤ → ℤ
at_least_zero a = if ltb_ℤ a (pos 0) then pos 0 else a

-- A wallet that is missing has nothing to withdraw.
unfoldable pub available_balance : Option VendorWallet → ℤ
available_balance w = at_least_zero (
    int64 (
      Option.get_or (Option.map (λ v. v.balance_paisa) w) (pos 0)
      -ℤ Option.get_or (Option.map (λ v. v.vendor_clawback_paisa) w) (pos 0)))

unfoldable pub sweep_amount : ℤ → ℤ → ℤ
sweep_amount total available = if ltb_ℤ available total then at_least_zero available else total

-- The loop over the released holds, which stops at the first that does not fit: the holds it takes
-- and their sum.
unfoldable pub take_fitting : ℤ → ℤ → List EscrowHold → List EscrowHold × ℤ
take_fitting sweep total [] = ([], total)
take_fitting sweep total (h ∷ hs) =
    let next = int64 (total +ℤ h.amount) in
    let (swept, t) = take_fitting sweep next hs in
    if leb_ℤ next sweep then (h ∷ swept, t) else ([], total)

abbrev pub fitting : ℤ → List EscrowHold → List EscrowHold × ℤ
fitting sweep hs = if ltb_ℤ (pos 0) sweep then take_fitting sweep (pos 0) hs else ([], pos 0)

abbrev pub final_amount : ℤ → ℤ → ℤ
final_amount sweep total = if ltb_ℤ sweep total then sweep else total

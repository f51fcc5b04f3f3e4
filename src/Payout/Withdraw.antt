-- ===== src/Payout/Withdraw.antt =====
-- payment_orchestrator/handlers/vendor_handler.go: RequestWithdraw, with the answers as HTTP statuses.
use omnigo_app.Common.{
  Bool, false, not, ◌&&◌, ◌||◌, List, [], ◌∷◌, Option, none, some, any, if◌then◌else◌,
}
use omnigo_app.Common.Int.{ℤ, pos, ◌-ℤ◌, ltb_ℤ, leb_ℤ, int64}
use omnigo_app.Common.Text.{Text, text_eq}
use omnigo_app.Common.Floats.{Float}
use omnigo_app.Money.{rupees_to_paisa}
use omnigo_app.Payout.Rows.{VendorWallet, find_wallet, pay_wallet}
use omnigo_app.Payout.Fitting.{at_least_zero}

pub data WithdrawStatus : Type 0 where
  accepted bad_request unauthorized conflict server_error : WithdrawStatus

-- What goes wrong. A clawback that cannot be read counts as 0; `update_fails` is also a sum that does
-- not fit into BIGINT.
pub record WithdrawFaults : Type 0 where
  pub begin_fails : Bool
  pub read_fails : Bool
  pub clawback_fails : Bool
  pub update_fails : Bool
  pub insert_fails : Bool
  pub commit_fails : Bool

-- The clawback that the handler sees.
abbrev pub clawback_seen : WithdrawFaults → VendorWallet → ℤ
clawback_seen f v = if f.clawback_fails then pos 0 else v.vendor_clawback_paisa

abbrev pub withdrawable : WithdrawFaults → VendorWallet → ℤ
withdrawable f v = at_least_zero (int64 (v.balance_paisa -ℤ clawback_seen f v))

-- `tag.RowsAffected() > 0`
unfoldable pub has_paid : Text → ℤ → List VendorWallet → Bool
has_paid vendor amount vs =
    any (λ v. text_eq v.vendor_tracking_id vendor && leb_ℤ amount v.balance_paisa) vs

abbrev pub has_text : Text → Bool
has_text [] = false
has_text (c ∷ s) = not false

module _ (float : Float) where
  open float use {F, of_int, lt}

  pub record WithdrawRequest : Type 0 where
    pub vendor_tracking_id : Text
    pub amount : F
    pub method : Text

  -- A row of `vendor_payouts` with status `pending`; its amount is in rupees.
  pub record PendingPayout : Type 0 where
    pub vendor_tracking_id : Text
    pub amount : F
    pub method : Text

  pub record VendorDesk : Type 0 where
    pub wallets : List VendorWallet
    pub pending : List PendingPayout

  -- The `binding` tags of the request.
  abbrev pub is_bound : WithdrawRequest → Bool
  is_bound req = lt (of_int (pos 0)) req.amount && has_text req.method

  abbrev pub caller_or_body : Text → WithdrawRequest → Text
  caller_or_body caller req = if has_text caller then caller else req.vendor_tracking_id

  abbrev pub pending_payout : Text → WithdrawRequest → PendingPayout
  pending_payout vendor req = record {
    vendor_tracking_id = vendor;
    amount = req.amount;
    method = req.method;
  }

  module _ (f : WithdrawFaults) (vendor : Text) (req : WithdrawRequest) where
    -- From the UPDATE to the commit.
    unfoldable pub pay_out : ℤ → VendorDesk → WithdrawStatus × VendorDesk
    pay_out amount s =
        if f.update_fails
        then (server_error, s)
        else if not (has_paid vendor amount s.wallets)
        then (conflict, s)
        else if f.insert_fails || f.commit_fails
        then (server_error, s)
        else (
          accepted,
          record {
            wallets = pay_wallet vendor amount s.wallets;
            pending = pending_payout vendor req ∷ s.pending;
          },
        )

    -- What follows the read of the row, which is locked from here on.
    unfoldable pub check_balance : Option VendorWallet → VendorDesk → WithdrawStatus × VendorDesk
    unfolding pay_out
    check_balance none s = (bad_request, s)
    check_balance (some v) s =
        let amount = rupees_to_paisa float req.amount in
        if ltb_ℤ (withdrawable f v) amount then (bad_request, s) else pay_out amount s

    -- The transaction of a caller that is known.
    unfoldable pub withdraw_for : VendorDesk → WithdrawStatus × VendorDesk
    unfolding check_balance
    withdraw_for s =
        if f.begin_fails
        then (server_error, s)
        else if f.read_fails
        then (bad_request, s)
        else check_balance (find_wallet vendor s.wallets) s

  unfoldable pub request_withdraw :
      WithdrawFaults → Text → WithdrawRequest → VendorDesk → WithdrawStatus × VendorDesk
  unfolding withdraw_for
  request_withdraw f caller req s =
      let vendor = caller_or_body caller req in
      if not (is_bound req)
      then (bad_request, s)
      else if not (has_text vendor)
      then (unauthorized, s)
      else withdraw_for f vendor req s

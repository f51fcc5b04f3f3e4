-- ===== src/Wallet/Withdrawal.antt =====
-- RequestWithdrawal of the rider wallet.
use omnigo_app.Common.{◌&&◌, ◌||◌, Option, none, some, if◌then◌else◌, ◌∷◌}
use omnigo_app.Common.Int.{ℤ, pos, ◌-ℤ◌, ltb_ℤ, leb_ℤ}
use omnigo_app.Common.Text.{Text, codes}
use omnigo_app.Common.Floats.{Float}
use omnigo_app.Money.{rupees_to_paisa}
use omnigo_app.Commission.{env_float}
use omnigo_app.Ledger.Service.{transfer}
use omnigo_app.Wallet.Customer.{Reply, done, refused}
use omnigo_app.Wallet.Rider.{
  RiderWallet, RiderPayout, RiderStore, RiderCall, find_rider, update_rider, withdrawal_request,
}

abbrev pub pays_out : ℤ → RiderWallet → RiderWallet
pays_out amount w = record w { balance_paisa = w.balance_paisa -ℤ amount }

module _ (float : Float) (getenv : Text → Text) where
  open float use {F, of_int, mul, lt, round_to_int}

  pub record RiderWithdrawalRequest : Type 0 where
    pub rider_tracking_id : Text
    pub amount : F
    pub amount_paisa : ℤ
    pub method : Text
    pub account_number : Text
    pub account_title : Text

  abbrev pub env_paisa : Text → ℤ → ℤ
  env_paisa key fallback =
      round_to_int (mul (env_float float getenv key (of_int fallback)) (of_int (pos 100)))

  abbrev pub min_withdrawal_paisa : ℤ
  min_withdrawal_paisa = env_paisa (codes "RIDER_MIN_WITHDRAWAL_PKR") (pos 500)

  abbrev pub cash_threshold_paisa : ℤ
  cash_threshold_paisa = env_paisa (codes "RIDER_CASH_BLOCK_THRESHOLD") (pos 5000)

  -- The amount in paisa, taken from the rupees where it is not given.
  abbrev pub amount_requested : RiderWithdrawalRequest → ℤ
  amount_requested req =
      if leb_ℤ req.amount_paisa (pos 0) && lt (of_int (pos 0)) req.amount
      then rupees_to_paisa float req.amount
      else req.amount_paisa

  module _ (c : RiderCall) (req : RiderWithdrawalRequest) where
    abbrev pub new_rider_payout : ℤ → RiderPayout
    new_rider_payout amount = record {
      id = c.payout_id;
      rider_tracking_id = req.rider_tracking_id;
      amount_paisa = amount;
      method = req.method;
      account_number = req.account_number;
      account_title = req.account_title;
    }

    -- From the UPDATE to the ledger, whose error is only logged.
    unfoldable pub withdraw : ℤ → RiderStore → Reply × RiderStore
    withdraw amount s =
        let d =
          (transfer c.ext c.ledger_faults
            (withdrawal_request c.payout_id amount req.method req.account_number) s.ledger).1 in
        if c.update_fails || (c.insert_fails || c.commit_fails) then (refused, s) else (
          done,
          record {
            riders = update_rider req.rider_tracking_id (pays_out amount) s.riders;
            payouts = new_rider_payout amount ∷ s.payouts;
            ledger = if c.has_ledger then d else s.ledger;
          },
        )

    -- The checks of the row, which is locked from here on.
    unfoldable pub check_rider : ℤ → Option RiderWallet → RiderStore → Reply × RiderStore
    unfolding withdraw
    check_rider amount none s = (refused, s)
    check_rider amount (some w) s =
        if w.is_cash_blocked
          || (leb_ℤ cash_threshold_paisa w.cash_in_hand_paisa || ltb_ℤ w.balance_paisa amount)
        then (refused, s)
        else withdraw amount s

    unfoldable pub request_withdrawal : RiderStore → Reply × RiderStore
    unfolding check_rider
    request_withdrawal s =
        let amount = amount_requested req in
        if leb_ℤ amount (pos 0)
          || (ltb_ℤ amount min_withdrawal_paisa || (c.begin_fails || c.read_fails))
        then (refused, s)
        else check_rider amount (find_rider req.rider_tracking_id s.riders) s

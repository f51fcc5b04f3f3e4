-- ===== src/Wallet/Withdrawn.antt =====
-- What a withdrawal does.
use mathlib.Core.Option
use omnigo_app.Common.{
  ◌≡◌, refl, ap, ◌∙◌, false, ◌||◌, List, [], ◌∷◌, Option, none, some, arith, Bool-cases, inl, inr,
}
use omnigo_app.Common.Int.{pos, ◌≤ℤ◌, ◌<ℤ◌, ltb_ℤ, leb_ℤ}
use omnigo_app.Common.Text.{Text, text_eq, text_eq_sound}
use omnigo_app.Common.Floats.{Float}
use omnigo_app.Wallet.Customer.{Reply, done, refused}
use omnigo_app.Wallet.Rider.{RiderWallet, RiderStore, RiderCall, find_rider, update_rider}
use omnigo_app.Wallet.Withdrawal.{
  pays_out, RiderWithdrawalRequest, min_withdrawal_paisa, cash_threshold_paisa, amount_requested,
  new_rider_payout, withdraw, check_rider, request_withdrawal,
}

module _ (f : RiderWallet → RiderWallet)
    (keeps : (v : RiderWallet) → (f v).rider_tracking_id ≡ v.rider_tracking_id) where
  find_rider-update :
      (id : Text) (ws : List RiderWallet)
      → find_rider id (update_rider id f ws) ≡ Option.map f (find_rider id ws)
  unfolding find_rider update_rider
  find_rider-update id [] = refl
  find_rider-update id (v ∷ vs) = elim (Bool-cases (text_eq v.rider_tracking_id id)) [
    | inl mine ↦ rw mine (rw (keeps v) (rw mine refl))
    | inr other ↦ rw other (rw other (find_rider-update id vs))
  ]

  find_rider-others :
      (id x : Text) (ws : List RiderWallet)
      → text_eq id x ≡ false
      → find_rider x (update_rider id f ws) ≡ find_rider x ws
  unfolding find_rider update_rider
  find_rider-others id x [] apart = refl
  find_rider-others id x (v ∷ vs) apart = elim (Bool-cases (text_eq v.rider_tracking_id id)) [
    | inl mine ↦
        let not_x : text_eq v.rider_tracking_id x ≡ false =
          rw (text_eq_sound v.rider_tracking_id id mine) apart in
        rw mine (rw (keeps v) (rw not_x (find_rider-others id x vs apart)))
    | inr other ↦ rw other (rw (find_rider-others id x vs apart) refl)
  ]

module _ (float : Float) (getenv : Text → Text) (c : RiderCall)
    (req : RiderWithdrawalRequest float getenv) where
  -- A withdrawal that is done, from a wallet that the checks let through.
  pub record Withdrawn (s t : RiderStore) : Type 0 where
    pub wallet : RiderWallet
    pub found : find_rider req.rider_tracking_id s.riders ≡ some wallet
    pub unblocked : wallet.is_cash_blocked ≡ false
    pub cash_below : wallet.cash_in_hand_paisa <ℤ cash_threshold_paisa float getenv
    pub least : min_withdrawal_paisa float getenv ≤ℤ amount_requested float getenv req
    pub positive : pos 1 ≤ℤ amount_requested float getenv req
    pub enough : amount_requested float getenv req ≤ℤ wallet.balance_paisa
    pub left :
        find_rider req.rider_tracking_id t.riders
        ≡ some (pays_out (amount_requested float getenv req) wallet)
    pub others :
        (x : Text)
        → text_eq req.rider_tracking_id x ≡ false
        → find_rider x t.riders ≡ find_rider x s.riders
    pub recorded :
        t.payouts
        ≡ new_rider_payout float getenv c req (amount_requested float getenv req) ∷ s.payouts

  -- What a reply says of the store before and after.
  pub data WithdrawalOutcome (s t : RiderStore) : Reply → Type 0 where
    withdrawn : Withdrawn s t → WithdrawalOutcome s t done
    not_withdrawn : t ≡ s → WithdrawalOutcome s t refused

  abbrev After : RiderStore → Reply × RiderStore → Type 0
  After s r = WithdrawalOutcome s r.1 r.0

  withdraw-After :
      (s : RiderStore) (w : RiderWallet)
      → find_rider req.rider_tracking_id s.riders ≡ some w
      → w.is_cash_blocked ≡ false
      → w.cash_in_hand_paisa <ℤ cash_threshold_paisa float getenv
      → min_withdrawal_paisa float getenv ≤ℤ amount_requested float getenv req
      → pos 1 ≤ℤ amount_requested float getenv req
      → amount_requested float getenv req ≤ℤ w.balance_paisa
      → After s (withdraw float getenv c req (amount_requested float getenv req) s)
  unfolding withdraw
  withdraw-After s w found unblocked below least positive enough =
      elim (Bool-cases (c.update_fails || (c.insert_fails || c.commit_fails))) [
        | inl fails ↦ rw fails (not_withdrawn refl)
        | inr works ↦ rw works (
            withdrawn (record {
              wallet = w;
              found = found;
              unblocked = unblocked;
              cash_below = below;
              least = least;
              positive = positive;
              enough = enough;
              left =
                  find_rider-update (pays_out (amount_requested float getenv req)) (λ v. refl)
                    req.rider_tracking_id s.riders
                  ∙ ap (Option.map (pays_out (amount_requested float getenv req))) found;
              others = λ x apart.
                  find_rider-others (pays_out (amount_requested float getenv req)) (λ v. refl)
                    req.rider_tracking_id x s.riders apart;
              recorded = refl;
            }))
      ]

  check_rider-After :
      (s : RiderStore) (o : Option RiderWallet)
      → find_rider req.rider_tracking_id s.riders ≡ o
      → min_withdrawal_paisa float getenv ≤ℤ amount_requested float getenv req
      → pos 1 ≤ℤ amount_requested float getenv req
      → After s (check_rider float getenv c req (amount_requested float getenv req) o s)
  unfolding check_rider
  check_rider-After s none found least positive = not_withdrawn refl
  check_rider-After s (some w) found least positive =
      elim (Bool-cases (
        w.is_cash_blocked
        || (leb_ℤ (cash_threshold_paisa float getenv) w.cash_in_hand_paisa
            || ltb_ℤ w.balance_paisa (amount_requested float getenv req)))) [
              | inl stop ↦ rw stop (not_withdrawn refl)
              | inr go ↦ rw go (
                  withdraw-After s w found (ground (arith, go)) (ground (arith, go)) least positive
                    (ground (arith, go)))
            ]

  -- A withdrawal that is refused changes nothing; one that is done takes exactly the amount, at least
  -- the minimum, from a wallet that is not blocked, holds less cash than the threshold and covers it,
  -- leaves the other wallets alone and records the payout.
  pub request_withdrawal-Outcome :
      (s : RiderStore)
      → let (r, t) = request_withdrawal float getenv c req s in WithdrawalOutcome s t r
  unfolding request_withdrawal
  request_withdrawal-Outcome s =
      elim (Bool-cases (
        leb_ℤ (amount_requested float getenv req) (pos 0)
        || (ltb_ℤ (amount_requested float getenv req) (min_withdrawal_paisa float getenv)
            || (c.begin_fails || c.read_fails)))) [
              | inl stop ↦ rw stop (not_withdrawn refl)
              | inr go ↦
                  rw go (check_rider-After s _ refl (ground (arith, go)) (ground (arith, go)))
            ]

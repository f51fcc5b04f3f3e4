-- ===== src/Payout/Withdrew.antt =====
-- What a vendor's withdrawal does.
use omnigo_app.Common.{
  ◌≡◌, refl, ap, ◌⊎◌, inl, inr, ◌^◌, Bool, true, false, not, ◌&&◌, ◌||◌, List, [], ◌∷◌, Option,
  none, some, arith, Bool-cases, if◌then◌else◌,
}
use omnigo_app.Common.Int.{ℤ, pos, ◌+ℤ◌, ◌≤ℤ◌, ◌<ℤ◌, ltb_ℤ, leb_ℤ, int_laws}
use omnigo_app.Common.Text.{Text, text_eq, text_eq_sound}
use omnigo_app.Common.Floats.{Float}
use omnigo_app.Money.{rupees_to_paisa}
use omnigo_app.Payout.Rows.{VendorWallet, find_wallet, pay_wallet, paid_from}
use omnigo_app.Payout.Wallets.{at_least_zero-difference}
use omnigo_app.Payout.Withdraw.{
  WithdrawStatus, accepted, bad_request, unauthorized, server_error, WithdrawFaults, clawback_seen,
  withdrawable, has_paid, has_text, WithdrawRequest, VendorDesk, is_bound, caller_or_body,
  pending_payout, pay_out, check_balance, withdraw_for, request_withdraw,
}

pay_wallet-paid :
    (vendor : Text) (amount : ℤ) (v : VendorWallet) (vs : List VendorWallet)
    → find_wallet vendor vs ≡ some v
    → amount ≤ℤ v.balance_paisa
    → (has_paid vendor amount vs ≡ true)
      × (find_wallet vendor (pay_wallet vendor amount vs) ≡ some (paid_from v amount))
unfolding find_wallet pay_wallet has_paid
pay_wallet-paid vendor amount v [] found enough = absurd (ground (arith, found))
pay_wallet-paid vendor amount v (w ∷ ws) found enough =
    elim (Bool-cases (text_eq w.vendor_tracking_id vendor)) [
      | inl own ↦
          let same : w ≡ v = ground (arith, found, own) in
          let enough' : leb_ℤ amount w.balance_paisa ≡ true = rw same (ground (arith, enough)) in
          rw (own, enough') (rw own (refl, ap (λ u. some (paid_from u amount)) same))
      | inr other ↦
          rw other
            (rw other (pay_wallet-paid vendor amount v ws (ground (arith, found, other)) enough))
    ]

pay_wallet-others :
    (vendor x : Text) (amount : ℤ) (vs : List VendorWallet)
    → text_eq vendor x ≡ false
    → find_wallet x (pay_wallet vendor amount vs) ≡ find_wallet x vs
unfolding find_wallet pay_wallet
pay_wallet-others vendor x amount [] apart = refl
pay_wallet-others vendor x amount (w ∷ ws) apart =
    elim (Bool-cases (text_eq w.vendor_tracking_id vendor && leb_ℤ amount w.balance_paisa)) [
      | inl own ↦
          let same : text_eq w.vendor_tracking_id vendor ≡ true = ground (arith, own) in
          let not_x : text_eq w.vendor_tracking_id x ≡ false =
            rw (text_eq_sound w.vendor_tracking_id vendor same) apart in
          rw own (rw (not_x, pay_wallet-others vendor x amount ws apart) refl)
      | inr other ↦ rw (other, pay_wallet-others vendor x amount ws apart) refl
    ]

-- Amounts are not negative, and BIGINT holds what a wallet says.
pub record IsKept (v : VendorWallet) : Type 0 where
  pub balance_low : pos 0 ≤ℤ v.balance_paisa
  pub balance_high : v.balance_paisa <ℤ pos (2 ^ 63)
  pub clawback_low : pos 0 ≤ℤ v.vendor_clawback_paisa
  pub clawback_high : v.vendor_clawback_paisa <ℤ pos (2 ^ 63)

withdrawable-covers :
    (f : WithdrawFaults) (v : VendorWallet)
    → IsKept v
    → (amount : ℤ) → pos 0 ≤ℤ amount
    → ltb_ℤ (withdrawable f v) amount ≡ false
    → (amount ≡ pos 0) ⊎ (amount +ℤ clawback_seen f v ≤ℤ v.balance_paisa)
withdrawable-covers f v k amount sign enough = elim (Bool-cases f.clawback_fails) [
  | inl fails ↦
      at_least_zero-difference v.balance_paisa (clawback_seen f v) k.balance_low k.balance_high
        (rw fails (omega arith)) (rw fails (omega arith)) amount sign (ground (arith, enough))
  | inr works ↦
      at_least_zero-difference v.balance_paisa (clawback_seen f v) k.balance_low k.balance_high
        (rw works k.clawback_low) (rw works k.clawback_high) amount sign (ground (arith, enough))
]

covered-enough :
    (amount clawback balance : ℤ)
    → pos 0 ≤ℤ balance
    → pos 0 ≤ℤ clawback
    → (amount ≡ pos 0) ⊎ (amount +ℤ clawback ≤ℤ balance)
    → amount ≤ℤ balance
covered-enough amount clawback balance low clow covered = elim covered [
  | inl nothing ↦ rw nothing low
  | inr enough ↦ omega int_laws
]

module _ (float : Float) (f : WithdrawFaults) (caller : Text) (req : WithdrawRequest float) where
  abbrev amount_asked : ℤ
  amount_asked = rupees_to_paisa float req.amount

  -- A withdrawal that is accepted, of a vendor with the wallet `v`.
  pub record Withdrew (s t : VendorDesk float) : Type 0 where
    pub wallet : VendorWallet
    pub found : find_wallet (caller_or_body float caller req) s.wallets ≡ some wallet
    pub covered :
        (amount_asked ≡ pos 0) ⊎ (amount_asked +ℤ clawback_seen f wallet ≤ℤ wallet.balance_paisa)
    pub left :
        find_wallet (caller_or_body float caller req) t.wallets
        ≡ some (paid_from wallet amount_asked)
    pub others :
        (x : Text)
        → text_eq (caller_or_body float caller req) x ≡ false
        → find_wallet x t.wallets ≡ find_wallet x s.wallets
    pub recorded :
        t.pending ≡ pending_payout float (caller_or_body float caller req) req ∷ s.pending

  -- What an answer says of the tables before and after: none is `conflict`.
  pub data WithdrawOutcome (s t : VendorDesk float) : WithdrawStatus → Type 0 where
    withdrew : Withdrew s t → WithdrawOutcome s t accepted
    not_asked : t ≡ s → WithdrawOutcome s t bad_request
    not_known : t ≡ s → WithdrawOutcome s t unauthorized
    not_stored : t ≡ s → WithdrawOutcome s t server_error

  abbrev After : VendorDesk float → WithdrawStatus × VendorDesk float → Type 0
  After s r = WithdrawOutcome s r.1 r.0

  either-After :
      (s : VendorDesk float) (b : Bool) (r r' : WithdrawStatus × VendorDesk float)
      → After s r
      → After s r'
      → After s (if b then r else r')
  either-After s true r r' a a' = a
  either-After s false r r' a a' = a'

  pay_out-After :
      (s : VendorDesk float) (v : VendorWallet)
      → find_wallet (caller_or_body float caller req) s.wallets ≡ some v
      → (amount_asked ≡ pos 0) ⊎ (amount_asked +ℤ clawback_seen f v ≤ℤ v.balance_paisa)
      → amount_asked ≤ℤ v.balance_paisa
      → After s (pay_out float f (caller_or_body float caller req) req amount_asked s)
  unfolding pay_out
  pay_out-After s v found covered enough =
      let vendor = caller_or_body float caller req in
      let (paid, left) = pay_wallet-paid vendor amount_asked v s.wallets found enough in
      elim (Bool-cases f.update_fails) [
        | inl fails ↦ rw fails (not_stored refl)
        | inr updates ↦
            rw (updates, paid)
              (elim (Bool-cases (f.insert_fails || f.commit_fails)) [
                | inl fails ↦ rw fails (not_stored refl)
                | inr works ↦ rw works (
                    withdrew (record {
                      wallet = v;
                      found = found;
                      covered = covered;
                      left = left;
                      others = λ x. pay_wallet-others vendor x amount_asked s.wallets;
                      recorded = refl;
                    }))
              ])
      ]

  clawback_seen-nonneg : (v : VendorWallet) → IsKept v → pos 0 ≤ℤ clawback_seen f v
  clawback_seen-nonneg v k = elim (Bool-cases f.clawback_fails) [
    | inl fails ↦ rw fails (omega arith)
    | inr works ↦ rw works k.clawback_low
  ]

  module _ (sign : pos 0 ≤ℤ amount_asked) where
    check_balance-After :
        (s : VendorDesk float) (o : Option VendorWallet)
        → find_wallet (caller_or_body float caller req) s.wallets ≡ o
        → ((v : VendorWallet) → o ≡ some v → IsKept v)
        → After s (check_balance float f (caller_or_body float caller req) req o s)
    unfolding check_balance
    check_balance-After s none found kept = not_asked refl
    check_balance-After s (some v) found kept =
        elim (Bool-cases (ltb_ℤ (withdrawable f v) amount_asked)) [
          | inl short ↦ rw short (not_asked refl)
          | inr long ↦
              let k = kept v refl in
              let covered = withdrawable-covers f v k amount_asked sign long in
              rw long (
                pay_out-After s v found covered (
                  covered-enough amount_asked (clawback_seen f v) v.balance_paisa k.balance_low
                    (clawback_seen-nonneg v k) covered))
        ]

    withdraw_for-After :
        (s : VendorDesk float)
        → ((v : VendorWallet)
            → find_wallet (caller_or_body float caller req) s.wallets ≡ some v
            → IsKept v)
        → After s (withdraw_for float f (caller_or_body float caller req) req s)
    unfolding withdraw_for
    withdraw_for-After s kept =
        either-After s f.begin_fails _ _ (not_stored refl)
          (either-After s f.read_fails _ _ (not_asked refl) (check_balance-After s _ refl kept))

    -- A vendor whose wallet is within bounds and who asks for an amount that is not negative is
    -- refused with nothing changed, never for a conflict, or gets exactly the amount: the wallet
    -- keeps the clawback that was read unless the amount is zero, the other wallets stay as they
    -- were, and a payout is recorded.
    pub request_withdraw-Outcome :
        (s : VendorDesk float)
        → ((v : VendorWallet)
            → find_wallet (caller_or_body float caller req) s.wallets ≡ some v
            → IsKept v)
        → let (r, t) = request_withdraw float f caller req s in WithdrawOutcome s t r
    unfolding request_withdraw
    request_withdraw-Outcome s kept =
        either-After s (not (is_bound float req)) _ _ (not_asked refl) (
          either-After s (not (has_text (caller_or_body float caller req))) _ _ (not_known refl)
            (withdraw_for-After s kept))

  -- What a withdrawal needs from its caller, its wallet and the database.
  pub record IsWithdrawable (s : VendorDesk float) : Type 0 where
    pub bound : is_bound float req ≡ true
    pub known : has_text (caller_or_body float caller req) ≡ true
    pub begins : f.begin_fails ≡ false
    pub reads : f.read_fails ≡ false
    pub updates : f.update_fails ≡ false
    pub inserts : f.insert_fails ≡ false
    pub commits : f.commit_fails ≡ false
    pub wallet : VendorWallet
    pub found : find_wallet (caller_or_body float caller req) s.wallets ≡ some wallet
    pub enough : ltb_ℤ (withdrawable f wallet) amount_asked ≡ false
    pub covered : amount_asked ≤ℤ wallet.balance_paisa

  -- A known vendor who asks for an amount within the balance, less the clawback, is paid when nothing
  -- fails.
  pub request_withdraw-accepted :
      (s : VendorDesk float)
      → IsWithdrawable s
      → (request_withdraw float f caller req s).0 ≡ accepted
  unfolding request_withdraw withdraw_for check_balance pay_out
  request_withdraw-accepted s w =
      let paid =
        (pay_wallet-paid (caller_or_body float caller req) amount_asked w.wallet s.wallets w.found
          w.covered).0 in
      rw
        (
          w.bound, w.known, w.begins, w.reads, w.found, w.enough, w.updates, paid, w.inserts,
          w.commits,
        )
        refl

-- ===== src/Payout/Wallets.antt =====
-- The total of the payouts, and the lemma on what a wallet has less the clawback.
use mathlib.Core.Path.{subst}
use omnigo_app.Common.{◌≡◌, refl, ◌⊎◌, inl, inr, ◌^◌, List, [], ◌∷◌, arith, Bool-cases}
use omnigo_app.Common.Int.{ℤ, pos, ◌+ℤ◌, ◌-ℤ◌, ◌≤ℤ◌, ◌<ℤ◌, int64, int64_id, int_laws}
use omnigo_app.Common.Text.{Text, text_eq}
use omnigo_app.Payout.Rows.{VendorPayout, PayoutStatus, set_payout}
use omnigo_app.Payout.Fitting.{at_least_zero}
use omnigo_app.Payout.Fits.{is_int64}

abbrev pub payouts_total : List VendorPayout → ℤ
payouts_total [] = pos 0
payouts_total (p ∷ ps) = p.amount_paisa +ℤ payouts_total ps

pub set_payout-total :
    (s : PayoutStatus) (id : Text) (ps : List VendorPayout)
    → payouts_total (set_payout s id ps) ≡ payouts_total ps
unfolding set_payout
set_payout-total s id [] = refl
set_payout-total s id (p ∷ ps) = elim (Bool-cases (text_eq p.id id)) [
  | inl same ↦ rw (same, set_payout-total s id ps) refl
  | inr other ↦ rw (other, set_payout-total s id ps) refl
]

at_least_zero-cases : (a : ℤ) → (at_least_zero a ≡ pos 0) ⊎ (at_least_zero a ≡ a)
at_least_zero-cases a = ground arith

pub at_least_zero-difference :
    (a b : ℤ)
    → pos 0 ≤ℤ a
    → a <ℤ pos (2 ^ 63)
    → pos 0 ≤ℤ b
    → b <ℤ pos (2 ^ 63)
    → (s : ℤ) → pos 0 ≤ℤ s
    → s ≤ℤ at_least_zero (int64 (a -ℤ b))
    → (s ≡ pos 0) ⊎ (s +ℤ b ≤ℤ a)
at_least_zero-difference a b la ha lb hb s ls small =
    let same : int64 (a -ℤ b) ≡ a -ℤ b =
      int64_id (a -ℤ b) (is_int64 (a -ℤ b) (omega int_laws) (omega int_laws)) in
    let small' : s ≤ℤ at_least_zero (a -ℤ b) = subst (λ d. s ≤ℤ at_least_zero d) same small in
    elim (at_least_zero-cases (a -ℤ b)) [
      | inl none_left ↦
          let least : s ≤ℤ pos 0 = subst (λ d. s ≤ℤ d) none_left small' in inl (omega int_laws)
      | inr all_left ↦
          let least : s ≤ℤ a -ℤ b = subst (λ d. s ≤ℤ d) all_left small' in inr (omega int_laws)
    ]

-- ===== src/Wallet/Spec.antt =====
-- What the service promises: a balance for every customer, and moves of it. The rows of the table,
-- their order and what else they hold are forgotten.
use mathlib.Core.Option
use omnigo_app.Common.{
  ◌≡◌, refl, Bool, true, false, [], ◌∷◌, Option, none, some, inl, inr, arith, ◌⊎◌, Bool-cases,
  if◌then◌else◌,
}
use omnigo_app.Common.Int.{ℤ, pos, ◌+ℤ◌, ◌-ℤ◌, ◌≤ℤ◌, leb_ℤ, int_laws}
use omnigo_app.Common.Text.{Text, text_eq, text_eq_sound, text_eq_refl}
use omnigo_app.Wallet.Rows.{
  CustomerWallet, Wallets, bigint, with_balance, add_balance, upsert_balance, deduct_balance,
  balance_of,
}

abbrev pub Balances : Type 0
Balances = Text → ℤ

abbrev pub with_more : Text → ℤ → Balances → Balances
with_more id amount w x = if text_eq id x then w x +ℤ amount else w x

abbrev pub with_less : Text → ℤ → Balances → Balances
with_less id amount w x = if text_eq id x then w x -ℤ amount else w x

zero_plus : (a : ℤ) → pos 0 +ℤ a ≡ a
zero_plus a = omega int_laws

-- A statement that goes through changes the balances by `f`, if it says that it found a row.
abbrev pub Gives : (Balances → Balances) → Wallets → Option (Bool × Wallets) → Type 0
Gives f ws none = Unit {0}
Gives f ws (some (false, ws')) = (x : Text) → balance_of ws' x ≡ balance_of ws x
Gives f ws (some (true, ws')) = (x : Text) → balance_of ws' x ≡ f (balance_of ws) x

pub bigint-cases : (a : ℤ) → (bigint a ≡ none) ⊎ (bigint a ≡ some a)
bigint-cases a = ground arith

module _ (id : Text) (amount : ℤ) (w : CustomerWallet) (ws : Wallets) where
  -- What the rest of the table gives, under a row of another customer.
  other-Gives :
      (f : ℤ → ℤ) (o : Option (Bool × Wallets))
      → text_eq w.customer_tracking_id id ≡ false
      → Gives (λ b x. if text_eq id x then f (b x) else b x) ws o
      → Gives
          (λ b x. if text_eq id x then f (b x) else b x)
          (w ∷ ws)
          (Option.map (λ r. (r.0, w ∷ r.1)) o)
  unfolding balance_of
  other-Gives f none other g = tt
  other-Gives f (some (false, ws')) other g = λ x. rw (g x) refl
  other-Gives f (some (true, ws')) other g = λ x. rw (g x) (
      ground
        (arith, other, text_eq_sound w.customer_tracking_id x, text_eq_sound id x, text_eq_refl id))

  -- The row of the customer, with another balance.
  own-Gives :
      (f : ℤ → ℤ) (w' : CustomerWallet)
      → text_eq w.customer_tracking_id id ≡ true
      → w'.customer_tracking_id ≡ w.customer_tracking_id
      → w'.balance_paisa ≡ f w.balance_paisa
      → Gives (λ b x. if text_eq id x then f (b x) else b x) (w ∷ ws) (some (true, w' ∷ ws))
  unfolding balance_of
  own-Gives f w' same kept new x =
      rw (kept, new) (rw (text_eq_sound w.customer_tracking_id id same) (ground arith))

module _ (id : Text) (amount : ℤ) where
  abbrev add_row : CustomerWallet → Wallets → Option ℤ → Option (Bool × Wallets)
  add_row w ws o = Option.map (λ b. (true, with_balance w b ∷ ws)) o

  pub add_balance-Gives : (ws : Wallets) → Gives (with_more id amount) ws (add_balance id amount ws)
  unfolding add_balance
  add_balance-Gives [] = λ x. refl
  add_balance-Gives (w ∷ ws) = elim (Bool-cases (text_eq w.customer_tracking_id id)) [
    | inl same ↦ rw same (elim (bigint-cases (w.balance_paisa +ℤ amount)) [
      | inl out ↦ rw out tt
      | inr fits ↦ rw fits (
          own-Gives id amount w ws (λ b. b +ℤ amount) (with_balance w (w.balance_paisa +ℤ amount))
            same refl refl)
    ])
    | inr other ↦ rw other (
        other-Gives id amount w ws (λ b. b +ℤ amount) (add_balance id amount ws) other
          (add_balance-Gives ws))
  ]

  -- The same of the upsert, which always finds or makes a row.
  abbrev pub found_row : Option Wallets → Option (Bool × Wallets)
  found_row o = Option.map (λ ws. (true, ws)) o

  found_row-cons :
      (w : CustomerWallet) (o : Option Wallets)
      → found_row (Option.map (λ ws. w ∷ ws) o) ≡ Option.map (λ r. (r.0, w ∷ r.1)) (found_row o)
  found_row-cons w none = refl
  found_row-cons w (some ws) = refl

  pub upsert_balance-Gives :
      (ws : Wallets) → Gives (with_more id amount) ws (found_row (upsert_balance id amount ws))
  unfolding upsert_balance
  upsert_balance-Gives [] = λ x. unfold balance_of in ground (arith, zero_plus amount)
  upsert_balance-Gives (w ∷ ws) = elim (Bool-cases (text_eq w.customer_tracking_id id)) [
    | inl same ↦ rw same (elim (bigint-cases (w.balance_paisa +ℤ amount)) [
      | inl out ↦ rw out tt
      | inr fits ↦ rw fits (
          own-Gives id amount w ws (λ b. b +ℤ amount) (with_balance w (w.balance_paisa +ℤ amount))
            same refl refl)
    ])
    | inr other ↦
        rw (other, found_row-cons w (upsert_balance id amount ws))
          (other-Gives id amount w ws (λ b. b +ℤ amount) (found_row (upsert_balance id amount ws))
            other (upsert_balance-Gives ws))
  ]

  pub deduct_balance-Gives :
      (ws : Wallets) → Gives (with_less id amount) ws (deduct_balance id amount ws)
  unfolding deduct_balance
  deduct_balance-Gives [] = λ x. refl
  deduct_balance-Gives (w ∷ ws) = elim (Bool-cases (text_eq w.customer_tracking_id id)) [
    | inl same ↦ rw same (elim (Bool-cases (leb_ℤ amount w.balance_paisa)) [
      | inl enough ↦ rw enough (elim (bigint-cases (w.lifetime_spent_paisa +ℤ amount)) [
        | inl out ↦ rw out tt
        | inr fits ↦ rw fits (own-Gives id amount w ws (λ b. b -ℤ amount) _ same refl refl)
      ])
      | inr short ↦ rw short (λ x. refl)
    ])
    | inr other ↦ rw other (
        other-Gives id amount w ws (λ b. b -ℤ amount) (deduct_balance id amount ws) other
          (deduct_balance-Gives ws))
  ]

  abbrev pub IsCovered : Wallets → Option (Bool × Wallets) → Type 0
  IsCovered ws none = Unit {0}
  IsCovered ws (some (false, ws')) = Unit {0}
  IsCovered ws (some (true, ws')) = amount ≤ℤ balance_of ws id

  other-IsCovered :
      (w : CustomerWallet) (ws : Wallets) (o : Option (Bool × Wallets))
      → text_eq w.customer_tracking_id id ≡ false
      → IsCovered ws o
      → IsCovered (w ∷ ws) (Option.map (λ r. (r.0, w ∷ r.1)) o)
  unfolding balance_of
  other-IsCovered w ws none other c = tt
  other-IsCovered w ws (some (false, ws')) other c = tt
  other-IsCovered w ws (some (true, ws')) other c = rw other c

  -- Money is only taken from a balance that covers it.
  pub deduct_balance-IsCovered : (ws : Wallets) → IsCovered ws (deduct_balance id amount ws)
  unfolding deduct_balance
  deduct_balance-IsCovered [] = tt
  deduct_balance-IsCovered (w ∷ ws) = elim (Bool-cases (text_eq w.customer_tracking_id id)) [
    | inl same ↦ rw same (elim (Bool-cases (leb_ℤ amount w.balance_paisa)) [
      | inl enough ↦ rw enough (elim (bigint-cases (w.lifetime_spent_paisa +ℤ amount)) [
        | inl out ↦ rw out tt
        | inr fits ↦ rw fits (unfold balance_of in rw same (ground (arith, enough)))
      ])
      | inr short ↦ rw short tt
    ])
    | inr other ↦
        rw other
          (other-IsCovered w ws (deduct_balance id amount ws) other (deduct_balance-IsCovered ws))
  ]

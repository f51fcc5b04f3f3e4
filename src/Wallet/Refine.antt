-- ===== src/Wallet/Refine.antt =====
-- The methods of the service as moves of the balances, whatever fails and wherever it stops.
use omnigo_app.Common.{
  ◌≡◌, refl, ap, inl, inr, ◌∙◌, Bool, true, false, ◌||◌, Option, none, some, arith, Bool-cases,
  if◌then◌else◌,
}
use omnigo_app.Common.Int.{ℤ, pos, ◌+ℤ◌, ◌≤ℤ◌, leb_ℤ, int_laws}
use omnigo_app.Common.Text.{Text, text_eq}
use omnigo_app.Ledger.Models.{TransferRequest}
use omnigo_app.Wallet.Rows.{Wallets, add_balance, upsert_balance, balance_of}
use omnigo_app.Wallet.Customer.{
  Store, Call, Reply, done, refused, succeeded, credit_request, refund_request, purchase_request,
  posted, finish_credit, only_found, credit_funds, refund_for_failed_payment, refunded,
  credit_wallet, charge, charge_deducted, deduct_for_purchase,
}
use omnigo_app.Wallet.Spec.{
  Balances, with_more, with_less, Gives, found_row, add_balance-Gives, upsert_balance-Gives,
  deduct_balance-Gives, IsCovered, deduct_balance-IsCovered,
}

-- A call of the service, with its arguments.
pub data Request : Type 0 where
  crediting refunding purchasing : (customer reference : Text) (amount : ℤ) → Request

unfoldable pub serve : Call → Request → Store → Reply × Store
serve c (crediting customer reference amount) s = credit_funds c customer reference amount s
serve c (refunding customer order amount) s = refund_for_failed_payment c customer order amount s
serve c (purchasing customer order amount) s = deduct_for_purchase c customer order amount s

-- What a reply to a credit says of the balances before and after.
pub data Credited (id : Text) (n : ℤ) (w w' : Balances) : Reply → Type 0 where
  credited : pos 1 ≤ℤ n → ((x : Text) → w' x ≡ with_more id n w x) → Credited id n w w' done
  not_credited : ((x : Text) → w' x ≡ w x) → Credited id n w w' refused

-- The same of a purchase; `lost` is one that is refused after the money was taken.
pub data Charged (id : Text) (n : ℤ) (w w' : Balances) : Reply → Type 0 where
  charged :
      pos 1 ≤ℤ n → n ≤ℤ w id → ((x : Text) → w' x ≡ with_less id n w x) → Charged id n w w' done
  not_charged : ((x : Text) → w' x ≡ w x) → Charged id n w w' refused
  lost :
      pos 1 ≤ℤ n → n ≤ℤ w id → ((x : Text) → w' x ≡ with_less id n w x) → Charged id n w w' refused

-- The specification of the service, on the balances alone.
abbrev pub Step : Request → Reply → Balances → Balances → Type 0
Step (crediting id reference n) r w w' = Credited id n w w' r
Step (refunding id order n) r w w' = Credited id n w w' r
Step (purchasing id order n) r w w' = Charged id n w w' r

module _ (c : Call) (id : Text) (n : ℤ) (positive : pos 1 ≤ℤ n) where
  finish_credit-Credited :
      (req : TransferRequest) (s : Store) (o : Option Wallets)
      → Gives (with_more id n) s.wallets (found_row id n o)
      → Credited id n
          (balance_of s.wallets)
          (balance_of (finish_credit c req s o).1.wallets)
          (finish_credit c req s o).0
  finish_credit-Credited req s none g = not_credited λ x. refl
  finish_credit-Credited req s (some ws) g = elim (Bool-cases c.commit_fails) [
    | inl fails ↦ rw fails (not_credited λ x. refl)
    | inr commits ↦ rw commits (credited positive g)
  ]

  only_found-Gives :
      (ws : Wallets) (o : Option (Bool × Wallets))
      → Gives (with_more id n) ws o
      → Gives (with_more id n) ws (found_row id n (only_found c o))
  only_found-Gives ws none g = tt
  only_found-Gives ws (some (false, ws')) g = tt
  only_found-Gives ws (some (true, ws')) g = g

module _ (c : Call) (id reference : Text) (n : ℤ) (s : Store) where
  credit_funds-Credited :
      Credited id n
        (balance_of s.wallets)
        (balance_of (credit_funds c id reference n s).1.wallets)
        (credit_funds c id reference n s).0
  unfolding credit_funds
  credit_funds-Credited = elim (Bool-cases (leb_ℤ n (pos 0) || (c.begin_fails || c.update_fails))) [
    | inl stop ↦ rw stop (not_credited λ x. refl)
    | inr go ↦ rw go (
        finish_credit-Credited c id n (ground (arith, go)) (credit_request id reference n) s
          (upsert_balance id n s.wallets) (upsert_balance-Gives id n s.wallets))
  ]

  refund_for_failed_payment-Credited :
      Credited id n
        (balance_of s.wallets)
        (balance_of (refund_for_failed_payment c id reference n s).1.wallets)
        (refund_for_failed_payment c id reference n s).0
  unfolding refund_for_failed_payment
  refund_for_failed_payment-Credited =
      elim (Bool-cases (leb_ℤ n (pos 0) || (c.begin_fails || c.update_fails))) [
        | inl stop ↦ rw stop (not_credited λ x. refl)
        | inr go ↦ rw go (
            let positive : pos 1 ≤ℤ n = ground (arith, go) in
            finish_credit-Credited c id n positive (refund_request id reference n) s
              (only_found c (add_balance id n s.wallets))
              (only_found-Gives c id n positive s.wallets _ (add_balance-Gives id n s.wallets)))
      ]

module _ (c : Call) (id order : Text) (n : ℤ) (positive : pos 1 ≤ℤ n) (w : Balances)
    (covered : n ≤ℤ w id) where
  back : (x : Text) → with_more id n (with_less id n w) x ≡ w x
  back x = elim (Bool-cases (text_eq id x)) [
    | inl same ↦ rw same (omega int_laws)
    | inr other ↦ rw other refl
  ]

  refunded-Charged :
      (s : Store) (o : Option (Bool × Wallets))
      → ((x : Text) → balance_of s.wallets x ≡ with_less id n w x)
      → Gives (with_more id n) s.wallets o
      → Charged id n w (balance_of (refunded c s o).wallets) refused
  refunded-Charged s none less g = lost positive covered less
  refunded-Charged s (some (false, ws')) less g = lost positive covered λ x. g x ∙ less x
  refunded-Charged s (some (true, ws')) less g =
      not_charged λ x. g x ∙ (ap (λ b. if text_eq id x then b +ℤ n else b) (less x) ∙ back x)

  credit_wallet-Charged :
      (s : Store)
      → ((x : Text) → balance_of s.wallets x ≡ with_less id n w x)
      → Charged id n w (balance_of (credit_wallet c id n s).wallets) refused
  unfolding credit_wallet
  credit_wallet-Charged s less =
      elim (Bool-cases (
        leb_ℤ n (pos 0)
        || (c.refund_begin_fails || (c.refund_update_fails || c.refund_commit_fails)))) [
          | inl stop ↦ rw stop (lost positive covered less)
          | inr go ↦ rw go (refunded-Charged s _ less (add_balance-Gives id n s.wallets))
        ]

  charge-Charged :
      (s : Store)
      → ((x : Text) → balance_of s.wallets x ≡ with_less id n w x)
      → Charged id n w (balance_of (charge c id order n s).1.wallets) (charge c id order n s).0
  unfolding charge
  charge-Charged s less = elim (Bool-cases c.commit_fails) [
    | inl fails ↦ rw fails (lost positive covered less)
    | inr commits ↦
        rw commits
          (elim (Bool-cases
            (succeeded (posted c c.ledger_faults (purchase_request id order n) s.ledger).0)) [
              | inl good ↦ rw good (charged positive covered less)
              | inr bad ↦ rw bad (credit_wallet-Charged _ less)
            ])
  ]

module _ (c : Call) (id order : Text) (n : ℤ) where
  charge_deducted-Charged :
      (positive : pos 1 ≤ℤ n) (s : Store) (o : Option (Bool × Wallets))
      → Gives (with_less id n) s.wallets o
      → IsCovered id n s.wallets o
      → Charged id n
          (balance_of s.wallets)
          (balance_of (charge_deducted c id order n s o).1.wallets)
          (charge_deducted c id order n s o).0
  charge_deducted-Charged positive s none g k = not_charged λ x. refl
  charge_deducted-Charged positive s (some (false, ws')) g k = not_charged λ x. refl
  charge_deducted-Charged positive s (some (true, ws')) g k =
      charge-Charged c id order n positive (balance_of s.wallets) k (record s { wallets = ws' }) g

  deduct_for_purchase-Charged :
      (s : Store)
      → Charged id n
          (balance_of s.wallets)
          (balance_of (deduct_for_purchase c id order n s).1.wallets)
          (deduct_for_purchase c id order n s).0
  unfolding deduct_for_purchase
  deduct_for_purchase-Charged s = elim (Bool-cases (leb_ℤ n (pos 0))) [
    | inl stop ↦ rw stop (not_charged λ x. refl)
    | inr some_amount ↦ rw some_amount (elim (Bool-cases (c.begin_fails || c.update_fails)) [
      | inl stop ↦ rw stop (not_charged λ x. refl)
      | inr go ↦ rw go (
          charge_deducted-Charged (ground (arith, some_amount)) _ _
            (deduct_balance-Gives id n s.wallets) (deduct_balance-IsCovered id n s.wallets))
    ])
  ]

-- Every call of the service is a step of the specification, whatever fails: a credit that is done
-- adds its positive amount to the customer's balance and a purchase that is done takes it from a
-- balance that covers it; a refused one leaves all balances alone, but for a purchase that fails
-- after the deduction and is not made good, which takes the amount.
pub serve-Step :
    (c : Call) (req : Request) (s : Store)
    → let (r, t) = serve c req s in Step req r (balance_of s.wallets) (balance_of t.wallets)
unfolding serve
serve-Step c (crediting id reference n) s = credit_funds-Credited c id reference n s
serve-Step c (refunding id order n) s = refund_for_failed_payment-Credited c id order n s
serve-Step c (purchasing id order n) s = deduct_for_purchase-Charged c id order n s

-- ===== src/Wallet/Again.antt =====
-- Calls under a key that the ledger has seen.
use omnigo_app.Common.{
  ◌≡◌, refl, inl, inr, ◌∙◌, Bool, true, false, ◌||◌, [], any, Option, none, some, Bool-cases,
}
use omnigo_app.Common.Int.{ℤ, pos, leb_ℤ}
use omnigo_app.Common.Text.{Text, text_eq}
use omnigo_app.Ledger.Models.{TransferRequest, Db}
use omnigo_app.Ledger.Tx.{Faults}
use omnigo_app.Ledger.Replay.{transfer_reserved}
use omnigo_app.Wallet.Rows.{Wallets, balance_of}
use omnigo_app.Wallet.Customer.{
  Store, Call, Reply, done, refused, succeeded, credit_request, refund_request, purchase_request,
  check_request, posted, finish_credit, credit_funds, refund_for_failed_payment, refunded,
  credit_wallet, wallet_credit_key, purchase_key, charge, charge_deducted, deduct_for_purchase,
}
use omnigo_app.Wallet.Spec.{Balances, with_more, with_less}
use omnigo_app.Wallet.Refine.{
  Request, crediting, refunding, purchasing, serve, Credited, credited, not_credited, Charged,
  charged, not_charged, lost, serve-Step,
}

-- The request that a call sends to the ledger.
abbrev pub ledger_request : Request → TransferRequest
ledger_request (crediting id reference n) = credit_request id reference n
ledger_request (refunding id order n) = refund_request id order n
ledger_request (purchasing id order n) = purchase_request id order n

-- The balances after a call that is done.
abbrev pub moved : Request → Balances → Balances
moved (crediting id reference n) = with_more id n
moved (refunding id order n) = with_more id n
moved (purchasing id order n) = with_less id n

ledger_request-keyed : (req : Request) → text_eq (ledger_request req).idempotency_key [] ≡ false
unfolding credit_request wallet_credit_key refund_request purchase_request purchase_key text_eq
ledger_request-keyed (crediting id reference n) = refl
ledger_request-keyed (refunding id order n) = refl
ledger_request-keyed (purchasing id order n) = refl

module _ (c : Call) where
  posted-same :
      (faults : Faults) (req : TransferRequest) (db : Db)
      → text_eq req.idempotency_key [] ≡ false
      → any (text_eq req.idempotency_key) db.idempotency ≡ true
      → (posted c faults req db).1 ≡ db
  posted-same faults req db keyed taken = elim (Bool-cases c.has_ledger) [
    | inl on ↦ rw on (transfer_reserved c.ext faults req db keyed taken)
    | inr off ↦ rw off refl
  ]

  finish_credit-same :
      (req : TransferRequest) (s : Store) (o : Option Wallets)
      → (posted c c.ledger_faults req s.ledger).1 ≡ s.ledger
      → (finish_credit c req s o).1.ledger ≡ s.ledger
  finish_credit-same req s none same = refl
  finish_credit-same req s (some ws) same = elim (Bool-cases c.commit_fails) [
    | inl fails ↦ rw fails same
    | inr commits ↦ rw commits same
  ]

  refunded-ledger : (s : Store) (o : Option (Bool × Wallets)) → (refunded c s o).ledger ≡ s.ledger
  refunded-ledger s none = refl
  refunded-ledger s (some r) = refl

  credit_wallet-ledger :
      (id : Text) (n : ℤ) (s : Store) → (credit_wallet c id n s).ledger ≡ s.ledger
  unfolding credit_wallet
  credit_wallet-ledger id n s =
      elim (Bool-cases (
        leb_ℤ n (pos 0)
        || (c.refund_begin_fails || (c.refund_update_fails || c.refund_commit_fails)))) [
          | inl stop ↦ rw stop refl
          | inr go ↦ rw go (refunded-ledger s _)
        ]

module _ (c : Call) (id order : Text) (n : ℤ) where
  charge-same :
      (s : Store)
      → (posted c c.ledger_faults (purchase_request id order n) s.ledger).1 ≡ s.ledger
      → (charge c id order n s).1.ledger ≡ s.ledger
  unfolding charge
  charge-same s same = elim (Bool-cases c.commit_fails) [
    | inl fails ↦ rw fails refl
    | inr commits ↦
        rw commits
          (elim (Bool-cases
            (succeeded (posted c c.ledger_faults (purchase_request id order n) s.ledger).0)) [
              | inl good ↦ rw good same
              | inr bad ↦ rw bad (credit_wallet-ledger c id n _ ∙ same)
            ])
  ]

  charge_deducted-same :
      (s : Store) (o : Option (Bool × Wallets))
      → (posted c c.ledger_faults (purchase_request id order n) s.ledger).1 ≡ s.ledger
      → (charge_deducted c id order n s o).1.ledger ≡ s.ledger
  charge_deducted-same s none same = refl
  charge_deducted-same s (some (false, ws)) same = refl
  charge_deducted-same s (some (true, ws)) same = charge-same (record s { wallets = ws }) same

  checked-same :
      (s : Store)
      → any (text_eq (purchase_request id order n).idempotency_key) s.ledger.idempotency ≡ true
      → (posted c c.check_faults (check_request id order) s.ledger).1 ≡ s.ledger
  unfolding check_request purchase_request
  checked-same s taken =
      posted-same c c.check_faults (check_request id order) s.ledger
        (ledger_request-keyed (purchasing id order n)) taken

  deduct_for_purchase-same :
      (s : Store)
      → any (text_eq (purchase_request id order n).idempotency_key) s.ledger.idempotency ≡ true
      → (deduct_for_purchase c id order n s).1.ledger ≡ s.ledger
  unfolding deduct_for_purchase
  deduct_for_purchase-same s taken =
      let d_same = checked-same s taken in
      elim (Bool-cases (leb_ℤ n (pos 0))) [
        | inl stop ↦ rw stop refl
        | inr some_amount ↦ rw some_amount (elim (Bool-cases (c.begin_fails || c.update_fails)) [
          | inl stop ↦ rw stop d_same
          | inr go ↦ rw go (
              charge_deducted-same _ _ (
                posted-same c c.ledger_faults (purchase_request id order n) _
                  (ledger_request-keyed (purchasing id order n)) (rw d_same taken))
              ∙ d_same)
        ])
      ]

  credit_funds-same :
      (s : Store)
      → any (text_eq (credit_request id order n).idempotency_key) s.ledger.idempotency ≡ true
      → (credit_funds c id order n s).1.ledger ≡ s.ledger
  unfolding credit_funds
  credit_funds-same s taken =
      elim (Bool-cases (leb_ℤ n (pos 0) || (c.begin_fails || c.update_fails))) [
        | inl stop ↦ rw stop refl
        | inr go ↦ rw go (
            finish_credit-same c (credit_request id order n) s _ (
              posted-same c c.ledger_faults (credit_request id order n) s.ledger
                (ledger_request-keyed (crediting id order n)) taken))
      ]

  refund_for_failed_payment-same :
      (s : Store)
      → any (text_eq (refund_request id order n).idempotency_key) s.ledger.idempotency ≡ true
      → (refund_for_failed_payment c id order n s).1.ledger ≡ s.ledger
  unfolding refund_for_failed_payment
  refund_for_failed_payment-same s taken =
      elim (Bool-cases (leb_ℤ n (pos 0) || (c.begin_fails || c.update_fails))) [
        | inl stop ↦ rw stop refl
        | inr go ↦ rw go (
            finish_credit-same c (refund_request id order n) s _ (
              posted-same c c.ledger_faults (refund_request id order n) s.ledger
                (ledger_request-keyed (refunding id order n)) taken))
      ]

serve-same :
    (c : Call) (req : Request) (s : Store)
    → any (text_eq (ledger_request req).idempotency_key) s.ledger.idempotency ≡ true
    → (serve c req s).1.ledger ≡ s.ledger
unfolding serve
serve-same c (crediting id reference n) s taken = credit_funds-same c id reference n s taken
serve-same c (refunding id order n) s taken = refund_for_failed_payment-same c id order n s taken
serve-same c (purchasing id order n) s taken = deduct_for_purchase-same c id order n s taken

Credited-moved :
    (id : Text) (n : ℤ) (w w' : Balances) (r : Reply)
    → r ≡ done
    → Credited id n w w' r
    → (x : Text) → w' x ≡ with_more id n w x
Credited-moved id n w w' done h (credited positive more) = more
Credited-moved id n w w' refused h (not_credited same) = absurd (cc h)

Charged-moved :
    (id : Text) (n : ℤ) (w w' : Balances) (r : Reply)
    → r ≡ done
    → Charged id n w w' r
    → (x : Text) → w' x ≡ with_less id n w x
Charged-moved id n w w' done h (charged positive covered less) = less
Charged-moved id n w w' refused h (not_charged same) = absurd (cc h)
Charged-moved id n w w' refused h (lost positive covered less) = absurd (cc h)

serve-moved :
    (c : Call) (req : Request) (s : Store)
    → (serve c req s).0 ≡ done
    → (x : Text) → balance_of (serve c req s).1.wallets x ≡ moved req (balance_of s.wallets) x
serve-moved c (crediting id reference n) s h =
    Credited-moved id n _ _ _ h (serve-Step c (crediting id reference n) s)
serve-moved c (refunding id order n) s h =
    Credited-moved id n _ _ _ h (serve-Step c (refunding id order n) s)
serve-moved c (purchasing id order n) s h =
    Charged-moved id n _ _ _ h (serve-Step c (purchasing id order n) s)

-- Under a key that the ledger has seen, a call that is done moves the customer's balance by the
-- amount once more and leaves the ledger as it was: an order can be charged twice, and a credit or a
-- refund given twice.
pub serve_again :
    (c : Call) (req : Request) (s : Store)
    → any (text_eq (ledger_request req).idempotency_key) s.ledger.idempotency ≡ true
    → (serve c req s).0 ≡ done
    → let t = (serve c req s).1 in
      (t.ledger ≡ s.ledger)
      × ((x : Text) → balance_of t.wallets x ≡ moved req (balance_of s.wallets) x)
serve_again c req s taken h = (serve-same c req s taken, serve-moved c req s h)

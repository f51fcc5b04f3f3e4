-- ===== src/Refund/Once.antt =====
-- Repeated calls of RefundDispute.
use mathlib.Core.Path.{subst}
use omnigo_app.Common.{
  ◌≡◌, refl, sym, ◌∙◌, Bool, true, false, ◌&&◌, ◌||◌, List, [], ◌∷◌, Option, none, some, arith,
  Bool-cases, inl, inr, if◌then◌else◌,
}
use omnigo_app.Common.Int.{ℤ}
use omnigo_app.Common.Text.{Text, text_eq, text_eq_refl}
use omnigo_app.Ledger.Models.{Db}
use omnigo_app.Ledger.Service.{transfer}
use omnigo_app.Escrow.Models.{EscrowHold, find_hold, update_hold}
use omnigo_app.Wallet.Rows.{Wallets, balance_of}
use omnigo_app.Wallet.Customer.{Reply, refused, succeeded}
use omnigo_app.Wallet.Spec.{with_more, Gives, found_row, upsert_balance-Gives}
use omnigo_app.Refund.Rows.{
  RefundOrder, RefundBooks, RefundCall, find_refund_order, has_dispute_id, is_disputed,
}
use omnigo_app.Refund.Service.{
  commit_refund, refunded_hold, dispute_writes, dispute_transfer, refund_disputed,
  refund_dispute_of, disputed_hold, refund_dispute,
}

-- A hold that RefundDispute may refund.
abbrev pub is_due : Text → EscrowHold → Bool
is_due dispute h = has_dispute_id dispute h.dispute_id && is_disputed h.status

unfoldable pub disputed_holds : Text → List EscrowHold → List EscrowHold
disputed_holds dispute [] = []
disputed_holds dispute (h ∷ hs) =
    let rest = disputed_holds dispute hs in if is_due dispute h then h ∷ rest else rest

abbrev first : List EscrowHold → Option EscrowHold
first [] = none
first (h ∷ hs) = some h

find_hold-first :
    (dispute : Text) (hs : List EscrowHold)
    → find_hold (is_due dispute) hs ≡ first (disputed_holds dispute hs)
unfolding find_hold disputed_holds
find_hold-first dispute [] = refl
find_hold-first dispute (h ∷ hs) = elim (Bool-cases (is_due dispute h)) [
  | inl due ↦ rw due refl
  | inr other ↦ rw other (find_hold-first dispute hs)
]

module _ (dispute : Text) (g : EscrowHold) (hs : List EscrowHold) where
  disputed_holds-own :
      is_due dispute g ≡ true → disputed_holds dispute (g ∷ hs) ≡ g ∷ disputed_holds dispute hs
  unfolding disputed_holds
  disputed_holds-own due = rw due refl

  disputed_holds-other :
      is_due dispute g ≡ false → disputed_holds dispute (g ∷ hs) ≡ disputed_holds dispute hs
  unfolding disputed_holds
  disputed_holds-other other = rw other refl

module _ (c : RefundCall) (dispute : Text) where
  refunded-not_due : (g : EscrowHold) → is_due dispute (refunded_hold c g) ≡ false
  refunded-not_due g = ground arith

  update_hold-skips :
      (id : Text) (g : EscrowHold) (hs : List EscrowHold)
      → is_due dispute g ≡ false
      → disputed_holds dispute (update_hold id (refunded_hold c) (g ∷ hs))
        ≡ disputed_holds dispute (update_hold id (refunded_hold c) hs)
  unfolding update_hold
  update_hold-skips id g hs other = elim (Bool-cases (text_eq g.id id)) [
    | inl same ↦ rw same (disputed_holds-other dispute (refunded_hold c g) _ (refunded-not_due g))
    | inr apart ↦ rw apart (disputed_holds-other dispute g _ other)
  ]

  update_hold-takes :
      (g : EscrowHold) (hs : List EscrowHold)
      → disputed_holds dispute (update_hold g.id (refunded_hold c) (g ∷ hs))
        ≡ disputed_holds dispute (update_hold g.id (refunded_hold c) hs)
  unfolding update_hold
  update_hold-takes g hs =
      rw (text_eq_refl g.id)
        (disputed_holds-other dispute (refunded_hold c g) _ (refunded-not_due g))

  update_hold-none :
      (id : Text) (hs : List EscrowHold)
      → disputed_holds dispute hs ≡ []
      → disputed_holds dispute (update_hold id (refunded_hold c) hs) ≡ []
  unfolding update_hold
  update_hold-none id [] none_due = none_due
  update_hold-none id (g ∷ hs) none_due = elim (Bool-cases (is_due dispute g)) [
    | inl due ↦ absurd (cc (sym (disputed_holds-own dispute g hs due) ∙ none_due))
    | inr other ↦
        update_hold-skips id g hs other
        ∙ update_hold-none id hs (sym (disputed_holds-other dispute g hs other) ∙ none_due)
  ]

  -- The refund of the one hold that is due leaves none.
  update_hold-last :
      (h : EscrowHold) (hs : List EscrowHold)
      → disputed_holds dispute hs ≡ h ∷ []
      → disputed_holds dispute (update_hold h.id (refunded_hold c) hs) ≡ []
  unfolding disputed_holds
  update_hold-last h [] last = absurd (cc last)
  update_hold-last h (g ∷ hs) last = elim (Bool-cases (is_due dispute g)) [
    | inl due ↦
        let split : g ∷ disputed_holds dispute hs ≡ h ∷ [] =
          sym (disputed_holds-own dispute g hs due) ∙ last in
        let rest : disputed_holds dispute hs ≡ [] = cc split in
        let same : g ≡ h = cc split in
        subst (λ x. disputed_holds dispute (update_hold x.id (refunded_hold c) (g ∷ hs)) ≡ []) same
          (update_hold-takes g hs ∙ update_hold-none g.id hs rest)
    | inr other ↦
        update_hold-skips h.id g hs other
        ∙ update_hold-last h hs (sym (disputed_holds-other dispute g hs other) ∙ last)
  ]

module _ (dispute : Text) (h : EscrowHold) (o : RefundOrder) where
  -- What one call does while the hold is due.
  pub data Attempt (c : RefundCall) (b b' : RefundBooks) : Type 0 where
    skipped : b' ≡ record b { ledger = b'.ledger } → Attempt c b b'
    credits :
        (n : ℤ)
        → c.amount_column h ≡ some n
        → ((x : Text)
            → balance_of b'.customers x
              ≡ with_more o.customer_tracking_id n (balance_of b.customers) x)
        → disputed_holds dispute b'.holds ≡ []
        → Attempt c b b'

  module _ (c : RefundCall) (b : RefundBooks) (due : disputed_holds dispute b.holds ≡ h ∷ []) where
    branch-Attempt :
        (test : Bool) (x y : Reply × RefundBooks)
        → Attempt c b x.1
        → Attempt c b y.1
        → Attempt c b (if test then x else y).1
    branch-Attempt true x y first second = first
    branch-Attempt false x y first second = second

    commit_refund-Attempt :
        (n : ℤ) (ledger : Db) (ws : Option Wallets)
        → c.amount_column h ≡ some n
        → Gives
            (with_more o.customer_tracking_id n)
            b.customers
            (found_row o.customer_tracking_id n ws)
        → Attempt c b
            (commit_refund c c.hold_write_fails
              (dispute_writes c h)
              ws
              (record b { ledger = ledger })).1
    commit_refund-Attempt n ledger none reads g = skipped refl
    commit_refund-Attempt n ledger (some ws) reads g =
        branch-Attempt
          (c.begin_fails
            || (c.wallet_fails || (c.order_write_fails || (c.hold_write_fails || c.commit_fails))))
          _ _ (skipped refl) (credits n reads g (update_hold-last c dispute h b.holds due))

    refund_disputed-Attempt :
        (m : Option ℤ)
        → c.amount_column h ≡ m
        → Attempt c b (refund_disputed c dispute h m (some o) b).1
    refund_disputed-Attempt none reads = skipped refl
    refund_disputed-Attempt (some n) reads =
        branch-Attempt c.customer_read_fails (refused, b) _ (skipped refl)
          (branch-Attempt
            (succeeded
              (transfer c.ext c.ledger_faults
                (dispute_transfer c dispute h n o.customer_tracking_id) b.ledger).0)
            _ _
            (commit_refund-Attempt n _ _ reads
              (upsert_balance-Gives o.customer_tracking_id n b.customers))
            (skipped refl))

    refund_dispute_of-Attempt :
        find_refund_order h.order_tracking_id b.orders ≡ some o
        → Attempt c b (refund_dispute_of c dispute (some h) b).1
    unfolding refund_dispute_of
    refund_dispute_of-Attempt found =
        branch-Attempt c.hold_read_fails (refused, b) _ (skipped refl)
          (rw found (refund_disputed-Attempt (c.amount_column h) refl))

    pub refund_dispute-Attempt :
        find_refund_order h.order_tracking_id b.orders ≡ some o
        → Attempt c b (refund_dispute c dispute b).1
    unfolding refund_dispute disputed_hold
    refund_dispute-Attempt found =
        rw (find_hold-first dispute b.holds, due) (refund_dispute_of-Attempt found)

  -- With no hold due nothing happens.
  pub refund_dispute-none :
      (c : RefundCall) (b : RefundBooks)
      → disputed_holds dispute b.holds ≡ []
      → (refund_dispute c dispute b).1 ≡ b
  unfolding refund_dispute disputed_hold refund_dispute_of
  refund_dispute-none c b none_due = rw (find_hold-first dispute b.holds, none_due) refl

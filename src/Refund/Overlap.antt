-- ===== src/Refund/Overlap.antt =====
-- Two calls of RefundDispute that overlap.
use mathlib.Core.Option
use mathlib.Core.Option.{some-injective}
use omnigo_app.Common.{
  ◌≡◌, refl, ap, sym, ◌∙◌, inl, inr, arith, Bool, true, false, ◌||◌, ◌++◌, any, List, [], ◌∷◌,
  Option, none, some, Bool-cases, if◌then◌else◌,
}
use omnigo_app.Common.Int.{ℤ}
use omnigo_app.Common.Text.{Text, codes, text_eq, text_eq_refl}
use omnigo_app.Ledger.Models.{Db}
use omnigo_app.Ledger.Service.{transfer}
use omnigo_app.Escrow.Models.{EscrowHold}
use omnigo_app.Wallet.Rows.{Wallets, upsert_balance, balance_of}
use omnigo_app.Wallet.Customer.{Reply, done, refused, succeeded}
use omnigo_app.Wallet.Spec.{with_more, Gives, found_row, upsert_balance-Gives}
use omnigo_app.Refund.Rows.{RefundOrder, RefundBooks, RefundCall, find_refund_order, mark_refunded}
use omnigo_app.Refund.Service.{
  refund_transfer, after_ledger, commit_refund, dispute_writes, dispute_transfer, refund_disputed,
  refund_dispute_of, disputed_hold, refund_dispute,
}
use omnigo_app.Refund.Accepted.{transfer-Accepted}

-- The key of the dispute's refund is in `ledger_idempotency`.
abbrev pub refund_key : Text → Text
refund_key dispute = codes "escrow:refund:" ++ dispute

abbrev pub is_known : Text → Db → Bool
is_known dispute d = any (text_eq (refund_key dispute)) d.idempotency

customer_of : Option RefundOrder → Option Text
customer_of o = Option.map (λ r. r.customer_tracking_id) o

mark_refunded-customer :
    (id x : Text) (os : List RefundOrder)
    → Option.map (λ r. r.customer_tracking_id) (find_refund_order x (mark_refunded id os))
      ≡ Option.map (λ r. r.customer_tracking_id) (find_refund_order x os)
unfolding find_refund_order mark_refunded
mark_refunded-customer id x [] = refl
mark_refunded-customer id x (o ∷ os) = ground (arith, mark_refunded-customer id x os)

-- A call that is done, from the row `h` that it read.
pub record Refunded (c : RefundCall) (dispute : Text) (h : EscrowHold) (b b' : RefundBooks)
    : Type 0 where
  pub amount : ℤ
  pub customer : Text
  pub amount_read : c.amount_column h ≡ some amount
  pub customer_read :
      Option.map (λ r. r.customer_tracking_id) (find_refund_order h.order_tracking_id b.orders)
      ≡ some customer
  pub credited :
      (x : Text) → balance_of b'.customers x ≡ with_more customer amount (balance_of b.customers) x
  pub orders : b'.orders ≡ mark_refunded h.order_tracking_id b.orders
  pub known_after : is_known dispute b'.ledger ≡ true
  pub known_before : is_known dispute b.ledger ≡ true → b'.ledger ≡ b.ledger

module _ (c : RefundCall) (dispute : Text) (h : EscrowHold) (b : RefundBooks) where
  abbrev Ended : Reply × RefundBooks → Type 0
  Ended r = r.0 ≡ done → Refunded c dispute h b r.1

  branch-Ended :
      (test : Bool) (x y : Reply × RefundBooks)
      → Ended x
      → (test ≡ false → Ended y)
      → Ended (if test then x else y)
  branch-Ended true x y first second = first
  branch-Ended false x y first second = second refl

  never : (t : RefundBooks) → Ended (refused, t)
  never t e = absurd (ground (arith, e))

  module _ (n : ℤ) (o : RefundOrder) (reads : c.amount_column h ≡ some n)
      (found : find_refund_order h.order_tracking_id b.orders ≡ some o) where
    abbrev booked : RefundBooks
    booked = record b {
      ledger =
          (transfer c.ext c.ledger_faults (dispute_transfer c dispute h n o.customer_tracking_id)
            b.ledger).1;
    }

    known_after_transfer :
        succeeded
            (transfer c.ext c.ledger_faults
              (dispute_transfer c dispute h n o.customer_tracking_id)
              b.ledger).0
          ≡ true
        → (is_known dispute booked.ledger ≡ true)
          × (is_known dispute b.ledger ≡ true → booked.ledger ≡ b.ledger)
    unfolding refund_transfer text_eq
    known_after_transfer good =
        elim (transfer-Accepted c (dispute_transfer c dispute h n o.customer_tracking_id) b.ledger
          good) [
            | inl made ↦ (
              rw (made.keys, text_eq_refl (refund_key dispute)) refl,
              λ known. absurd (ground (arith, known, made.unused refl)),
            )
            | inr (kept, known) ↦ (rw kept known, λ again. kept)
          ]

    commit_refund-Ended :
        (ws : Option Wallets)
        → succeeded
            (transfer c.ext c.ledger_faults
              (dispute_transfer c dispute h n o.customer_tracking_id)
              b.ledger).0
          ≡ true
        → Gives
            (with_more o.customer_tracking_id n)
            b.customers
            (found_row o.customer_tracking_id n ws)
        → Ended (commit_refund c c.hold_write_fails (dispute_writes c h) ws booked)
    commit_refund-Ended none good g = never booked
    commit_refund-Ended (some ws) good g =
        branch-Ended
          (c.begin_fails
            || (c.wallet_fails || (c.order_write_fails || (c.hold_write_fails || c.commit_fails))))
          (refused, booked) (done, record (dispute_writes c h booked) { customers = ws })
          (never booked)
          λ works ok.
            let (known_after, known_before) = known_after_transfer good in
            record {
              amount = n;
              customer = o.customer_tracking_id;
              amount_read = reads;
              customer_read = ap (Option.map (λ r. r.customer_tracking_id)) found;
              credited = g;
              orders = refl;
              known_after = known_after;
              known_before = known_before;
            }

    refund_disputed-Ended : Ended (refund_disputed c dispute h (some n) (some o) b)
    refund_disputed-Ended =
        branch-Ended c.customer_read_fails (refused, b)
          (after_ledger c (dispute_transfer c dispute h n o.customer_tracking_id) finish b)
          (never b)
          λ reads.
            elim (Bool-cases (
              succeeded
                (transfer c.ext c.ledger_faults
                  (dispute_transfer c dispute h n o.customer_tracking_id) b.ledger).0)) [
                    | inl good ↦ rw good (
                        commit_refund-Ended _ good
                          (upsert_balance-Gives o.customer_tracking_id n b.customers))
                    | inr bad ↦ rw bad (never booked)
                  ]
      where
        finish : RefundBooks → Reply × RefundBooks
        finish t =
            commit_refund c c.hold_write_fails (dispute_writes c h)
              (upsert_balance o.customer_tracking_id n t.customers) t

  refund_dispute_of-Ended : Ended (refund_dispute_of c dispute (some h) b)
  unfolding refund_dispute_of
  refund_dispute_of-Ended =
      branch-Ended c.hold_read_fails (refused, b)
        (refund_disputed c dispute h (c.amount_column h)
          (find_refund_order h.order_tracking_id b.orders) b)
        (never b) λ reads. by_rows (c.amount_column h) refl (find_refund_order _ b.orders) refl
    where
      by_rows :
          (n : Option ℤ)
          → c.amount_column h ≡ n
          → (o : Option RefundOrder) → find_refund_order h.order_tracking_id b.orders ≡ o
          → Ended (refund_disputed c dispute h n o b)
      by_rows none unread o found = never b
      by_rows (some n) reads none missing = never b
      by_rows (some n) reads (some o) found = refund_disputed-Ended n o reads found

module _ (dispute : Text) (h : EscrowHold) (o : RefundOrder) (n : ℤ) where
  -- The same hold refunded by two calls, one from the tables that the other left.
  both :
      (c c' : RefundCall) (b t t' : RefundBooks)
      → find_refund_order h.order_tracking_id b.orders ≡ some o
      → c.amount_column h ≡ some n
      → c'.amount_column h ≡ some n
      → Refunded c dispute h b t
      → Refunded c' dispute h t t'
      → (x : Text)
      → balance_of t'.customers x
        ≡ with_more o.customer_tracking_id n
            (with_more o.customer_tracking_id n (balance_of b.customers))
            x
  both c c' b t t' found reads reads' r r' x =
      let amount : r.amount ≡ n = some-injective _ _ (sym r.amount_read ∙ reads) in
      let amount' : r'.amount ≡ n = some-injective _ _ (sym r'.amount_read ∙ reads') in
      let own : r.customer ≡ o.customer_tracking_id =
        some-injective _ _
          (sym r.customer_read ∙ ap (Option.map (λ p. p.customer_tracking_id)) found) in
      let own' : r'.customer ≡ o.customer_tracking_id = some-injective _ _ (
        sym r'.customer_read
        ∙ ap
            (λ os.
              Option.map (λ p. p.customer_tracking_id) (find_refund_order h.order_tracking_id os))
            r.orders
        ∙ mark_refunded-customer h.order_tracking_id h.order_tracking_id b.orders
        ∙ ap (Option.map (λ p. p.customer_tracking_id)) found) in
      r'.credited x ∙ rw (r.credited x, amount, own, amount', own') refl

  -- Two calls of RefundDispute, the second of which read its hold before the first one ended: where
  -- both are done and both read the amount `n`, the customer of the order has it twice, and the
  -- ledger has booked nothing for the second.
  pub refund_dispute-overlapped :
      (c c' : RefundCall) (b : RefundBooks)
      → disputed_hold dispute b ≡ some h
      → find_refund_order h.order_tracking_id b.orders ≡ some o
      → c.amount_column h ≡ some n
      → c'.amount_column h ≡ some n
      → let (r, t) = refund_dispute c dispute b in
        let (r', t') = refund_dispute_of c' dispute (disputed_hold dispute b) t in
        r ≡ done
        → r' ≡ done
        → (t'.ledger ≡ t.ledger)
          × ((x : Text)
              → balance_of t'.customers x
                ≡ with_more o.customer_tracking_id n
                    (with_more o.customer_tracking_id n (balance_of b.customers))
                    x)
  unfolding refund_dispute
  refund_dispute-overlapped c c' b read found reads reads' = rw read (λ ok ok'.
      let r = refund_dispute_of-Ended c dispute h b ok in
      let r' =
        refund_dispute_of-Ended c' dispute h (refund_dispute_of c dispute (some h) b).1 ok' in
      (r'.known_before r.known_after, both c c' b _ _ found reads reads' r r'))

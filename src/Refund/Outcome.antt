-- ===== src/Refund/Outcome.antt =====
-- What RefundForReturn and RefundDispute leave behind.
use mathlib.Core.Option
use mathlib.Core.Option.{some-injective}
use omnigo_app.Common.{
  ◌≡◌, refl, ap, sym, ◌∙◌, arith, Bool, true, false, not, ◌&&◌, ◌||◌, any, [], Option, none, some,
  Bool-cases, inl, inr, if◌then◌else◌,
}
use omnigo_app.Common.Int.{ℤ, pos, leb_ℤ}
use omnigo_app.Common.Text.{Text, codes, text_eq, equal_fold}
use omnigo_app.Ledger.Models.{TransferRequest}
use omnigo_app.Ledger.Service.{transfer}
use omnigo_app.Escrow.Models.{EscrowHold, find_hold}
use omnigo_app.Wallet.Rows.{Wallets, upsert_balance, balance_of}
use omnigo_app.Wallet.Customer.{Reply, done, refused, succeeded}
use omnigo_app.Wallet.Spec.{with_more, Gives, found_row, upsert_balance-Gives}
use omnigo_app.Refund.Rows.{
  RefundOrder, RefundBooks, RefundCall, find_refund_order, mark_refunded, debt_rider, is_refundable,
  add_clawback,
}
use omnigo_app.Refund.Accepted.{
  Accepted, transfer-Accepted, StandsFor, of_hold, of_order, unread_total,
}
use omnigo_app.Refund.Service.{
  refund_transfer, after_ledger, commit_refund, clawback_transfer, write_clawback,
  clawback_from_vendor, or_total, cod_transfer, cod_writes, refund_cod_return, return_transfer,
  return_writes, read_hold, refund_return_of, refund_order_return, refund_for_return,
}

-- Nothing but the ledger can have changed.
abbrev pub LedgerOnly : RefundBooks → RefundBooks → Type 0
LedgerOnly b b' = b' ≡ record b { ledger = b'.ledger }

module _ (c : RefundCall) where
  -- A refund that went through: the ledger has accepted it, and the customer has it.
  pub record Paid (o : RefundOrder) (n : ℤ) (b b' : RefundBooks) : Type 0 where
    pub accepted : Accepted c n b b'
    pub credited :
        (x : Text)
        → balance_of b'.customers x ≡ with_more o.customer_tracking_id n (balance_of b.customers) x
    pub marked : b'.orders ≡ mark_refunded o.order_tracking_id b.orders
    pub vendors_same : b'.vendors ≡ b.vendors

  -- What a reply of RefundForReturn says of the tables before and after.
  pub data ReturnOutcome (order : Text) (amount : ℤ) (b b' : RefundBooks) : Reply → Type 0 where
    not_refunded : LedgerOnly b b' → ReturnOutcome order amount b b' refused
    paid_back :
        (o : RefundOrder) (m : ℤ)
        → find_refund_order order b.orders ≡ some o
        → StandsFor c o b m
        → Paid o (or_total c amount m) b b'
        → ReturnOutcome order amount b b' done
    clawed_back :
        (o : RefundOrder) (m : ℤ)
        → find_refund_order order b.orders ≡ some o
        → o.escrow_released ≡ true
        → StandsFor c o b m
        → Accepted c (or_total c amount m) b b'
        → b'.customers ≡ b.customers
        → b'.orders ≡ b.orders
        → b'.vendors ≡ add_clawback o.vendor_tracking_id (or_total c amount m) b.vendors
        → ReturnOutcome order amount b b' done

  module _ (order : Text) (amount : ℤ) (b : RefundBooks) where
    abbrev Result : Reply × RefundBooks → Type 0
    Result r = ReturnOutcome order amount b r.1 r.0

    abbrev booked_by : TransferRequest → RefundBooks
    booked_by req = record b { ledger = (transfer c.ext c.ledger_faults req b.ledger).1 }

    branch-Result :
        (test : Bool) (x y : Reply × RefundBooks)
        → (test ≡ true → Result x)
        → (test ≡ false → Result y)
        → Result (if test then x else y)
    branch-Result true x y first second = first refl
    branch-Result false x y first second = second refl

    after_ledger-Result :
        (req : TransferRequest) (rest : RefundBooks → Reply × RefundBooks)
        → (succeeded (transfer c.ext c.ledger_faults req b.ledger).0 ≡ true
            → Result (rest (booked_by req)))
        → Result (after_ledger c req rest b)
    after_ledger-Result req rest good =
        elim (Bool-cases (succeeded (transfer c.ext c.ledger_faults req b.ledger).0)) [
          | inl accepted ↦ rw accepted (good accepted)
          | inr not_accepted ↦ rw not_accepted (not_refunded refl)
        ]

    module _ (o : RefundOrder) (m : ℤ) (found : find_refund_order order b.orders ≡ some o)
        (meant : StandsFor c o b m) (req : TransferRequest)
        (same_amount : req.amount ≡ or_total c amount m)
        (accepted : succeeded (transfer c.ext c.ledger_faults req b.ledger).0 ≡ true) where
      commit_refund-Result :
          (stops : Bool) (write : RefundBooks → RefundBooks) (ws : Option Wallets)
          → Gives
              (with_more o.customer_tracking_id (or_total c amount m))
              b.customers
              (found_row o.customer_tracking_id (or_total c amount m) ws)
          → (write (booked_by req)).orders ≡ mark_refunded o.order_tracking_id b.orders
          → (write (booked_by req)).vendors ≡ b.vendors
          → (write (booked_by req)).ledger ≡ (booked_by req).ledger
          → Result (commit_refund c stops write ws (booked_by req))
      commit_refund-Result stops write none g orders vendors ledger = not_refunded refl
      commit_refund-Result stops write (some ws) g orders vendors ledger =
          elim (Bool-cases (
            c.begin_fails
            || (c.wallet_fails || (c.order_write_fails || (stops || c.commit_fails))))) [
              | inl fails ↦ rw fails (not_refunded refl)
              | inr works ↦ rw works (
                  paid_back o m found meant (record {
                    accepted = record {
                      request = req;
                      same_amount = same_amount;
                      booked_or_known = rw ledger (transfer-Accepted c req b.ledger accepted);
                    };
                    credited = g;
                    marked = orders;
                    vendors_same = vendors;
                  }))
            ]

    clawback_from_vendor-Result :
        (o : RefundOrder) (m : ℤ)
        → find_refund_order order b.orders ≡ some o
        → o.escrow_released ≡ true
        → StandsFor c o b m
        → Result (
            clawback_from_vendor c o.order_tracking_id o.vendor_tracking_id (or_total c amount m) b)
    unfolding clawback_from_vendor refund_transfer
    clawback_from_vendor-Result o m found out meant =
        elim (Bool-cases (leb_ℤ (or_total c amount m) (pos 0))) [
          | inl nothing ↦ rw nothing (not_refunded refl)
          | inr some_amount ↦ rw some_amount (
              after_ledger-Result (clawback_transfer c o.order_tracking_id (or_total c amount m))
                (write_clawback c o.vendor_tracking_id (or_total c amount m))
                λ accepted.
                  elim (Bool-cases (
                    c.clawback_fails
                    || not
                        (any (λ v. text_eq v.vendor_tracking_id o.vendor_tracking_id) b.vendors))) [
                          | inl fails ↦ rw fails (not_refunded refl)
                          | inr works ↦ rw works (
                              clawed_back o m found out meant
                                (record {
                                  request =
                                      clawback_transfer c o.order_tracking_id (or_total c amount m);
                                  same_amount = refl;
                                  booked_or_known = transfer-Accepted c _ b.ledger accepted;
                                })
                                refl refl refl)
                        ])
        ]

    refund_cod_return-Result :
        (o : RefundOrder)
        → find_refund_order order b.orders ≡ some o
        → Result (refund_cod_return c o amount b)
    unfolding refund_cod_return refund_transfer
    refund_cod_return-Result o found = elim (Bool-cases (c.customer_read_fails || c.begin_fails)) [
      | inl stop ↦ rw stop (not_refunded refl)
      | inr go ↦ rw go (
          after_ledger-Result (cod_transfer c o.order_tracking_id n) (finish rider) λ accepted.
            commit_refund-Result o o.total_amount_paisa found (of_order refl)
              (cod_transfer c o.order_tracking_id n) refl accepted _
              (cod_writes c o.order_tracking_id rider n) _
              (upsert_balance-Gives o.customer_tracking_id n b.customers) refl refl refl)
    ]
      where
        n : ℤ
        n = or_total c amount o.total_amount_paisa

        rider : Text
        rider = if c.rider_read_fails then [] else debt_rider o.order_tracking_id b.debts

        finish : Text → RefundBooks → Reply × RefundBooks
        finish rider t =
            commit_refund c (c.debt_write_fails || (not (text_eq rider []) && c.rider_write_fails))
              (cod_writes c o.order_tracking_id rider n)
              (upsert_balance o.customer_tracking_id n t.customers) t

    refund_hold-Result :
        (o : RefundOrder) (h : EscrowHold) (column : ℤ)
        → find_refund_order order b.orders ≡ some o
        → StandsFor c o b column
        → Result (refund_return_of c o amount (some (h, column)) b)
    unfolding refund_transfer
    refund_hold-Result o h column found meant =
        branch-Result c.customer_read_fails (refused, b)
          (after_ledger c (return_transfer c o n) finish b) (λ fails. not_refunded refl)
          λ reads. after_ledger-Result (return_transfer c o n) finish λ accepted.
            commit_refund-Result o column found meant (return_transfer c o n) refl accepted _
              (return_writes c o h) _ (upsert_balance-Gives o.customer_tracking_id n b.customers)
              refl refl refl
      where
        n : ℤ
        n = or_total c amount column

        finish : RefundBooks → Reply × RefundBooks
        finish t =
            commit_refund c (c.hold_write_fails || c.debt_write_fails) (return_writes c o h)
              (upsert_balance o.customer_tracking_id n t.customers) t

    -- The hold that is read, with its column.
    read_hold-column :
        (row : Option EscrowHold) {h : EscrowHold} {column : ℤ}
        → read_hold c row ≡ some (h, column)
        → (row ≡ some h) × (c.amount_column h ≡ some column)
    read_hold-column none e = absurd (ground (arith, e))
    read_hold-column (some g) {h} {column} e = elim (Bool-cases c.hold_read_fails) [
      | inl fails ↦ absurd (ground (arith, e, fails))
      | inr reads ↦ of_column (c.amount_column g) refl (ground (arith, e, reads))
    ]
      where
        of_column :
            (n : Option ℤ)
            → c.amount_column g ≡ n
            → Option.map {B = EscrowHold × ℤ} (λ m. (g, m)) n ≡ some (h, column)
            → (some g ≡ some h) × (c.amount_column h ≡ some column)
        of_column none at same = absurd (ground (arith, same))
        of_column (some m) at same =
            let pair : (g, m) ≡ (h, column) = some-injective (g, m) (h, column) same in
            let own : g ≡ h = ap (λ p. p.0) pair in
            (ap some own, ap c.amount_column (sym own) ∙ at ∙ ap (λ p. some p.1) pair)

    total-StandsFor :
        (o : RefundOrder)
        → StandsFor c o b (if c.total_read_fails then pos 0 else o.total_amount_paisa)
    total-StandsFor o = elim (Bool-cases c.total_read_fails) [
      | inl fails ↦ unread_total fails (rw fails refl)
      | inr reads ↦ of_order (rw reads refl)
    ]

    refund_return_of-Result :
        (o : RefundOrder) (h : Option (EscrowHold × ℤ))
        → find_refund_order order b.orders ≡ some o
        → ((g : EscrowHold) (m : ℤ) → h ≡ some (g, m) → StandsFor c o b m)
        → Result (refund_return_of c o amount h b)
    refund_return_of-Result o (some (h, column)) found meant =
        refund_hold-Result o h column found (meant h column refl)
    refund_return_of-Result o none found meant =
        let total = if c.total_read_fails then pos 0 else o.total_amount_paisa in
        branch-Result o.escrow_released
          (clawback_from_vendor c o.order_tracking_id o.vendor_tracking_id (or_total c amount total)
            b)
          (if equal_fold o.payment_gateway (codes "cod")
            then refund_cod_return c o amount b
            else (refused, b))
          (λ out. clawback_from_vendor-Result o total found out (total-StandsFor o))
          λ kept.
            branch-Result (equal_fold o.payment_gateway (codes "cod"))
              (refund_cod_return c o amount b) (refused, b)
              (λ cod. refund_cod_return-Result o found) λ card. not_refunded refl

    refund_order_return-Result :
        (o : Option RefundOrder)
        → find_refund_order order b.orders ≡ o
        → Result (refund_order_return c o amount b)
    refund_order_return-Result none found = not_refunded refl
    refund_order_return-Result (some o) found =
        let hold = read_hold c (
          find_hold (λ h. text_eq h.order_tracking_id o.order_tracking_id && is_refundable h.status)
            b.holds) in
        branch-Result c.order_read_fails (refused, b) (refund_return_of c o amount hold b)
          (λ fails. not_refunded refl)
          λ reads.
            refund_return_of-Result o hold found
              (λ g m at. let (is_row, column) = read_hold-column _ at in of_hold g is_row column)

    -- RefundForReturn that is refused has changed nothing but the ledger. One that is done has had a
    -- transfer of its amount accepted by the ledger, which has booked it, or knew its key from before
    -- and booked nothing; the amount 0 stands for the amount of the hold or the order's total. Then
    -- it either adds the amount to the customer's wallet and marks the order refunded, or, for an order
    -- whose escrow was released, only adds it to the vendor's clawback: then the customer's wallet and
    -- the order stay as they were.
    pub refund_for_return-Outcome :
        let (r, b') = refund_for_return c order amount b in ReturnOutcome order amount b b' r
    unfolding refund_for_return
    refund_for_return-Outcome = refund_order_return-Result (find_refund_order order b.orders) refl

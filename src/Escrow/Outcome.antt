-- ===== src/Escrow/Outcome.antt =====
-- What an attempt at a release leaves behind, set against a description of when a hold may be paid.
use mathlib.Core.Option
use omnigo_app.Common.{
  ◌≡◌, refl, inl, inr, Bool, true, false, ◌&&◌, ◌||◌, not, arith, [], Option, none, some,
  if◌then◌else◌, Bool-cases,
}
use omnigo_app.Common.Text.{codes, text_eq, equal_fold}
use omnigo_app.Ledger.Service.{transfer}
use omnigo_app.Escrow.Models.{
  held, EscrowHold, OrderRow, CodDebtRow, World, find_debt, has_open_dispute,
}
use omnigo_app.Escrow.Terms.{terms, update_hold-terms}
use omnigo_app.Escrow.Process.{
  set_status, Attempt, Ending, returned, failed, stalled, release_request, revert, release_funds,
  check_debt, check_payment, check_status, check_disputes, process_hold, is_ok, finish_writes,
  dispute_blocks, debt_status,
}

-- The money of the order has come in: the rider settled a debt of cash on delivery, or the payment
-- of any other order is not known to be outstanding.
abbrev pub is_settled : Option CodDebtRow → Bool
is_settled none = false
is_settled (some d) = equal_fold (debt_status d) (codes "settled")

abbrev pub has_paid : OrderRow → World → Bool
has_paid o w =
    let status = Option.get_or o.payment_status [] in
    if equal_fold (Option.get_or o.payment_gateway []) (codes "cod")
    then is_settled (find_debt o.order_tracking_id w.cod_debts)
    else text_eq status [] || equal_fold status (codes "paid")

abbrev pub has_arrived : OrderRow → Bool
has_arrived o =
    let status = Option.get_or o.status [] in
    equal_fold status (codes "delivered") || equal_fold status (codes "completed")

-- When the vendor may have the money.
abbrev pub may_release : OrderRow → World → Bool
may_release o w =
    not (Option.get_or o.escrow_released false)
    && (not (
          has_open_dispute o.order_tracking_id w.disputes
          || dispute_blocks (Option.get_or o.dispute_status (codes "NONE")))
        && (has_arrived o && has_paid o w))

-- No money has moved.
pub record Unpaid (w w' : World) : Type 0 where
  pub same_wallets : w'.vendor_wallets ≡ w.vendor_wallets
  pub same_orders : w'.orders ≡ w.orders
  pub same_ledger : w'.ledger ≡ w.ledger
  pub same_terms : terms w'.holds ≡ terms w.holds

module _ (a : Attempt) (h : EscrowHold) (w tx : World) where
  abbrev SameTables : Type 0
  SameTables =
      (tx.vendor_wallets ≡ w.vendor_wallets)
      × (tx.orders ≡ w.orders)
      × (tx.ledger ≡ w.ledger)
      × (terms tx.holds ≡ terms w.holds)

  revert-Unpaid : (strict : Bool) → SameTables → Unpaid w (revert a h w strict tx).1
  unfolding revert
  revert-Unpaid strict s =
      ground (arith, update_hold-terms h.id (set_status held) tx.holds (λ x. (refl, refl)))

  check_debt-Unpaid :
      (d : Option CodDebtRow)
      → SameTables
      → is_settled d ≡ false
      → Unpaid w (check_debt a h w d tx).1
  unfolding check_debt
  check_debt-Unpaid none s unmet = ground (arith, revert-Unpaid true s)
  check_debt-Unpaid (some d) s unmet = ground (arith, revert-Unpaid true s)

  check_payment-Unpaid :
      (o : OrderRow)
      → o.order_tracking_id ≡ h.order_tracking_id
      → SameTables
      → has_paid o tx ≡ false
      → Unpaid w (check_payment a h w o tx).1
  unfolding check_payment
  check_payment-Unpaid o same s unmet = ground (
    arith,
    revert-Unpaid true s,
    check_debt-Unpaid (find_debt h.order_tracking_id tx.cod_debts) s,
  )

  check_disputes-Unpaid :
      (o : OrderRow)
      → o.order_tracking_id ≡ h.order_tracking_id
      → SameTables
      → may_release o tx ≡ false
      → Option.get_or o.escrow_released false ≡ false
      → Unpaid w (check_disputes a h w o tx).1
  unfolding check_disputes check_status
  check_disputes-Unpaid o same s unmet unreleased =
      ground (arith, revert-Unpaid false s, check_payment-Unpaid o same s)

  -- What the attempt leaves: at most the release's transfer in the ledger, or every write.
  pub data Release : Ending × World → Type 0 where
    no_transfer : {e : Ending} {w' : World} → Unpaid w w' → Release (e, w')
    only_ledger :
        {w' : World}
        → w' ≡ record w {
          ledger = (transfer a.ext a.ledger_faults (release_request a.hold_hours h) w.ledger).1;
        }
        → Release (failed, w')
    complete :
        {w' : World}
        → is_ok (transfer a.ext a.ledger_faults (release_request a.hold_hours h) w.ledger).0 ≡ true
        → w'
          ≡ finish_writes a h w (record tx {
            ledger = (transfer a.ext a.ledger_faults (release_request a.hold_hours h) w.ledger).1;
          })
        → Release (returned, w')

  release_funds-Release : Release (release_funds a h w tx)
  unfolding release_funds
  release_funds-Release =
      elim (Bool-cases
        (is_ok (transfer a.ext a.ledger_faults (release_request a.hold_hours h) w.ledger).0)) [
          | inl good ↦
              elim (Bool-cases
                (a.release_fails || (a.order_write_fails || (a.wallet_fails || a.commit_fails)))) [
                  | inl fault ↦ rw (good, fault) (only_ledger refl)
                  | inr fine ↦ rw (good, fine) (complete good refl)
                ]
          | inr bad ↦ rw bad (only_ledger refl)
        ]

  revert-Release : (strict : Bool) → SameTables → Release (revert a h w strict tx)
  revert-Release strict s = no_transfer (revert-Unpaid strict s)

  untouched : (e : Ending) → Release (e, w)
  untouched e =
      no_transfer
        (record { same_wallets = refl; same_orders = refl; same_ledger = refl; same_terms = refl })

  check_debt-Release : (d : Option CodDebtRow) → SameTables → Release (check_debt a h w d tx)
  unfolding check_debt
  check_debt-Release none s = ground (arith, untouched failed, revert-Release true s)
  check_debt-Release (some d) s =
      ground (arith, untouched failed, revert-Release true s, release_funds-Release)

  check_status-Release : (o : OrderRow) → SameTables → Release (check_status a h w o tx)
  unfolding check_status check_payment
  check_status-Release o s = ground (
    arith,
    revert-Release false s,
    revert-Release true s,
    release_funds-Release,
    check_debt-Release (find_debt h.order_tracking_id tx.cod_debts) s,
  )

  pub process_hold-Release :
      (row : Option OrderRow) → SameTables → Release (process_hold a h w row tx)
  unfolding process_hold check_disputes
  process_hold-Release none s = untouched returned
  process_hold-Release (some o) s = ground (
    arith,
    untouched returned,
    untouched stalled,
    untouched failed,
    revert-Release false s,
    check_status-Release o s,
  )

  pub process_hold-Unpaid :
      (row : Option OrderRow)
      → SameTables
      → ((o : OrderRow)
          → row ≡ some o
          → (o.order_tracking_id ≡ h.order_tracking_id) × (may_release o tx ≡ false))
      → Unpaid w (process_hold a h w row tx).1
  unfolding process_hold
  process_hold-Unpaid none s unmet = record {
    same_wallets = refl;
    same_orders = refl;
    same_ledger = refl;
    same_terms = refl;
  }
  process_hold-Unpaid (some o) s unmet =
      let (same, blocked) = unmet o refl in ground (arith, check_disputes-Unpaid o same s blocked)

  check_debt-pays :
      (d : Option CodDebtRow)
      → a.debt_read_fails ≡ false
      → is_settled d ≡ true
      → check_debt a h w d tx ≡ release_funds a h w tx
  unfolding check_debt
  check_debt-pays none reads settled = ground arith
  check_debt-pays (some d) reads settled = ground arith

  check_status-pays :
      (o : OrderRow)
      → o.order_tracking_id ≡ h.order_tracking_id
      → a.debt_read_fails ≡ false
      → has_arrived o ≡ true
      → has_paid o tx ≡ true
      → check_status a h w o tx ≡ release_funds a h w tx
  unfolding check_status check_payment
  check_status-pays o same reads arrived paid =
      ground (arith, check_debt-pays (find_debt h.order_tracking_id tx.cod_debts) reads)

  pub process_hold-pays :
      (o : OrderRow)
      → o.order_tracking_id ≡ h.order_tracking_id
      → a.order_read_fails ≡ false
      → a.dispute_read_fails ≡ false
      → a.debt_read_fails ≡ false
      → may_release o tx ≡ true
      → process_hold a h w (some o) tx ≡ release_funds a h w tx
  unfolding process_hold check_disputes
  process_hold-pays o same reads_order reads_disputes reads_debts may =
      ground (arith, check_status-pays o same reads_debts)

-- ===== src/Escrow/Process.antt =====
-- backend/go-services/internal/escrow/service.go: releaseOneHold and processHoldTx. The ledger
-- commits in a transaction of its own, so its writes stay when the hold's transaction is rolled back.
use mathlib.Core.Option
use omnigo_app.Common.{
  ℕ, ◌-◌, ◌*◌, ◌^◌, Bool, true, false, ◌&&◌, ◌||◌, not, leb, ltb, List, [], ◌∷◌, ◌++◌, Option, none,
  some, if◌then◌else◌,
}
use omnigo_app.Common.Text.{Text, codes, text_eq, equal_fold}
use omnigo_app.Common.Decimal.{format_nat}
use omnigo_app.Ledger.Models.{TransferRequest, vendor_locked_escrow, vendor_withdrawable}
use omnigo_app.Ledger.Tx.{Result, Faults, ok, err}
use omnigo_app.Ledger.Entries.{Externals}
use omnigo_app.Ledger.Service.{transfer}
use omnigo_app.Escrow.Models.{
  EscrowStatus, held, releasing, released, EscrowHold, OrderRow, CodDebtRow, World, is_held,
  update_hold, find_hold, find_order, find_debt, mark_order_released, credit_vendor,
  has_open_dispute,
}

-- What the outside does during one attempt: the clock, the calls of the database that fail, and
-- whether the caller's context ends where the attempt waits for a lock.
pub record Attempt : Type 0 where
  pub now : ℕ
  pub hold_hours : ℕ
  pub begin_fails : Bool
  pub order_read_fails : Bool
  pub dispute_read_fails : Bool
  pub debt_read_fails : Bool
  pub created_read_fails : Bool
  pub revert_fails : Bool
  pub release_fails : Bool
  pub order_write_fails : Bool
  pub wallet_fails : Bool
  pub commit_fails : Bool
  pub context_ends : Bool
  pub index_fails : Bool
  pub ext : Externals
  pub ledger_faults : Faults

-- `stalled`: the method waits without end.
pub data Ending : Type 0 where
  returned failed stalled : Ending

unfoldable pub release_key : Text → Text
release_key hold_id = codes "escrow:release:" ++ hold_id

unfoldable pub release_request : ℕ → EscrowHold → TransferRequest
unfolding release_key
release_request hold_hours h = record {
  debit_account = vendor_locked_escrow;
  credit_account = vendor_withdrawable;
  amount = h.amount;
  currency = [];
  reference_type = codes "escrow_release";
  reference_id = h.order_tracking_id;
  description =
      codes "Escrow released for order "
      ++ (h.order_tracking_id ++ (codes " after " ++ (format_nat hold_hours ++ codes "h hold")));
  idempotency_key = release_key h.id;
}

abbrev pub set_status : EscrowStatus → EscrowHold → EscrowHold
set_status s h = record h { status = s }

unfoldable pub remove_id : Text → List Text → List Text
remove_id id [] = []
remove_id id (x ∷ xs) = let rest = remove_id id xs in if text_eq x id then rest else x ∷ rest

abbrev pub is_ok : {A : Type 0} → Result A → Bool
is_ok (ok x) = true
is_ok (err e) = false

abbrev pub debt_status : CodDebtRow → Text
debt_status d = Option.get_or d.status []

abbrev pub dispute_blocks : Text → Bool
dispute_blocks s =
    not (text_eq s (codes "NONE")) && (not (text_eq s []) && not (equal_fold s (codes "resolved")))

module _ (a : Attempt) (h : EscrowHold) (w : World) where
  -- The hold goes back to `held` and the transaction commits. `strict` is whether an error of the
  -- update is returned; an error of the Commit never is.
  unfoldable pub revert : Bool → World → Ending × World
  revert strict tx =
      if a.revert_fails
      then (if strict then failed else returned, w)
      else if a.commit_fails
      then (returned, w)
      else (returned, record tx { holds = update_hold h.id (set_status held) tx.holds })

  abbrev pub finish_writes : World → World
  finish_writes tx = record tx {
    holds =
        update_hold h.id (λ x. record x { status = released; released_at = some a.now }) tx.holds;
    orders = mark_order_released h.order_tracking_id tx.orders;
    vendor_wallets = credit_vendor h.vendor_tracking_id h.amount tx.vendor_wallets;
    index = if a.index_fails then tx.index else remove_id h.id tx.index;
  }

  -- From the ledger transfer to the Commit.
  unfoldable pub release_funds : World → Ending × World
  unfolding release_request
  release_funds tx =
      let (r, ledger) = transfer a.ext a.ledger_faults (release_request a.hold_hours h) w.ledger in
      if is_ok r
      then if a.release_fails || (a.order_write_fails || (a.wallet_fails || a.commit_fails))
        then (failed, record w { ledger = ledger })
        else (returned, finish_writes (record tx { ledger = ledger }))
      else (failed, record w { ledger = ledger })

  -- Whether the hold is older than 72 hours.
  abbrev pub is_stale : Bool
  is_stale = not a.created_read_fails && ltb (72 * 3600 * 10 ^ 9) (a.now - h.created_at)

  -- The latest debt of the order. After the check for a stale hold the source still rolls back and
  -- returns the error of the read.
  unfoldable pub check_debt : Option CodDebtRow → World → Ending × World
  unfolding revert release_funds
  check_debt none tx =
      if a.debt_read_fails then (failed, w) else if is_stale then (failed, w) else revert true tx
  check_debt (some d) tx =
      if a.debt_read_fails
      then (failed, w)
      else if not (equal_fold (debt_status d) (codes "settled"))
      then revert true tx
      else release_funds tx

  unfoldable pub check_payment : OrderRow → World → Ending × World
  unfolding check_debt
  check_payment o tx =
      let payment_status = Option.get_or o.payment_status [] in
      if equal_fold (Option.get_or o.payment_gateway []) (codes "cod")
      then check_debt (find_debt h.order_tracking_id tx.cod_debts) tx
      else if not (text_eq payment_status []) && not (equal_fold payment_status (codes "paid"))
      then revert true tx
      else release_funds tx

  -- The order must be delivered or completed.
  unfoldable pub check_status : OrderRow → World → Ending × World
  unfolding check_payment
  check_status o tx =
      let status = Option.get_or o.status [] in
      if not (equal_fold status (codes "delivered")) && not (equal_fold status (codes "completed"))
      then revert false tx
      else check_payment o tx

  unfoldable pub check_disputes : OrderRow → World → Ending × World
  unfolding check_status
  check_disputes o tx =
      if a.dispute_read_fails
      then (failed, w)
      else if has_open_dispute h.order_tracking_id tx.disputes
          || dispute_blocks (Option.get_or o.dispute_status (codes "NONE"))
      then revert false tx
      else check_status o tx

  -- `processHoldTx`. An order that is released already is marked through another connection, which
  -- waits for the row that this transaction has locked: nothing comes of it unless the context ends.
  unfoldable pub process_hold : Option OrderRow → World → Ending × World
  unfolding check_disputes
  process_hold none tx = (returned, w)
  process_hold (some o) tx =
      if a.order_read_fails
      then (returned, w)
      else if Option.get_or o.escrow_released false
      then (if a.context_ends then returned else stalled, w)
      else check_disputes o tx

-- `WHERE id = $1 AND status = 'held' AND hold_until <= NOW()`
unfoldable pub is_claimable : Text → ℕ → EscrowHold → Bool
is_claimable id now h = text_eq h.id id && (is_held h.status && leb h.hold_until now)

-- The claim and what follows; no row is an error.
unfoldable pub claimed : Attempt → Option EscrowHold → World → Ending × World
unfolding process_hold
claimed a none w = (failed, w)
claimed a (some h) w =
    process_hold a h w (find_order h.order_tracking_id w.orders)
      (record w { holds = update_hold h.id (set_status releasing) w.holds })

unfoldable pub release_one_hold : Attempt → Text → World → Ending × World
unfolding claimed is_claimable
release_one_hold a hold_id w =
    if a.begin_fails
    then (failed, w)
    else claimed a (find_hold (is_claimable hold_id a.now) w.holds) w

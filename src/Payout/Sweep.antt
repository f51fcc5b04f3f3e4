-- ===== src/Payout/Sweep.antt =====
-- The payout of one vendor: one transaction of the database, then the ledger's.
use omnigo_app.Common.{
  ◌&&◌, ◌||◌, Bool, true, false, List, [], ◌∷◌, ◌++◌, Option, none, some, if◌then◌else◌,
}
use omnigo_app.Common.Int.{ℤ, pos, ltb_ℤ, leb_ℤ}
use omnigo_app.Common.Text.{Text, codes}
use omnigo_app.Ledger.Models.{TransferRequest, vendor_withdrawable, vendor_bank_payout}
use omnigo_app.Ledger.Tx.{Faults}
use omnigo_app.Ledger.Entries.{Externals}
use omnigo_app.Ledger.Service.{transfer}
use omnigo_app.Escrow.Models.{EscrowHold}
use omnigo_app.Escrow.Process.{is_ok}
use omnigo_app.Wallet.Rows.{bigint}
use omnigo_app.Payout.Rows.{
  Books, VendorPayout, pending_disbursement, ledger_failed, due_holds, sum_amounts, oldest_first,
  find_wallet, mark_paid_out, pay_wallet, set_payout,
}
use omnigo_app.Payout.Fitting.{available_balance, sweep_amount, fitting, final_amount}

-- What the outside does during one vendor's payout: the new UUID, and the calls that fail. After a
-- statement that fails Postgres accepts nothing more in the transaction, its Commit included.
pub record SweepFaults : Type 0 where
  pub payout_id : Text
  pub exists_fails : Bool
  pub dispute_read_fails : Bool
  pub begin_fails : Bool
  -- Whether the database refuses the sum of the released holds. Postgres does: `FOR UPDATE` is not
  -- allowed in a query with an aggregate, so that this is true of every run on it.
  pub sum_refused : Bool
  pub wallet_read_fails : Bool
  pub list_fails : Bool
  pub insert_fails : Bool
  pub mark_fails : Bool
  pub update_fails : Bool
  pub commit_fails : Bool
  pub flag_fails : Bool
  pub ext : Externals
  pub ledger_faults : Faults

abbrev pub has_holds : List EscrowHold → Bool
has_holds [] = false
has_holds (h ∷ hs) = true

unfoldable pub payout_key : Text → Text → Text
payout_key id vendor = codes "payout:" ++ (id ++ (codes ":" ++ vendor))

unfoldable pub payout_request : Text → Text → ℤ → Text → TransferRequest
unfolding payout_key
payout_request id vendor amount description = record {
  debit_account = vendor_withdrawable;
  credit_account = vendor_bank_payout;
  amount = amount;
  currency = [];
  reference_type = codes "vendor_payout";
  reference_id = vendor;
  description = description;
  idempotency_key = payout_key id vendor;
}

-- " — batch " in UTF-8.
abbrev dashed : Text
dashed = codes " " ++ (226 ∷ (128 ∷ (148 ∷ codes " batch ")))

abbrev pub new_payout : Text → Text → ℤ → VendorPayout
new_payout id vendor amount = record {
  id = id;
  vendor_tracking_id = vendor;
  amount_paisa = amount;
  status = pending_disbursement;
  recent = true;
}

module _ (f : SweepFaults) (batch vendor : Text) (b : Books) where
  abbrev pub holds_paid : List EscrowHold → Books
  holds_paid swept = record b { holds = mark_paid_out swept b.holds }

  abbrev pub payout_made : List EscrowHold → ℤ → Books
  payout_made swept amount = record b {
    holds = mark_paid_out swept b.holds;
    wallets = pay_wallet vendor amount b.wallets;
    payouts = new_payout f.payout_id vendor amount ∷ b.payouts;
  }

  abbrev pub own_request : ℤ → TransferRequest
  own_request amount =
      payout_request f.payout_id vendor amount
        (codes "Vendor payout for " ++ (vendor ++ (dashed ++ batch)))

  -- The ledger's transfer after the Commit, and the flag if it fails.
  unfoldable pub post : ℤ → Books → Books
  unfolding payout_request
  post amount made =
      let (r, ledger) = transfer f.ext f.ledger_faults (own_request amount) made.ledger in
      record made {
        ledger = ledger;
        payouts =
            if is_ok r || f.flag_fails
            then made.payouts
            else set_payout ledger_failed f.payout_id made.payouts;
      }

  unfoldable pub write : ℤ → List EscrowHold → ℤ → Books
  unfolding post
  write sweep swept amount =
      let pays = ltb_ℤ (pos 0) amount in
      if f.wallet_read_fails
        || (ltb_ℤ (pos 0) sweep && f.list_fails
            || (pays && (f.insert_fails || f.update_fails)
                || (has_holds swept && f.mark_fails || f.commit_fails)))
      then b
      else if pays
      then post amount (payout_made swept amount)
      else holds_paid swept

  unfoldable pub sweep_total : Option ℤ → Books
  unfolding write sweep_amount
  sweep_total none = b
  sweep_total (some total) =
      let sweep = sweep_amount total (available_balance (find_wallet vendor b.wallets)) in
      let (swept, sum) = fitting sweep (oldest_first (due_holds vendor b.holds)) in
      if leb_ℤ total (pos 0) then b else write sweep swept (final_amount sweep sum)

  -- From the Begin to the end of the loop's body.
  unfoldable pub sweep_vendor : Books
  unfolding sweep_total
  sweep_vendor =
      if f.begin_fails || f.sum_refused
      then b
      else sweep_total (bigint (sum_amounts (due_holds vendor b.holds)))

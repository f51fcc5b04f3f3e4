-- ===== src/Payout/Tests.antt =====
-- A vendor with two released holds of 300 and 500 paisa, 600 in the wallet and 100 to be clawed back.
use mathlib.Core.Option.{some-injective}
use mathlib.Core.Path.{subst}
use omnigo_app.Common.{true, ℕ, ◌*◌, ◌≡◌, refl, false, [], ◌∷◌, ◌++◌, length, some, none, arith}
use omnigo_app.Common.Int
use omnigo_app.Common.Int.{pos}
use omnigo_app.Common.Text.{Text, codes, text_eq}
use omnigo_app.Common.Decimal.{format_nat}
use omnigo_app.Ledger.Models.{empty_db}
use omnigo_app.Ledger.Tx.{no_faults}
use omnigo_app.Ledger.Entries.{Externals}
use omnigo_app.Escrow.Models.{EscrowHold, released}
use omnigo_app.Payout.Rows.{VendorWallet, Books, find_wallet}
use omnigo_app.Payout.Sweep.{SweepFaults}
use omnigo_app.Payout.Fitting.{take_fitting}
use omnigo_app.Payout.Fits.{IsFitting, take_fitting-IsFitting}
use omnigo_app.Payout.Worker.{RunFaults}
use omnigo_app.Common.Floats.{hundredths}
use omnigo_app.Money.{rupees_to_paisa}
use omnigo_app.Payout.Withdraw.{
  WithdrawFaults, WithdrawRequest, VendorDesk, bad_request, request_withdraw, check_balance,
  pay_out, withdraw_for, has_paid,
}
use omnigo_app.Payout.Withdrew.{IsKept, IsWithdrawable, WithdrawOutcome, request_withdraw-Outcome}

abbrev externals : Externals
externals = record {
  new_uuid = λ n. codes "uuid-" ++ format_nat n;
  hmac_hex = λ s. s;
  uuid_to_uint128 = λ s. some 7;
  account_to_uint128 = length;
  md5_uint128 = length;
  has_tb = false;
}

abbrev works : SweepFaults
works = record {
  payout_id = codes "P-1";
  exists_fails = false;
  dispute_read_fails = false;
  begin_fails = false;
  sum_refused = false;
  wallet_read_fails = false;
  list_fails = false;
  insert_fails = false;
  mark_fails = false;
  update_fails = false;
  commit_fails = false;
  flag_fails = false;
  ext = externals;
  ledger_faults = no_faults;
}

abbrev vendor : Text
vendor = codes "V-1"

abbrev older : EscrowHold
older = record {
  id = codes "h1";
  order_tracking_id = codes "ORD-1";
  vendor_tracking_id = vendor;
  amount = pos 300;
  status = released;
  hold_until = 10;
  released_at = some 11;
  dispute_id = none;
  created_at = 1;
}

abbrev newer : EscrowHold
newer = record older { id = codes "h2"; amount = pos 500; hold_until = 20 }

abbrev books : Books
books = record {
  users = vendor ∷ [];
  holds = newer ∷ (older ∷ []);
  disputes = [];
  wallets =
      record {
        vendor_tracking_id = vendor;
        balance_paisa = pos 600;
        total_payouts_paisa = pos 0;
        vendor_clawback_paisa = pos 100;
      }
      ∷ [];
  payouts = [];
  ledger = empty_db;
}

-- A limit of 300 paisa takes the older hold, which fits exactly.
take_fitting-IsFitting_example :
    let (swept, t) = take_fitting (pos 300) (pos 0) (older ∷ (newer ∷ [])) in
    IsFitting (pos 300) (pos 0) (older ∷ (newer ∷ [])) swept t
unfolding Int.◌+ℤ◌
take_fitting-IsFitting_example =
    take_fitting-IsFitting (pos 300) (pos 0) (older ∷ (newer ∷ [])) refl (omega arith) (omega arith)
      (omega arith)

abbrev refused_run : RunFaults
refused_run = record {
  lock_taken = false;
  retry_query_fails = false;
  vendor_query_fails = false;
  retries = λ id. record {
    scan_fails = false;
    update_fails = false;
    ext = externals;
    ledger_faults = no_faults;
  };
  sweeps = λ v. record works { sum_refused = true };
  batch = codes "B-1";
}

-- The vendor asks for 5 rupees by its token, all that the clawback leaves.
abbrev fine : WithdrawFaults
fine = record {
  begin_fails = false;
  read_fails = false;
  clawback_fails = false;
  update_fails = false;
  insert_fails = false;
  commit_fails = false;
}

abbrev rupees : ℕ → WithdrawRequest hundredths
rupees n = record { vendor_tracking_id = []; amount = n * 100; method = codes "bank" }

abbrev desk : VendorDesk hundredths
desk = record { wallets = books.wallets; pending = [] }

books-IsKept : (v : VendorWallet) → find_wallet vendor books.wallets ≡ some v → IsKept v
unfolding find_wallet text_eq
books-IsKept v found = subst IsKept (some-injective _ v found) (record {
  balance_low = omega arith;
  balance_high = omega arith;
  clawback_low = omega arith;
  clawback_high = omega arith;
})

request_withdraw-Outcome_example :
    let (r, t) = request_withdraw hundredths fine vendor (rupees 5) desk in
    WithdrawOutcome hundredths fine vendor (rupees 5) desk t r
request_withdraw-Outcome_example =
    request_withdraw-Outcome hundredths fine vendor (rupees 5)
      (unfold rupees_to_paisa in omega arith) desk books-IsKept

withdraw-IsWithdrawable : IsWithdrawable hundredths fine vendor (rupees 5) desk
unfolding find_wallet text_eq rupees_to_paisa Int.int64 Int.◌-ℤ◌
withdraw-IsWithdrawable = record {
  bound = refl;
  known = refl;
  begins = refl;
  reads = refl;
  updates = refl;
  inserts = refl;
  commits = refl;
  wallet = _;
  found = refl;
  enough = refl;
  covered = omega arith;
}

more_refused : request_withdraw hundredths fine vendor (rupees 6) desk ≡ (bad_request, desk)
unfolding request_withdraw withdraw_for check_balance pay_out has_paid find_wallet text_eq
    rupees_to_paisa Int.int64 Int.◌-ℤ◌
more_refused = refl

-- ===== src/Escrow/Tests.antt =====
-- One hold, on a delivered order that was paid by card, and on one for cash on delivery.
use omnigo_app.Common.{◌≡◌, refl, ◌⊎◌, true, false, List, [], ◌∷◌, length, some, none, ◌++◌, map}
use omnigo_app.Common.Int.{pos}
use omnigo_app.Common.Text.{codes, text_eq, equal_fold, to_upper}
use omnigo_app.Common.Decimal.{format_nat}
use omnigo_app.Ledger.Models.{empty_db, is_valid_account, valid_accounts}
use omnigo_app.Ledger.Tx.{no_faults}
use omnigo_app.Ledger.Entries.{
  Externals, debit_entry, credit_entry, make_entry, debit_key, credit_key,
}
use omnigo_app.Ledger.Rows.{reserve_key, insert_entries, insert_tb_outbox_entry}
use omnigo_app.Ledger.Service.{transfer}
use omnigo_app.Escrow.Models.{
  held, paid_out, EscrowHold, OrderRow, World, find_hold, update_hold, find_order, find_debt,
  has_open_dispute,
}
use omnigo_app.Escrow.Process.{
  Attempt, returned, release_key, release_request, is_claimable, release_one_hold,
}
use omnigo_app.Escrow.Outcome.{Unpaid}
use omnigo_app.Escrow.Repository.{freeze_for_dispute, unfreeze_on_dispute_rejection}
use omnigo_app.Escrow.Unique.{held_again, unfreeze-freeze}
use omnigo_app.Escrow.Scan.{earliest_due, scan}
use omnigo_app.Escrow.Endless.{scan-endless}
use omnigo_app.Escrow.Claimed.{Released}
use omnigo_app.Escrow.Release.{release_one_hold-Unpaid, attempts, attempts-Released}
use omnigo_app.Escrow.Pays.{Succeeds, PaidOut, release_one_hold-PaidOut}

abbrev externals : Externals
externals = record {
  new_uuid = λ n. codes "uuid-" ++ format_nat n;
  hmac_hex = λ s. s;
  uuid_to_uint128 = λ s. some 7;
  account_to_uint128 = length;
  md5_uint128 = length;
  has_tb = false;
}

abbrev attempt : Attempt
attempt = record {
  now = 500;
  hold_hours = 48;
  begin_fails = false;
  order_read_fails = false;
  dispute_read_fails = false;
  debt_read_fails = false;
  created_read_fails = false;
  revert_fails = false;
  release_fails = false;
  order_write_fails = false;
  wallet_fails = false;
  commit_fails = false;
  context_ends = false;
  index_fails = false;
  ext = externals;
  ledger_faults = no_faults;
}

abbrev hold : EscrowHold
hold = record {
  id = codes "h1";
  order_tracking_id = codes "ORD-1";
  vendor_tracking_id = codes "V-1";
  amount = pos 90000;
  status = held;
  hold_until = 400;
  released_at = none;
  dispute_id = none;
  created_at = 100;
}

abbrev order : OrderRow
order = record {
  order_tracking_id = codes "ORD-1";
  escrow_released = some false;
  payment_gateway = some (codes "payfast");
  payment_status = some (codes "paid");
  dispute_status = none;
  status = some (codes "delivered");
}

abbrev world : World
world = record {
  holds = hold ∷ [];
  orders = order ∷ [];
  disputes = [];
  cod_debts = [];
  vendor_wallets = [];
  ledger = empty_db;
  index = codes "h1" ∷ [];
}

-- Cash on delivery, and no debt of the rider on record.
abbrev cash_world : World
cash_world = record world { orders = record order { payment_gateway = some (codes "COD") } ∷ [] }

release_one_hold-Unpaid_example :
    Unpaid cash_world (release_one_hold attempt (codes "h1") cash_world).1
unfolding find_hold is_claimable text_eq find_order find_debt equal_fold to_upper has_open_dispute
release_one_hold-Unpaid_example = release_one_hold-Unpaid attempt (codes "h1") cash_world refl

succeeds : Succeeds attempt hold world
unfolding transfer reserve_key insert_entries insert_tb_outbox_entry is_valid_account valid_accounts
    text_eq format_nat debit_entry credit_entry make_entry debit_key credit_key release_request
    release_key
succeeds = record {
  begins = refl;
  reads_order = refl;
  reads_disputes = refl;
  reads_debts = refl;
  releases = refl;
  writes_order = refl;
  credits = refl;
  commits = refl;
  transfers = refl;
}

release_one_hold-PaidOut_example :
    let (e, w) = release_one_hold attempt (codes "h1") world in
    (e ≡ returned) × PaidOut attempt hold order world w
unfolding find_hold is_claimable text_eq find_order equal_fold to_upper has_open_dispute
release_one_hold-PaidOut_example =
    release_one_hold-PaidOut attempt (codes "h1") world hold order refl refl refl succeeds

-- The first attempt fails at its Commit, after the ledger's own; the second goes through.
abbrev two_attempts : List Attempt
two_attempts = record attempt { commit_fails = true } ∷ attempt ∷ []

attempts-Released_example :
    ((attempts two_attempts (codes "h1") world).ledger ≡ empty_db)
    ⊎ Released (codes "h1") world.holds empty_db (attempts two_attempts (codes "h1") world).ledger
attempts-Released_example = attempts-Released two_attempts (codes "h1") world

-- A hold that was paid out, and a dispute.
unfreeze-freeze_example :
    unfreeze_on_dispute_rejection
      (codes "d1")
      (freeze_for_dispute (codes "ORD-1") (codes "d1") (record hold { status = paid_out } ∷ []))
    ≡ map (held_again (codes "ORD-1")) (record hold { status = paid_out } ∷ [])
unfreeze-freeze_example =
    unfreeze-freeze (codes "ORD-1") (codes "d1") (record hold { status = paid_out } ∷ []) refl

-- The hold is due, and the order has an open dispute.
abbrev disputed_order : OrderRow
disputed_order = record order { dispute_status = some (codes "OPEN") }

abbrev disputed_world : World
disputed_world = record world { orders = disputed_order ∷ [] }

scan-endless_example : scan (λ k. attempt) 1000 0 0 disputed_world ≡ none
unfolding text_eq find_order equal_fold has_open_dispute update_hold earliest_due
scan-endless_example =
    scan-endless (λ k. attempt) hold disputed_order disputed_world
      (λ k. record {
        begins = refl;
        reads_order = refl;
        reads_disputes = refl;
        reverts = refl;
        commits = refl;
      })
      (λ k. refl) (record { found = refl; unreleased = refl; disputed = refl; held_rows = refl })
      1000 0 0

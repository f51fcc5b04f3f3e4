-- ===== src/Ledger/Tests.antt =====
-- The ledger on one order.
use omnigo_app.Common.{◌≡◌, refl, ◌⊎◌, true, [], ◌∷◌, ◌++◌, length, some}
use omnigo_app.Common.Int.{pos, ◌+ℤ◌}
use omnigo_app.Common.Text.{codes, text_eq}
use omnigo_app.Common.Decimal.{format_nat}
use omnigo_app.Ledger.Models.{
  TransferRequest, Db, empty_db, central_escrow, vendor_pending_escrow, cash_receivable,
  is_valid_account, valid_accounts,
}
use omnigo_app.Ledger.Tx.{no_faults, ok}
use omnigo_app.Ledger.Entries.{
  Externals, debit_key, credit_key, debit_entry, credit_entry, make_entry,
}
use omnigo_app.Ledger.Rows.{
  find_entry, existing, reserve_key, insert_entries, insert_tb_outbox_entry,
}
use omnigo_app.Ledger.Service.{transfer, multi_transfer, balance, sum_by}
use omnigo_app.Ledger.Conservation.{total, net, transfer-total, transfer-balance}
use omnigo_app.Ledger.Multi.{MultiCommitted, multi_transfer-cases}
use omnigo_app.Ledger.Replay.{Runs, start, after_multi, Runs-total, IsValidRequest, transfer-replay}
use omnigo_app.Ledger.Progress.{transfer-ok}
use omnigo_app.Common.Floats.{hundredths}
use omnigo_app.Ledger.Escrow.{release_escrow_to_vendor}
use omnigo_app.Ledger.Mirror.{IsMirrored, queued, transfer-IsMirrored}

abbrev pub test_externals : Externals
test_externals = record {
  new_uuid = λ n. codes "uuid-" ++ format_nat n;
  hmac_hex = λ s. s;
  uuid_to_uint128 = λ s. some 7;
  account_to_uint128 = length;
  md5_uint128 = length;
  has_tb = true;
}

-- 1200 rupees of an order move from the central escrow to the vendor's.
abbrev move : TransferRequest
move = record {
  debit_account = central_escrow;
  credit_account = vendor_pending_escrow;
  amount = pos 120000;
  currency = [];
  reference_type = codes "order";
  reference_id = codes "ORD-1";
  description = [];
  idempotency_key = codes "k";
}

abbrev moved : Db
moved = (transfer test_externals no_faults move empty_db).1

transfer-total_example : total moved ≡ total empty_db
transfer-total_example = transfer-total test_externals no_faults move empty_db

move_valid : IsValidRequest move
unfolding is_valid_account valid_accounts text_eq
move_valid = record { debit_valid = refl; credit_valid = refl; positive = refl; distinct = refl }

transfer-ok_example : (transfer test_externals no_faults move empty_db).0 ≡ ok (codes "uuid-0")
unfolding format_nat
transfer-ok_example =
    transfer-ok test_externals move empty_db {id = 7} move_valid refl refl refl refl

move_done : transfer test_externals no_faults move empty_db ≡ (ok (codes "uuid-0"), moved)
unfolding transfer reserve_key insert_entries insert_tb_outbox_entry is_valid_account valid_accounts
    text_eq format_nat debit_entry credit_entry make_entry debit_key credit_key
move_done = refl

transfer-balance_example :
    balance vendor_pending_escrow moved
    ≡ balance vendor_pending_escrow empty_db +ℤ net vendor_pending_escrow move
transfer-balance_example =
    transfer-balance test_externals no_faults move empty_db vendor_pending_escrow refl move_done

-- A second caller with other contents under the same key, after a multi-transfer of that request.
abbrev other : TransferRequest
other = record move { debit_account = cash_receivable; amount = pos 5 }

abbrev later_externals : Externals
later_externals = record test_externals { new_uuid = λ n. codes "later-" ++ format_nat n }

abbrev moved_again : Db
moved_again = (multi_transfer later_externals no_faults (other ∷ []) moved).1

run : Runs moved moved_again
run = after_multi start later_externals no_faults (other ∷ []) refl

Runs-total_example : total moved_again ≡ total moved
Runs-total_example = Runs-total run

multi_transfer-cases_example :
    (moved_again ≡ moved)
    ⊎ (((multi_transfer later_externals no_faults (other ∷ []) moved).0
          ≡ ok (later_externals.new_uuid 0))
        × MultiCommitted later_externals no_faults (other ∷ []) moved moved_again)
multi_transfer-cases_example = multi_transfer-cases later_externals no_faults (other ∷ []) moved

transfer-replay_example :
    transfer later_externals no_faults other moved_again ≡ (ok (codes "uuid-0"), moved_again)
unfolding transfer multi_transfer reserve_key existing find_entry insert_entries
    insert_tb_outbox_entry is_valid_account valid_accounts text_eq format_nat debit_entry
    credit_entry make_entry debit_key credit_key
transfer-replay_example =
    transfer-replay test_externals later_externals no_faults no_faults move other empty_db moved
      moved_again refl refl move_done run refl refl
      (record { debit_valid = refl; credit_valid = refl; positive = refl; distinct = refl })
      (record { begins = refl; reserves = refl; finds = refl })

empty_db-IsMirrored : IsMirrored test_externals empty_db
unfolding IsMirrored sum_by queued
empty_db-IsMirrored n = refl

transfer-IsMirrored_example : IsMirrored test_externals moved
transfer-IsMirrored_example =
    transfer-IsMirrored test_externals no_faults move empty_db refl refl empty_db-IsMirrored

-- The amount 0 is refused.
abbrev nothing : TransferRequest
nothing = record move { amount = pos 0; idempotency_key = codes "n" }

-- The commission of one rupee at 2% is 2 paisa; that of ten paisa rounds to nothing.
abbrev ten_paisa_result : Db
ten_paisa_result =
    (release_escrow_to_vendor test_externals no_faults hundredths (codes "ORD-1") (pos 10) 200
      empty_db).1

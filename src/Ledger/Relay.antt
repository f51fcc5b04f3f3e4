-- ===== src/Ledger/Relay.antt =====
-- backend/go-services/internal/ledger/tb_outbox.go and tb_outbox_worker.go: the relay of queued
-- transfers to TigerBeetle, with a bounded number of retries.
use mathlib.Core.Option
use omnigo_app.Common.{
  ℕ, zero, suc, ◌+◌, ◌≤◌, ◌<◌, ◌≡◌, refl, Bool, true, false, List, [], ◌∷◌, ◌++◌, any, take, length,
  arith, ◌==◌, leb, if◌then◌else◌, Option, none, some, ap, ◌∙◌,
}
use omnigo_app.Ledger.Models.{
  TbTransfer, TbOutboxEntry, OutboxStatus, pending, processing, completed, failed,
}

abbrev pub is_pending : OutboxStatus → Bool
is_pending pending = true
is_pending processing = false
is_pending completed = false
is_pending failed = false

abbrev pub Outbox : Type 0
Outbox = List TbOutboxEntry

-- `WHERE id = $1`
unfoldable pub update_row : ℕ → (TbOutboxEntry → TbOutboxEntry) → Outbox → Outbox
update_row id f [] = []
update_row id f (r ∷ rows) = (if r.id == id then f r else r) ∷ update_row id f rows

unfoldable pub mark_completed : ℕ → Outbox → Outbox
unfolding update_row
mark_completed id = update_row id (λ r. record r { status = completed })

-- The last retry leaves the row FAILED.
unfoldable pub mark_failed : ℕ → ℕ → Outbox → Outbox
unfolding update_row
mark_failed id max_retries = update_row id λ r. record r {
  retry_count = r.retry_count + 1;
  status = if leb max_retries (r.retry_count + 1) then failed else pending;
}

-- The oldest PENDING rows; the table is newest first.
unfoldable pub pending_rows : Outbox → Outbox
pending_rows [] = []
pending_rows (r ∷ rows) =
    let older = pending_rows rows in if is_pending r.status then older ++ r ∷ [] else older

unfoldable pub fetch_pending : ℕ → Outbox → Outbox
unfolding pending_rows
fetch_pending limit rows = take limit (pending_rows rows)

-- `create` is CreateTransfers of the client: whether TigerBeetle accepts the transfers.
unfoldable pub process_entry : (List TbTransfer → Bool) → TbOutboxEntry → Outbox → Outbox
unfolding mark_completed mark_failed
process_entry create entry rows =
    if create entry.payload
    then mark_completed entry.id rows
    else mark_failed entry.id entry.max_retries rows

unfoldable pub process_entries : (List TbTransfer → Bool) → List TbOutboxEntry → Outbox → Outbox
unfolding process_entry
process_entries create [] rows = rows
process_entries create (e ∷ es) rows = process_entries create es (process_entry create e rows)

-- One poll of the worker, whose batch holds fifty rows.
unfoldable pub process_batch : (List TbTransfer → Bool) → Outbox → Outbox
unfolding process_entries fetch_pending
process_batch create rows = process_entries create (fetch_pending 50 rows) rows

unfoldable pub find_row : ℕ → Outbox → Option TbOutboxEntry
find_row id [] = none
find_row id (r ∷ rows) = if r.id == id then some r else find_row id rows

find_row-update_row :
    (id : ℕ) (f : TbOutboxEntry → TbOutboxEntry) (rows : Outbox) {r : TbOutboxEntry}
    → ((x : TbOutboxEntry) → (f x).id ≡ x.id)
    → find_row id rows ≡ some r
    → find_row id (update_row id f rows) ≡ some (f r)
unfolding find_row update_row
find_row-update_row id f [] keeps h = ground arith
find_row-update_row id f (x ∷ rows) {r} keeps h =
    ground (arith, keeps x, find_row-update_row id f rows {r = r} keeps)

-- One answer of TigerBeetle for a row: only a PENDING row is sent.
attempt : Bool → Outbox → Option TbOutboxEntry → Outbox
unfolding process_entry
attempt accepted rows none = rows
attempt accepted rows (some r) =
    if is_pending r.status then process_entry (λ _. accepted) r rows else rows

-- A row under a list of answers, one for each poll.
unfoldable pub relay : ℕ → List Bool → Outbox → Outbox
unfolding attempt
relay id [] rows = rows
relay id (accepted ∷ answers) rows = relay id answers (attempt accepted rows (find_row id rows))

pub status_of : ℕ → Outbox → Option OutboxStatus
status_of id rows = Option.map (λ r. r.status) (find_row id rows)

relay_done :
    (id : ℕ) (answers : List Bool) (rows : Outbox) (r : TbOutboxEntry)
    → find_row id rows ≡ some r
    → is_pending r.status ≡ false
    → relay id answers rows ≡ rows
unfolding relay
relay_done id [] rows r h done = refl
relay_done id (a ∷ answers) rows r h done = rw (h, done) (relay_done id answers rows r h done)

abbrev accept : TbOutboxEntry → TbOutboxEntry
accept r = record r { status = completed }

abbrev refuse : ℕ → TbOutboxEntry → TbOutboxEntry
refuse max_retries r = record r {
  retry_count = r.retry_count + 1;
  status = if leb max_retries (r.retry_count + 1) then failed else pending;
}

find_accepted :
    (id : ℕ) (rows : Outbox) (r : TbOutboxEntry)
    → find_row id rows ≡ some r
    → find_row id (mark_completed id rows) ≡ some (accept r)
unfolding mark_completed
find_accepted id rows r h = find_row-update_row id accept rows (λ x. refl) h

find_refused :
    (id : ℕ) (rows : Outbox) (r : TbOutboxEntry)
    → find_row id rows ≡ some r
    → find_row id (mark_failed id r.max_retries rows) ≡ some (refuse r.max_retries r)
unfolding mark_failed
find_refused id rows r h = find_row-update_row id (refuse r.max_retries) rows (λ x. refl) h

-- A PENDING row with `budget` retries left.
pub record IsWaiting (id budget : ℕ) (rows : Outbox) (r : TbOutboxEntry) : Type 0 where
  pub found : find_row id rows ≡ some r
  pub own_id : r.id ≡ id
  pub waits : r.status ≡ pending
  pub left : r.retry_count + budget ≡ r.max_retries

attempt_accepted :
    (id budget : ℕ) (rows : Outbox) (r : TbOutboxEntry)
    → IsWaiting id budget rows r
    → attempt true rows (find_row id rows) ≡ mark_completed id rows
unfolding attempt
attempt_accepted id budget rows r w = rw (w.found, w.waits, w.own_id)

attempt_refused :
    (id budget : ℕ) (rows : Outbox) (r : TbOutboxEntry)
    → IsWaiting id budget rows r
    → attempt false rows (find_row id rows) ≡ mark_failed id r.max_retries rows
unfolding attempt
attempt_refused id budget rows r w = rw (w.found, w.waits, w.own_id)

waits_again :
    (id budget : ℕ) (rows : Outbox) (r : TbOutboxEntry)
    → IsWaiting id (suc (suc budget)) rows r
    → IsWaiting id (suc budget) (mark_failed id r.max_retries rows) (refuse r.max_retries r)
waits_again id budget rows r w = record {
  found = find_refused id rows r w.found;
  own_id = w.own_id;
  waits = not_yet r.max_retries r.retry_count budget w.left;
  left = omega (arith, w.left);
}
  where
    not_yet :
        (max n budget : ℕ)
        → n + suc (suc budget) ≡ max
        → (if leb max (n + 1) then failed else pending) ≡ pending
    not_yet max n budget h = ground arith

-- A row that is no longer PENDING keeps its status.
stays :
    (id : ℕ) (answers : List Bool) (rows : Outbox) (r : TbOutboxEntry)
    → find_row id rows ≡ some r
    → is_pending r.status ≡ false
    → status_of id (relay id answers rows) ≡ some r.status
unfolding status_of
stays id answers rows r h done = rw (relay_done id answers rows r h done, h)

-- If one of the answers within the budget is an acceptance, the row ends COMPLETED, however many
-- polls follow.
pub relay-completed :
    (id : ℕ) (answers : List Bool) (budget : ℕ) (rows : Outbox) (r : TbOutboxEntry)
    → IsWaiting id budget rows r
    → any (λ a. a) (take budget answers) ≡ true
    → status_of id (relay id answers rows) ≡ some completed
unfolding relay
relay-completed id answers zero rows r w h = cc
relay-completed id [] (suc budget) rows r w h = cc
relay-completed id (true ∷ answers) (suc budget) rows r w h =
    rw (attempt_accepted id (suc budget) rows r w)
      (stays id answers _ (accept r) (find_accepted id rows r w.found) refl)
relay-completed id (false ∷ answers) (suc zero) rows r w h = cc
relay-completed id (false ∷ answers) (suc (suc budget)) rows r w h =
    rw (attempt_refused id (suc (suc budget)) rows r w)
      (relay-completed id answers (suc budget) _ _ (waits_again id budget rows r w) h)

-- If every answer within the budget is a refusal, and there are that many, the row ends FAILED.
pub relay-failed :
    (id : ℕ) (answers : List Bool) (budget : ℕ) (rows : Outbox) (r : TbOutboxEntry)
    → 0 < budget
    → IsWaiting id budget rows r
    → budget ≤ length answers
    → any (λ a. a) (take budget answers) ≡ false
    → status_of id (relay id answers rows) ≡ some failed
unfolding relay
relay-failed id answers zero rows r p w k h = absurd (omega arith)
relay-failed id [] (suc budget) rows r p w k h = absurd (omega arith)
relay-failed id (true ∷ answers) (suc budget) rows r p w k h = cc
relay-failed id (false ∷ answers) (suc zero) rows r p w k h =
    let spent : (if leb r.max_retries (r.retry_count + 1) then failed else pending) ≡ failed =
      used_up r.max_retries r.retry_count w.left in
    rw (attempt_refused id 1 rows r w) (
      stays id answers _ (refuse r.max_retries r) (find_refused id rows r w.found) (rw spent refl)
      ∙ ap some spent)
  where
    used_up : (max n : ℕ) → n + 1 ≡ max → (if leb max (n + 1) then failed else pending) ≡ failed
    used_up max n h = ground arith
relay-failed id (false ∷ answers) (suc (suc budget)) rows r p w k h =
    rw (attempt_refused id (suc (suc budget)) rows r w) (
      relay-failed id answers (suc budget) _ _ (omega arith) (waits_again id budget rows r w)
        (omega arith) h)

-- ===== src/Escrow/Endless.antt =====
-- The scan of ReleaseExpiredHolds meets a due hold of an order with an open dispute.
use mathlib.Core.Option
use omnigo_app.Common.{
  ℕ, zero, suc, ◌≡◌, refl, ap, ◌∙◌, true, false, ◌||◌, List, [], ◌∷◌, none, some, arith,
}
use omnigo_app.Common.Text.{Text, codes}
use omnigo_app.Escrow.Models.{
  held, releasing, EscrowHold, OrderRow, World, update_hold, find_order, has_open_dispute,
}
use omnigo_app.Escrow.Process.{
  Attempt, returned, set_status, revert, check_disputes, process_hold, dispute_blocks,
}
use omnigo_app.Escrow.Scan.{earliest_due, scan}

update_hold-update_hold :
    (id : Text) (hs : List EscrowHold)
    → update_hold id (set_status held) (update_hold id (set_status releasing) hs)
      ≡ update_hold id (set_status held) hs
unfolding update_hold
update_hold-update_hold id [] = refl
update_hold-update_hold id (h ∷ hs) = ground (arith, update_hold-update_hold id hs)

-- No call of the transaction fails.
pub record Undisturbed (a : Attempt) : Type 0 where
  pub begins : a.begin_fails ≡ false
  pub reads_order : a.order_read_fails ≡ false
  pub reads_disputes : a.dispute_read_fails ≡ false
  pub reverts : a.revert_fails ≡ false
  pub commits : a.commit_fails ≡ false

-- A hold in the table whose order is unreleased and disputed; every row under its id is held.
pub record Disputed (h : EscrowHold) (o : OrderRow) (w : World) : Type 0 where
  pub found : find_order h.order_tracking_id w.orders ≡ some o
  pub unreleased : Option.get_or o.escrow_released false ≡ false
  pub disputed :
      has_open_dispute h.order_tracking_id w.disputes
        || dispute_blocks (Option.get_or o.dispute_status (codes "NONE"))
      ≡ true
  pub held_rows : update_hold h.id (set_status held) w.holds ≡ w.holds

process_hold-reverts :
    (a : Attempt) (h : EscrowHold) (o : OrderRow) (w : World)
    → Undisturbed a
    → Disputed h o w
    → process_hold a h w
        (some o)
        (record w { holds = update_hold h.id (set_status releasing) w.holds })
      ≡ (returned, w)
unfolding process_hold check_disputes revert
process_hold-reverts a h o w s d =
    rw (s.reads_order, d.unreleased, s.reads_disputes, d.disputed, s.reverts, s.commits)
      (ap (λ (hs : List EscrowHold). (returned, record w { holds = hs }))
        (update_hold-update_hold h.id w.holds ∙ d.held_rows))

-- If a due hold that is the earliest at every attempt belongs to an unreleased order with an open
-- dispute, every row under its identifier is held, and nothing fails, then the scan of Postgres never
-- ends: no fuel is enough.
pub scan-endless :
    (attempt_at : ℕ → Attempt) (h : EscrowHold) (o : OrderRow) (w : World)
    → ((k : ℕ) → Undisturbed (attempt_at k))
    → ((k : ℕ) → earliest_due (attempt_at k).now w.holds ≡ some h)
    → Disputed h o w
    → (fuel k n : ℕ) → scan attempt_at fuel k n w ≡ none
unfolding scan
scan-endless attempt_at h o w s due d zero k n = refl
scan-endless attempt_at h o w s due d (suc fuel) k n =
    rw ((s k).begins, due k, d.found, process_hold-reverts (attempt_at k) h o w (s k) d)
      (scan-endless attempt_at h o w s due d fuel (suc k) (suc n))

-- ===== src/Escrow/Scan.antt =====
-- ReleaseExpiredHolds of backend/go-services/internal/escrow/service.go: the candidates of the Redis
-- index, or the scan of Postgres when it gives none.
use omnigo_app.Common.{
  ℕ, zero, suc, Bool, true, false, ◌&&◌, not, leb, List, [], ◌∷◌, Option, none, some, if◌then◌else◌,
}
use omnigo_app.Common.Text.{Text}
use omnigo_app.Escrow.Models.{releasing, EscrowHold, World, is_held, update_hold, find_order}
use omnigo_app.Escrow.Process.{
  Attempt, Ending, returned, failed, stalled, set_status, remove_id, process_hold, release_one_hold,
}

-- How the method ends, and how many holds it counts as released.
abbrev pub Report : Type 0
Report = Ending × ℕ × World

abbrev counted_from : Ending → ℕ → ℕ
counted_from returned n = suc n
counted_from failed n = n
counted_from stalled n = n

abbrev is_stalled : Ending → Bool
is_stalled stalled = true
is_stalled _ = false

-- `WHERE status = 'held' AND hold_until <= NOW() ORDER BY hold_until LIMIT 1`
unfoldable pub earliest_due : ℕ → List EscrowHold → Option EscrowHold
earliest_due now [] = none
earliest_due now (h ∷ hs) =
    let rest = earliest_due now hs in
    if is_held h.status && leb h.hold_until now then earlier h rest else rest
  where
    earlier : EscrowHold → Option EscrowHold → Option EscrowHold
    earlier h none = some h
    earlier h (some g) = if leb h.hold_until g.hold_until then some h else some g

abbrev pub claim_row : EscrowHold → World → World
claim_row h w = record w { holds = update_hold h.id (set_status releasing) w.holds }

abbrev process_claimed : Attempt → EscrowHold → World → Ending × World
process_claimed a h w = process_hold a h w (find_order h.order_tracking_id w.orders) (claim_row h w)

abbrev without_ids : List Text → List Text → List Text
without_ids [] index = index
without_ids (id ∷ ids) index = without_ids ids (remove_id id index)

abbrev is_empty : List Text → Bool
is_empty [] = true
is_empty (id ∷ ids) = false

module _ (attempt_at : ℕ → Attempt) where
  -- The scan, on fuel; `none` is out of fuel. No other worker holds a lock.
  unfoldable pub scan : ℕ → ℕ → ℕ → World → Option Report
  unfolding earliest_due
  scan zero k n w = none
  scan (suc fuel) k n w =
      if (attempt_at k).begin_fails
      then some (failed, n, w)
      else elim (earliest_due (attempt_at k).now w.holds) [
        | none ↦ some (returned, n, w)
        | some h ↦
            let (e, w') = process_claimed (attempt_at k) h w in
            let rest = scan fuel (suc k) (counted_from e n) w' in
            if is_stalled e then some (stalled, n, w') else rest
      ]

  module _ (is_uuid : Text → Bool) where
    -- The loop over the candidates: a hold whose release returns no error is counted, also where the
    -- release was skipped.
    unfoldable pub release_candidates : List Text → ℕ → ℕ → World → Report
    release_candidates [] k n w = (returned, n, w)
    release_candidates (id ∷ ids) k n w =
        let (e, w') = release_one_hold (attempt_at k) id w in
        let rest = release_candidates ids (suc k) (counted_from e n) w' in
        let skipped = release_candidates ids k n w in
        if not (is_uuid id) then skipped else if is_stalled e then (stalled, n, w') else rest

    -- `claimed_ids` is what ClaimExpired took out of the index: nothing where Redis fails.
    unfoldable pub release_expired_holds : ℕ → List Text → World → Option Report
    unfolding scan release_candidates
    release_expired_holds fuel claimed_ids w =
        if is_empty claimed_ids
        then scan fuel 0 0 w
        else some (
            release_candidates claimed_ids 0 0
              (record w { index = without_ids claimed_ids w.index }))

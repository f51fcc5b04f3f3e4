-- ===== src/Cod/Booked.antt =====
-- What a settlement does to the ledger.
use omnigo_app.Common.{
  ◌≡◌, refl, ◌∙◌, inl, inr, Bool, true, false, not, ◌&&◌, Option, none, some, arith, if◌then◌else◌,
}
use omnigo_app.Common.Text.{Text, codes, text_eq}
use omnigo_app.Common.Floats.{Float}
use omnigo_app.Commission.{SplitResult}
use omnigo_app.Ledger.Models.{Db}
use omnigo_app.Ledger.Tx.{Result, ok, err}
use omnigo_app.Ledger.Service.{multi_transfer}
use omnigo_app.Ledger.Multi.{MultiCommitted, multi_transfer-cases}
use omnigo_app.Escrow.Repository.{Holds, create_hold_rows}
use omnigo_app.Payout.Withdraw.{has_text}
use omnigo_app.Cod.Rows.{CodDebt, CodOrder, CodBooks, debt_and_order, has_event}
use omnigo_app.Cod.Settle.{
  CodAnswer, bad_request, already_processed, settlement_failed, forbidden, server_error, CodCall,
  CodSettlementRequest, settlement_requests, split_of, commit_settlement, write_settlement,
  after_ledger, settle, settlement, vendor_hold, may_settle, is_bound, resolve_vendor_id,
}

module _ (float : Float) (getenv : Text → Text) where
  module _ (c : CodCall float getenv) (req : CodSettlementRequest float getenv) where
    commit_settlement-ledger :
        (tx_id : Text) (d : CodDebt) (b : CodBooks) (h : Bool × Holds)
        → (commit_settlement float getenv c req tx_id d b h).1.ledger ≡ b.ledger
    commit_settlement-ledger tx_id d b (false, hs) = refl
    commit_settlement-ledger tx_id d b (true, hs) = ground arith

    write_settlement-ledger :
        (tx_id : Text) (d : CodDebt) (vendor : Text) (split : SplitResult float) (b : CodBooks)
        → (write_settlement float getenv c req tx_id d vendor split b).1.ledger ≡ b.ledger
    unfolding write_settlement
    write_settlement-ledger tx_id d vendor split b = ground (
      arith,
      commit_settlement-ledger tx_id d b (
          create_hold_rows c.hold_answers (vendor_hold float getenv c d vendor split.vendor_escrow)
            b.holds),
    )

    after_ledger-ledger :
        (d : CodDebt) (vendor : Text) (split : SplitResult float) (b : CodBooks)
        (r : Result Text × Db)
        → (after_ledger float getenv c req d vendor split b r).1.ledger ≡ r.1
    after_ledger-ledger d vendor split b (err e, db) = refl
    after_ledger-ledger d vendor split b (ok tx_id, db) =
        write_settlement-ledger tx_id d vendor split (record b { ledger = db })

    -- The ledger as it was, or after the requests for the debt that was found.
    pub data Booking (b b' : CodBooks) : Type 0 where
      unbooked : b'.ledger ≡ b.ledger → Booking b b'
      booked :
          (d : CodDebt) (o : CodOrder)
          → debt_and_order req.cod_debt_id b ≡ some (d, o)
          → MultiCommitted c.ext c.ledger_faults
              (settlement_requests float getenv req.webhook_event_id d
                (split_of float getenv c d o))
              b.ledger
              b'.ledger
          → Booking b b'

    abbrev Books : CodBooks → CodAnswer × CodBooks → Type 0
    Books b r = Booking b r.1

    either-Booking :
        (b : CodBooks) (t : Bool) (r r' : CodAnswer × CodBooks)
        → Books b r
        → Books b r'
        → Books b (if t then r else r')
    either-Booking b true r r' k k' = k
    either-Booking b false r r' k k' = k'

    after_ledger-Booking :
        (d : CodDebt) (o : CodOrder) (vendor : Text) (b : CodBooks)
        → debt_and_order req.cod_debt_id b ≡ some (d, o)
        → let split = split_of float getenv c d o in
          Booking b
            (after_ledger float getenv c req d vendor split b (
              multi_transfer c.ext c.ledger_faults
                (settlement_requests float getenv req.webhook_event_id d split)
                b.ledger)).1
    after_ledger-Booking d o vendor b found =
        let split = split_of float getenv c d o in
        let reqs = settlement_requests float getenv req.webhook_event_id d split in
        let same =
          after_ledger-ledger d vendor split b
            (multi_transfer c.ext c.ledger_faults reqs b.ledger) in
        elim (multi_transfer-cases c.ext c.ledger_faults reqs b.ledger) [
          | inl nothing ↦ unbooked (same ∙ nothing)
          | inr (done, commits) ↦ booked d o found (rw same commits)
        ]

    settle-Booking :
        (b : CodBooks) (r : Option (CodDebt × CodOrder))
        → ((p : CodDebt × CodOrder) → r ≡ some p → debt_and_order req.cod_debt_id b ≡ some p)
        → Books b (settle float getenv c req b r)
    unfolding settle
    settle-Booking b none h = unbooked refl
    settle-Booking b (some (d, o)) h =
        let vendor = resolve_vendor_id c.vendor_user_id o.vendor_tracking_id o.store_tracking_id in
        either-Booking b (not (may_settle float getenv c d)) (forbidden, b) _ (unbooked refl)
          (either-Booking b (not (has_text vendor)) (server_error, b) _ (unbooked refl)
            (after_ledger-Booking d o vendor b (h (d, o) refl)))

    pub settlement-Booking : (b : CodBooks) → Books b (settlement float getenv c req b)
    unfolding settlement
    settlement-Booking b =
        either-Booking b (not (is_bound float getenv req)) (bad_request, b) _ (unbooked refl)
          (either-Booking b (not c.exists_fails && has_event req.webhook_event_id b.debts)
            (already_processed, b) _ (unbooked refl)
            (either-Booking b (not (text_eq req.status (codes "success"))) (settlement_failed, b) _
              (unbooked refl) (settle-Booking b _ (read c.debt_read_fails))))
      where
        read :
            (t : Bool) (p : CodDebt × CodOrder)
            → (if t then none else debt_and_order req.cod_debt_id b) ≡ some p
            → debt_and_order req.cod_debt_id b ≡ some p
        read true p h = absurd (ground (arith, h))
        read false p h = h

-- ===== src/Cod/Zero.antt =====
-- A share that is nothing blocks the whole settlement.
use omnigo_app.Common.{◌≡◌, refl, ◌⊎◌, inl, inr, true, false, ◌&&◌, some, arith, all}
use omnigo_app.Common.Int.{ℤ, pos, ltb_ℤ}
use omnigo_app.Common.Text.{Text}
use omnigo_app.Common.Floats.{Float}
use omnigo_app.Commission.{SplitResult}
use omnigo_app.Ledger.Net.{MultiCommitted-positive}
use omnigo_app.Cod.Rows.{CodDebt, CodOrder, CodBooks, debt_and_order}
use omnigo_app.Cod.Settle.{
  CodCall, CodSettlementRequest, clear_request, admin_request, vendor_request, settlement_requests,
  split_of, settlement,
}
use omnigo_app.Cod.Booked.{unbooked, booked, settlement-Booking}

module _ (float : Float) (getenv : Text → Text) where
  positive-parts :
      (event : Text) (d : CodDebt) (split : SplitResult float)
      → all (λ r. ltb_ℤ (pos 0) r.amount) (settlement_requests float getenv event d split) ≡ true
      → (ltb_ℤ (pos 0) split.admin_revenue && ltb_ℤ (pos 0) split.vendor_escrow) ≡ true
  unfolding settlement_requests clear_request admin_request vendor_request
  positive-parts event d split a = ground (arith, a)

  no_part : (a v : ℤ) → (a ≡ pos 0) ⊎ (v ≡ pos 0) → (ltb_ℤ (pos 0) a && ltb_ℤ (pos 0) v) ≡ false
  no_part a v (inl none) = rw none refl
  no_part a v (inr none) = rw none (ground arith)

  -- Where the split of the debt leaves the platform or the vendor nothing, a settlement writes nothing
  -- to the ledger, although the rider has paid.
  pub settlement-zero :
      (c : CodCall float getenv) (req : CodSettlementRequest float getenv) (b : CodBooks)
      → ((d : CodDebt) (o : CodOrder)
          → debt_and_order req.cod_debt_id b ≡ some (d, o)
          → ((split_of float getenv c d o).admin_revenue ≡ pos 0)
            ⊎ ((split_of float getenv c d o).vendor_escrow ≡ pos 0))
      → (settlement float getenv c req b).1.ledger ≡ b.ledger
  settlement-zero c req b zero = elim (settlement-Booking float getenv c req b) [
    | unbooked e ↦ e
    | booked d o found commits ↦
        let split = split_of float getenv c d o in
        let parts =
          positive-parts req.webhook_event_id d split
            (MultiCommitted-positive c.ext c.ledger_faults _ b.ledger _ commits) in
        let none = no_part split.admin_revenue split.vendor_escrow (zero d o found) in
        cc (parts, none)
  ]

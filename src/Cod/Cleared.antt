-- ===== src/Cod/Cleared.antt =====
-- What is left of a payment once it has been split.
use omnigo_app.Common.{◌≡◌, refl, ap, ◌∙◌, inl, inr, Bool-cases, some, arith}
use omnigo_app.Common.Int.{ℤ, pos, neg, ◌+ℤ◌, ◌≤ℤ◌, ltb_ℤ, int_laws}
use omnigo_app.Common.Text.{Text, text_eq}
use omnigo_app.Common.Floats.{Float}
use omnigo_app.Commission.{SplitResult, share, cod_rate, fee_paisa}
use omnigo_app.Commission.Laws.{IsSplit, Fits, calculate_cod_split-IsSplit}
use omnigo_app.Ledger.Models.{cash_receivable}
use omnigo_app.Ledger.Service.{balance}
use omnigo_app.Ledger.Conservation.{net}
use omnigo_app.Ledger.Net.{net_all, MultiCommitted-balance}
use omnigo_app.Cod.Rows.{CodDebt, CodOrder, CodBooks, debt_and_order}
use omnigo_app.Cod.Settle.{
  CodCall, CodSettlementRequest, clear_request, admin_request, vendor_request, delivery_request,
  settlement_requests, split_of, settlement,
}
use omnigo_app.Cod.Booked.{unbooked, booked, settlement-Booking}

four_parts :
    (total a v e : ℤ)
    → a +ℤ v +ℤ e ≡ total
    → total +ℤ pos 0 +ℤ (pos 0 +ℤ neg a +ℤ (pos 0 +ℤ neg v +ℤ (pos 0 +ℤ neg e +ℤ pos 0))) ≡ pos 0
four_parts total a v e whole = rw (← whole) (omega int_laws)

three_parts :
    (total a v e : ℤ)
    → a +ℤ v +ℤ e ≡ total
    → pos 0 ≤ℤ e
    → e ≤ℤ pos 0
    → total +ℤ pos 0 +ℤ (pos 0 +ℤ neg a +ℤ (pos 0 +ℤ neg v +ℤ pos 0)) ≡ pos 0
three_parts total a v e whole low high = rw (← whole) (omega int_laws)

module _ (float : Float) (getenv : Text → Text) where
  cash-net :
      (event : Text) (d : CodDebt) (split : SplitResult float) (share fee : ℤ)
      → IsSplit d.amount_owed share fee split
      → net_all cash_receivable (settlement_requests float getenv event d split) ≡ pos 0
  unfolding settlement_requests clear_request admin_request vendor_request delivery_request net
      text_eq
  cash-net event d split share fee s = elim (Bool-cases (ltb_ℤ (pos 0) split.delivery_escrow)) [
    | inl fee ↦ rw fee (four_parts _ _ _ split.delivery_escrow s.whole)
    | inr free ↦
        rw free
          (three_parts _ _ _ split.delivery_escrow s.whole s.delivery_nonneg (ground (arith, free)))
  ]

  -- For a debt whose amount, rounded share of the platform and delivery fee are in range, a settlement
  -- leaves nothing in the account of cash: all that a rider has paid in is given away.
  pub settlement-clears :
      (c : CodCall float getenv) (req : CodSettlementRequest float getenv) (b : CodBooks)
      → ((d : CodDebt) (o : CodOrder)
          → debt_and_order req.cod_debt_id b ≡ some (d, o)
          → Fits float d.amount_owed
              (share float d.amount_owed (cod_rate float getenv c.stored_rate))
              (fee_paisa float d.order_tracking_id c.delivery_fee))
      → balance cash_receivable (settlement float getenv c req b).1.ledger
        ≡ balance cash_receivable b.ledger
  settlement-clears c req b fits = elim (settlement-Booking float getenv c req b) [
    | unbooked e ↦ rw e refl
    | booked d o found commits ↦
        MultiCommitted-balance c.ext c.ledger_faults cash_receivable _ b.ledger _ commits
        ∙ ap (λ n. n +ℤ balance cash_receivable b.ledger)
            (cash-net req.webhook_event_id d (split_of float getenv c d o) _ _ (
              calculate_cod_split-IsSplit float getenv c.stored_rate d.amount_owed
                d.order_tracking_id c.delivery_fee (fits d o found)))
        ∙ nothing (balance cash_receivable b.ledger)
  ]
    where
      nothing : (a : ℤ) → pos 0 +ℤ a ≡ a
      nothing a = omega int_laws

-- ===== src/Return/Calls.antt =====
-- The methods of the service as one kind of call, and histories of calls.
use omnigo_app.Common.{Bool, List, [], ◌∷◌}
use omnigo_app.Common.Text.{Text}
use omnigo_app.Return.Service.{
  EscrowManager, ReturnStore, ReturnCall, request_return, update_status, assign_rider,
  record_pickup, record_delivery_to_vendor, complete_return, cancel_return,
}
use omnigo_app.Return.Dispute.{verify_by_vendor, auto_resolve_stale_disputes}

pub data ReturnMethod : Type 0 where
  requesting : (order customer reason : Text) → ReturnMethod
  updating : (id status : Text) → ReturnMethod
  assigning : (id rider gig : Text) → ReturnMethod
  picking_up : (id photo otp : Text) → ReturnMethod
  delivering : (id photo : Text) → ReturnMethod
  verifying : (id : Text) (verified : Bool) (photo notes : Text) → ReturnMethod
  completing : (id : Text) → ReturnMethod
  cancelling : (id : Text) → ReturnMethod
  resolving : ReturnMethod

module _ {S : Type 0} (escrow : EscrowManager S) (has_escrow : Bool) where
  unfoldable pub call_return : ReturnCall → ReturnMethod → ReturnStore S → Bool × ReturnStore S
  call_return c (requesting order customer reason) s =
      request_return escrow has_escrow c order customer reason s
  call_return c (updating id status) s = update_status escrow has_escrow c id status s
  call_return c (assigning id rider gig) s = assign_rider escrow has_escrow c id rider gig s
  call_return c (picking_up id photo otp) s = record_pickup escrow has_escrow c id photo otp s
  call_return c (delivering id photo) s = record_delivery_to_vendor escrow has_escrow c id photo s
  call_return c (verifying id verified photo notes) s =
      verify_by_vendor escrow has_escrow c id verified photo notes s
  call_return c (completing id) s = complete_return escrow has_escrow c id s
  call_return c (cancelling id) s = cancel_return escrow has_escrow c id s
  call_return c resolving s = auto_resolve_stale_disputes escrow has_escrow c s

  unfoldable pub call_returns : List (ReturnCall × ReturnMethod) → ReturnStore S → ReturnStore S
  call_returns [] s = s
  call_returns ((c, m) ∷ calls) s = call_returns calls (call_return c m s).1

-- ===== src/Cod.antt =====
-- backend/go-services/internal/payment_orchestrator/handlers/cod_handler.go: cash on delivery, from
-- the rider's confirmation to the settlement of the debt.
pub mod Rows
pub mod Confirm
pub mod Settle
pub mod Booked
pub mod Once
pub mod Cleared
pub mod Settled
pub mod Zero
mod Tests

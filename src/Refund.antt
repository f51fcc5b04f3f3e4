-- ===== src/Refund.antt =====
-- backend/go-services/internal/escrow/service.go: refunds of disputes and returns, and clawbacks.
mod Tests
pub mod Rows
pub mod Service
pub mod Accepted
pub mod Outcome
pub mod Once
pub mod Attempts
pub mod Overlap

-- ===== src/Payout.antt =====
-- backend/go-services/internal/payment_orchestrator/: workers/payout_worker.go, the sweep of released
-- holds into payouts to vendors, and handlers/vendor_handler.go, a vendor's own withdrawal.
mod Tests
pub mod Rows
pub mod Fitting
pub mod Sweep
pub mod Worker
pub mod Fits
pub mod Wallets
pub mod Refused
pub mod Withdraw
pub mod Withdrew

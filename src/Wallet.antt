-- ===== src/Wallet.antt =====
-- backend/go-services/internal/wallet/service: the wallets of customers and riders.
mod Tests
pub mod Rows
pub mod Customer
pub mod Rider
pub mod Withdrawal
pub mod Withdrawn
pub mod Spec
pub mod Refine
pub mod Bounds
pub mod Again

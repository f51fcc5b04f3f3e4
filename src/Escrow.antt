-- ===== src/Escrow.antt =====
-- backend/go-services/internal/escrow: holds on the vendors' money, from delivery to release.
pub mod Models
pub mod Process
pub mod Terms
pub mod Outcome
pub mod Claimed
pub mod Release
pub mod Pays
pub mod Repository
pub mod Unique
pub mod Created
pub mod Scan
pub mod Endless
mod Tests

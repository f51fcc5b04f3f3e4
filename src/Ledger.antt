-- ===== src/Ledger.antt =====
-- backend/go-services/internal/ledger: the double-entry ledger over its Postgres tables.
pub mod Models
pub mod Tx
pub mod Entries
pub mod Rows
pub mod Service
pub mod Outcome
pub mod Conservation
pub mod Multi
pub mod Net
pub mod Found
pub mod Replay
pub mod Progress
pub mod Mirror
pub mod Escrow
pub mod Relay
mod Tests

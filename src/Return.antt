-- ===== src/Return.antt =====
-- backend/go-services/internal/return: returns of delivered orders.
mod Tests
pub mod Rows
pub mod Service
pub mod Dispute
pub mod Calls
pub mod Unread
pub mod Stuck

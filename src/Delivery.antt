-- ===== src/Delivery.antt =====
-- Deliveries and the riders that carry them: internal/delivery/repository/delivery_repository.go.
pub mod Rows
pub mod Gigs
pub mod Update
pub mod Statuses
pub mod Moves
pub mod Walk
pub mod Completed
pub mod Refused
pub mod Accepted
mod Tests

-- ===== src/Breaker.antt =====
-- backend/go-services/internal/payment/payfast: the circuit breaker around the payment gateway, and
-- the errors that it counts.
pub mod Errors
pub mod Defs
pub mod Steps
pub mod Trips
pub mod Issuer
mod Tests

-- ===== src/Limiter.antt =====
-- backend/go-services/internal/payment_orchestrator/security/ratelimit.go: how many requests of one
-- caller the payment endpoints take.
pub mod Defs
pub mod Window
mod Tests

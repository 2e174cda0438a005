-- ===== src/Infra.antt =====
-- src/async_gateway/infra: the concurrency slots, the adaptive polling and the token bucket.
pub mod Limiter
pub mod Polling
pub mod AcceptLimiter

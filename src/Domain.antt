-- ===== src/Domain.antt =====
-- src/async_gateway/domain: the task states, the transition whitelist, the classification of
-- upstream errors and the backoff curve.
pub mod Status
pub mod Transitions
pub mod Errors
pub mod Backoff

-- ===== src/Gateway.antt =====
-- src/async_gateway/gateway: what the gateway takes from callers and shows to them.
pub mod Output
pub mod Native
pub mod Envelope
pub mod Routing
pub mod Callbacks
pub mod Idempotency
pub mod Submission
pub mod Accept
pub mod Inline

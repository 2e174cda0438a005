-- ===== src/Bus.antt =====
-- src/async_gateway/bus: the message bus within the process.
pub mod Memory

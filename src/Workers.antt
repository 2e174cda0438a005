-- ===== src/Workers.antt =====
-- src/async_gateway/workers: the processes that run the handlers, dispatch due tasks and look after
-- stuck ones.
pub mod Session
pub mod Scheduler
pub mod Inspector
pub mod Unknowns
pub mod Tick
pub mod Keeps
pub mod Consumer

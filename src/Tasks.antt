-- ===== src/Tasks.antt =====
-- src/async_gateway/tasks: the handlers that move a task through its life.
pub mod Queues
pub mod World
pub mod Runtime
pub mod Submit
pub mod Poll
pub mod Compensate
pub mod Cancel
pub mod Store
pub mod Dispatch

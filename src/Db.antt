-- ===== src/Db.antt =====
-- src/async_gateway/db: the task table, the conditional updates of it, the queries on it and the audit
-- log.
pub mod Json
pub mod Task
pub mod Assign
pub mod Dao
pub mod Audit

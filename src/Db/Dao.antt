-- ===== src/Db/Dao.antt =====
-- src/async_gateway/db/dao.py: the write paths of `TaskDAO`. Every one of them is a conditional
-- update: an UPDATE of the rows with the given id whose status is one of the expected ones. `now`
-- is the clock's reading. A method returns whether a row was written, and the table.
pub mod Cas
pub mod Writes
pub mod Queries
pub mod Rows
pub mod Steps
pub mod Advance
pub mod Keeps
pub mod Calls
pub mod History
pub mod Intents
pub mod Exclusion
pub mod Closing
pub mod Inserts
pub use Cas.*
pub use Writes.*

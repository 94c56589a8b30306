-- ===== src/Database.antt =====
-- src/database.rs: the handle of a database and the keeper of an in-memory one.
--
-- The keeper's state is in the `World`: whether its connection is there, and the flag `lost`. One task
-- is at work on a `World`; Concurrent has the steps of many on the keeper and the pool.
mod Defs
mod Builder
pub mod Concurrent
pub mod Keeping
pub mod Reached
pub mod Handle
pub mod Opened
pub mod Refused
pub mod Tests
unfoldable pub use Defs.{keeper_check, check_lease, check, close}

-- ===== src/Lock.antt =====
-- src/lock.rs: the selector of a row lock, its builder, and the SQL that it turns into.
--
-- `Lock.row`, `Lock.key` and `Lock.statement` are `new_row`, `key` and `statement`. A key's value
-- comes as the result of encoding it, which the application's `Encode` decides.
mod Defs
pub mod Builder
pub mod Quoting
pub mod Tests
pub use Defs.{Lock}
unfoldable pub use Defs.{identifier, new_row, key, statement}

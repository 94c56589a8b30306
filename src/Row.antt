-- ===== src/Row.antt =====
-- src/row.rs: result rows, the lookup of a column by its name, and the decoding of a cell.
--
-- A row is its backend and its columns, each with its name and its cell. `unique_column` takes the
-- names of the columns, as the source does.
mod Defs
pub mod Columns
pub mod Decoding
pub mod Tests
pub use Defs.{Backend, Row}
unfoldable pub use Defs.{unique_column, decode_driver, value, try_get, sqlite_value}

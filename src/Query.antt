-- ===== src/Query.antt =====
-- src/query.rs, src/stream.rs and src/mapped.rs: an owned set of bindings, and its execution on a database or in a transaction.
--
-- The target is the function that runs the query: on a `World` for `Target::Database`, on a
-- `Transaction` for `Target::Transaction`.
mod Defs
pub mod Stream
mod Mapped
pub mod Binding
pub mod Live
pub mod Trace
pub mod Fetching
pub mod Streaming
pub mod Tests
pub use Defs.{Query, bind_all, convert_all, convert_first}
unfoldable pub use Defs.{
  new_query, bind, on_database, in_transaction, fetch_optional, fetch_one, fetch_all, execute,
}

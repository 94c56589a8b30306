-- ===== src/Driver.antt =====
-- src/driver.rs: binding the arguments, running a statement on a connection of either backend, the
-- probes by which PostgreSQL's parameters are counted, and the pooled connections.
--
-- A value's SQLx type is named by the kind of the Rust type. A borrowed connection is the `World`.
mod Arguments
mod Prepare
mod Execute
mod Stream
pub mod Probes
pub mod Streams
pub mod Leases
pub mod Refusals
pub mod Rounds
pub mod Savepoints
pub mod Trace
pub mod Binding
pub mod Tests
unfoldable pub use Arguments.{sqlite_argument, postgres_argument, arguments}
pub use Prepare.{savepoint_text, rollback_text, release_text}
unfoldable pub use Prepare.{
  raw_sql, indeterminate_parameter, parameter_resolution_error, postgres_probe, postgres_prepare,
  postgres_statement,
}
pub use Execute.{Output, is_bind_count}
unfoldable pub use Execute.{
  run_mode, guarded, sqlite_execute, postgres_execute, sqlite_on, postgres_on, with_lease, sqlite,
  postgres,
}
pub use Stream.{Stop, Taken, backend_rows, refuse, nothing, started, is_ended}
unfoldable pub use Stream.{read_rows, sqlite_rows, postgres_rows, rows}

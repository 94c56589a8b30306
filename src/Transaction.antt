-- ===== src/Transaction.antt =====
-- src/transaction.rs: an owned write transaction.
--
-- A method that borrows the transaction is an action on its state; `commit` and `rollback` consume
-- it, so they end in its drop and leave the world. Where an action is cancelled, the state is what
-- the dropped future leaves behind.
mod Defs
mod Methods
mod Cursor
pub mod Poison
pub mod Ending
pub mod Loss
pub mod Trace
pub mod Cursors
pub mod Refinement
pub mod Tests
pub use Defs.{Transaction, on_world}
unfoldable pub use Defs.{
  control, begin, drop_transaction, consume, begin_text, commit_text, rollback_text,
}
unfoldable pub use Methods.{run_statement, run, batch, lock, require_lock, commit, rollback}
pub use Cursor.{is_clean}
pub use Methods.{is_postgres}
unfoldable pub use Cursor.{rows}

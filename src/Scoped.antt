-- ===== src/Scoped.antt =====
-- src/scoped.rs: ambient write scopes.
--
-- One scope is a state, and what the application's task does with it are polls and drops of the
-- futures and streams that the scope hands out, in any order. A future of the transaction that is
-- under way is a parameter, `Futures`: what a poll of it gives and leaves; Transactions fills it from
-- the model of transactions.
pub mod Defs
mod Operate
mod Rows
pub mod Enter
pub mod Schedule
pub mod Soundness
pub mod Operations
pub mod Streams
pub mod Invariant
pub mod Writes
pub mod Closing
pub mod Entering
pub mod Transactions
pub mod Work
pub mod Buffered
pub mod Mirrors
pub mod Programs
pub mod Explicit
pub mod Routes
pub mod Handle
pub mod Tests

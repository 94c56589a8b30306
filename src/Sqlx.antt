-- ===== src/Sqlx.antt =====
-- The driver library SQLx as the crate sees it, and the monad of the asynchronous code.
--
-- SQLx and the servers behind it are a parameter, `Server`: each answer is a function of the
-- commands sent so far, newest first, the one that is answered included. So a theorem about every
-- `Server` speaks about every behaviour of the library, of the server and of other clients. An
-- answer is `none` where the future that waits for it is dropped (the task is cancelled there).
--
-- `World` is what the crate's code shares with SQLx: the commands sent, whether the progress
-- handler that is installed on the SQLite connection interrupts, and the keeper connection of an
-- in-memory database with the flag of the pool (src/database.rs).
mod Defs
pub mod Sends
pub mod Raises
pub use Defs.{
  Mode, Command, Answer, answered, failed, SqlxRow, Server, Keeper, World, Outcome, returned,
  raised, cancelled, Io, pure, raise, lift, attempt, ◌>>=◌, ◌>>◌, modify, when, expect, send, ask,
  call, wait,
}

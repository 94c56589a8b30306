-- ===== src/Lib.antt =====
-- sqly: a typed facade over SQLx for SQLite and PostgreSQL, src/*.rs.
--
-- A `Query` (src/query.rs) binds values (src/value.rs) to SQL of two dialects (src/sql.rs) and
-- runs on a `Database` or in a `Transaction`; the driver module binds the arguments for SQLx,
-- prepares the statement, compares the number of bindings with the number of parameters, and runs
-- it. Rows come back through src/row.rs. A transaction (src/transaction.rs) keeps a flag by which
-- a failed or cancelled operation poisons it, and a `Lock` (src/lock.rs) is a selector that
-- becomes a locking SELECT. An ambient scope (src/scoped.rs) keeps a transaction for the task
-- that is in it, with the one operation or stream that may use it. The migration runner
-- (src/migrate.rs) compares a ledger with its migrations. An application of the crate,
-- consumers/warehouse/src/lib.rs, reserves stock in ambient scopes.
--
-- Files, and the code that they are about:
--   Shared          tests on numbers, lists, signed integers, texts as bytes
--   Error           src/error.rs, and commit_error of src/transaction.rs
--   Foreign         the types and calls of other libraries: f64, uuid, time, serde_json, cells
--   Value           src/value.rs: validate, into_value, from_value, the Option impls, timestamp
--   Row             src/row.rs: unique_column, value, try_get
--   Lock            src/lock.rs: identifier, Lock::row, Lock::key, Lock::statement
--   Sqlx            the interface of SQLx, and the monad of the asynchronous code
--   Driver          src/driver.rs
--   Sql             src/sql.rs
--   Database        src/database.rs: DatabaseBuilder, Keeper::check, check_lease, check, close;
--                   Concurrent has the steps of many tasks on the keeper and the pool
--   Transaction     src/transaction.rs
--   Query           src/query.rs without the scoped target, src/stream.rs, src/mapped.rs
--   Migrate         src/migrate.rs: the configuration, the ledger, what is pending, apply and run
--   Options         src/options.rs: validate of both backends, from_str
--   Scoped          src/scoped.rs: the scope's state, operate, ScopedRows, enter, the handle with
--                   its buffered queries and locks; the scoped target of src/query.rs
--   Warehouse       consumers/warehouse/src/lib.rs
--   Validation      .ai/validation/src/lib.rs: the probe of the public traits
--   Sample          concrete libraries, a server and states for the tests
-- A component's Defs (of the driver: Arguments, Prepare, Execute, Stream; of errors also
-- Classify and Show; of transactions also Methods and Cursor; of migrations also Ledger and
-- Apply; of options also Url; of values also Timestamp and Codec; of scopes also Operate,
-- Rows, Enter, Work, Buffered and Handle; of databases also Builder and Concurrent; of the
-- warehouse Items, Defs and Setup) has its definitions, the other children its theorems, and
-- Tests the theorems at concrete inputs.
--
-- The Rust functions keep their names, except where one file would have two of a name: Lock::row
-- is new_row, Migration::new is new_migration, and Query::run is on_database and in_transaction,
-- for its two targets.
--
-- SQLx, the servers, SHA-256, and the values of other libraries are parameters. SQLx is a record
-- of functions from the commands sent so far to an answer, so that it may answer anything,
-- depending on all that came before; no answer means that the waiting future is dropped. Strings
-- are lists of bytes. Integers of a bounded width are unbounded where the code only compares
-- them; the bounds of 32-bit integers are checked where src/row.rs narrows to them. Loops are
-- structural recursion: the probing loop of postgres_prepare recurs on its number of hints, so no
-- fuel is needed. In a scope the futures of a transaction are a parameter: what one poll gives
-- and leaves; the steps of the scope are polls and drops in any order, and pointers are numbers.
-- Scoped/Transactions fills the parameter from the model of transactions. A stream of rows is
-- what it does for a consumer that polls it a given number of times and drops it.
--
-- What an action executes is the trace of its log (Driver/Trace): the statements with their
-- arguments and the control texts, without the savepoints of preparations.
--
-- Not modelled: Debug, and builds without the optional features. In a scope a task awaits one
-- operation at a time in Buffered, and a future that does not answer at its first poll is dropped;
-- Schedule has any polls and drops.
pub mod Shared
pub mod Sample
pub mod Error
pub mod Foreign
pub mod Value
pub mod Warehouse
pub mod Validation
pub mod Row
pub mod Scoped
pub mod Lock
pub mod Sqlx
pub mod Driver
pub mod Sql
pub mod Options
pub mod Database
pub mod Transaction
pub mod Query
pub mod Migrate

-- ===== src/Scoped/Buffered.antt =====
-- src/scoped.rs and src/query.rs: the buffered operations of a scoped database, in a scope and
-- outside of every scope.
--
-- The task awaits one operation after the other: a future that does not answer at its first poll is
-- dropped, and the task with it. Inside a scope the state is the scope, outside it is the pool's.
use sqly.Foreign.{Foreign}
use sqly.Error.{Error, ok, err, ok_or}
use sqly.Shared.{Option, Bool, ℕ, List, if◌then◌else◌, none, some, true}
use sqly.Value.{Value}
use sqly.Sql.{Sql}
use sqly.Lock.{Lock}
use sqly.Row.{Backend}
use sqly.Driver.{Output}
use sqly.Query.{Query, new_query, on_database}
use sqly.Sqlx.{
  Io, Mode, Outcome, Server, World, returned, raised, cancelled, lift, pure, raise, ◌>>=◌,
}
use sqly.Scoped.Defs.{Scope, Active, Poll, OperationOutput, active}
use sqly.Scoped.Operate.{Operate, Answer, poll_operate, drop_operate}
use sqly.Scoped.Transactions.{Call, transaction_futures}

module _ {F : Foreign} where
  -- `Query::scoped` and `Query::values`; the target is the function that runs the query.
  unfoldable pub scoped : Sql → Query F
  unfolding new_query
  scoped sql = new_query sql

  unfoldable pub values : Sql → List (Value F) → Query F
  unfolding new_query
  values sql given = record (new_query sql) { values = given }

  -- The match on what an operation gives; `unreachable!` is an end without a result.
  abbrev pub query_output : {S : Type 0} → OperationOutput F → Io S (Output F)
  query_output (OperationOutput.query output) s = (returned output, s)
  query_output (OperationOutput.locked found) s = (cancelled, s)

  abbrev pub lock_output : {S : Type 0} → OperationOutput F → Io S Bool
  lock_output (OperationOutput.locked found) s = (returned found, s)
  lock_output (OperationOutput.query output) s = (cancelled, s)

module _ {F : Foreign} (S : Server F) where
  abbrev pub TransactionScope : Type 0
  TransactionScope = Scope (transaction_futures S)

  abbrev pub awaited :
      Answer (transaction_futures S) × Operate (transaction_futures S) × TransactionScope
      → Outcome (OperationOutput F) × TransactionScope
  awaited (Poll.ready (ok output), call, s) = (returned output, s)
  awaited (Poll.ready (err e), call, s) = (raised e, s)
  awaited (Poll.pending, call, s) = (cancelled, drop_operate (transaction_futures S) call s)

  -- `scope.operate(…).await`
  unfoldable pub operate : Option Active → Call F → Io TransactionScope (OperationOutput F)
  unfolding poll_operate drop_operate
  operate current call s =
      awaited (poll_operate (transaction_futures S) current true (Operate.created call) s)

  -- The handle is that of the database `db`, and the task-local shows `current`. Without a scope
  -- there is no state of one; what happens then is `run_outside`.
  module _ (db : ℕ) (current : Option Active) where
    -- `self.active()?.ok_or(Error::NoActiveWriteScope)?`
    abbrev pub required : Io TransactionScope ℕ
    required = do shown ← lift (active db current); lift (ok_or Error.no_active_write_scope shown)

    unfoldable pub lock : Lock F → Io TransactionScope Bool
    unfolding operate active
    lock l = do scope ← required; output ← operate current (Call.lock_call l); lock_output output

    unfoldable pub require_lock : Lock F → Io TransactionScope (Unit {0})
    unfolding lock
    require_lock l = do found ← lock l; if found then pure tt else raise Error.lock_not_found

    -- `ScopedDatabase::run` where the task-local shows a scope.
    unfoldable pub run_inside : Sql → List (Value F) → Mode → Io TransactionScope (Output F)
    unfolding operate active
    run_inside sql given mode = do
      scope ← required
      output ← operate current (Call.run_call sql given mode)
      query_output output

    -- `Query::run` with the target `Scoped`, in a scope.
    unfoldable pub inside_scope : Query F → Mode → Io TransactionScope (Output F)
    unfolding run_inside
    inside_scope q mode = elim q.error [ none ↦ run_inside q.sql q.values mode | some e ↦ raise e ]

  -- `ScopedDatabase::run` where the task-local shows no scope.
  unfoldable pub run_outside :
      Backend → Bool → Sql → List (Value F) → Mode → Io (World F) (Output F)
  unfolding on_database values
  run_outside b read sql given mode =
      if read then on_database S b (values sql given) mode else raise Error.no_active_write_scope

  unfoldable pub outside_scope : Backend → Bool → Query F → Mode → Io (World F) (Output F)
  unfolding run_outside
  outside_scope b read q mode = elim q.error [
    | none ↦ run_outside b read q.sql q.values mode
    | some e ↦ raise e
  ]

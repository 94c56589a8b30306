-- ===== src/Transaction/Tests.antt =====
-- The theorems on transactions at concrete inputs.
use sqly.Transaction.Trace.{run_statement-trace}
use sqly.Driver.Trace.{executed, trace}
use sqly.Transaction.Refinement.{Phase, after_all, phase, verdicts, perform_all-refines}
use sqly.Transaction.Loss.{check-lost}
use sqly.Database.{check, check_lease}
use sqly.Shared.Bytes.{bytes, Text}
use sqly.Sqlx.{returned, World, Command, Mode, raised, cancelled}
use sqly.Shared.Int.{pos}
use sqly.Shared.{not, ◌∷◌, ◌⊎◌, List, ◌≡◌, [], some, true, false, refl}
use sqly.Sample.{idle, libraries, server, begun, poisoned}
use sqly.Transaction.Defs.{begin, control}
use sqly.Transaction.Methods.{run_statement, run, commit, rollback}
use sqly.Transaction.Poison.{Operation, is_local_outcome, perform_all, run_statement-aborted}
use sqly.Transaction.Ending.{commits, newest, commit-poisoned, ending_lem}
use sqly.Row.{Backend}
use sqly.Value.{Value}
use sqly.Error.{Error}
use sqly.Sql.{from_text}

abbrev insert_text : Text
insert_text = bytes "INSERT INTO account VALUES ($1, $2)"

abbrev row_values : List (Value libraries)
row_values = Value.i64 (pos 7) ∷ Value.text (bytes "a") ∷ []

-- The server counts other parameters than these: a wrong number of bindings is a local error.
run_statement-aborted_example :
    (run_statement server insert_text row_values Mode.execute (begun Backend.postgres)).1.aborted
    ≡ not (
        is_local_outcome
          (run_statement server insert_text row_values Mode.execute (begun Backend.postgres)).0)
run_statement-aborted_example =
    run_statement-aborted server insert_text row_values Mode.execute (begun Backend.postgres) refl

abbrev work : List (Operation libraries)
work =
    Operation.statement_of (from_text insert_text) row_values Mode.execute
    ∷ Operation.batch_of (from_text (bytes "SELECT 1"))
    ∷ []

commit-poisoned_example :
    (((commit server poisoned).0 ≡ raised Error.transaction_aborted)
      ⊎ ((commit server poisoned).0 ≡ cancelled))
    × (commits (commit server poisoned).1.log ≡ commits poisoned.world.log)
    × (newest (commit server poisoned).1.log ≡ some Command.discard)
commit-poisoned_example = commit-poisoned server poisoned refl refl

ending_lem_example :
    (newest (commit server (begun Backend.postgres)).1.log ≡ some Command.release)
    × (newest (rollback server (begun Backend.postgres)).1.log ≡ some Command.release)
unfolding commit rollback sqly.Database.check_lease control sqly.Driver.raw_sql
ending_lem_example = ending_lem server (begun Backend.postgres) refl

-- An in-memory database whose keeper has lost its connection, which no check has seen yet.
abbrev keeperless : World libraries
keeperless = record idle { keeper = some (record { connected = false; lost = false }) }

check-lost_example :
    (check server (check server keeperless).1
      ≡ (raised Error.database_lost, (check server keeperless).1))
    × (check_lease server (check server keeperless).1
        ≡ (raised Error.database_lost, (check server keeperless).1))
    × (begin server Backend.sqlite (check server keeperless).1
        ≡ (raised Error.database_lost, (check server keeperless).1))
unfolding check
check-lost_example = check-lost server Backend.sqlite keeperless refl

-- A batch that the server carries out, and a lock on a name that is not an identifier.
abbrev batch_and_lock : List (Operation libraries)
batch_and_lock =
    Operation.batch_of (record { sqlite = bytes "DELETE FROM a"; postgres = bytes "DELETE FROM a" })
    ∷ Operation.lock_of (bytes "not a name") []
    ∷ []

verdicts-batch_and_lock : verdicts server batch_and_lock (begun Backend.sqlite) ≡ true ∷ true ∷ []
unfolding sqly.Transaction.Methods.batch sqly.Transaction.Methods.lock check_lease control
    sqly.Driver.raw_sql sqly.Lock.statement sqly.Lock.new_row
verdicts-batch_and_lock = refl

perform_all-refines_example :
    (phase server (perform_all server batch_and_lock (begun Backend.sqlite))
      ≡ after_all Phase.live (verdicts server batch_and_lock (begun Backend.sqlite)))
    × ((commit server (perform_all server batch_and_lock (begun Backend.sqlite))).0 ≡ returned tt
        → after_all Phase.live (verdicts server batch_and_lock (begun Backend.sqlite)) ≡ Phase.live)
perform_all-refines_example = perform_all-refines server batch_and_lock (begun Backend.sqlite)

abbrev one_value : List (Value libraries)
one_value = Value.text (bytes "a") ∷ []

run_statement-trace_example :
    (trace
        (run_statement server insert_text one_value Mode.execute
          (begun Backend.postgres)).1.world.log
      ≡ executed insert_text Backend.postgres one_value ∷ [])
    × ((run_statement server insert_text one_value Mode.execute (begun Backend.postgres)).1.backend
        ≡ Backend.postgres)
unfolding run_statement check_lease sqly.Driver.postgres_on sqly.Driver.arguments
    sqly.Driver.postgres_argument sqly.Driver.postgres_execute sqly.Driver.postgres_statement
    sqly.Driver.raw_sql sqly.Driver.postgres_prepare sqly.Driver.postgres_probe
    sqly.Driver.parameter_resolution_error
run_statement-trace_example =
    run_statement-trace server insert_text one_value Mode.execute (begun Backend.postgres)
      (record { rows = []; affected = 3 }) refl

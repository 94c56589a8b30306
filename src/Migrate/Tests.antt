-- ===== src/Migrate/Tests.antt =====
-- The theorems on migrations at concrete inputs.
use sqly.Migrate.Executed.{migrated}
use sqly.Driver.Trace.{Event, trace}
use sqly.Migrate.Ledger.{ledger_row}
use sqly.Query.{in_transaction, fetch_all}
use sqly.Sample.{server, libraries, idle}
use sqly.Transaction.{commit_text, Transaction, commit, begin_text}
use sqly.Migrate.Sequence.{selected}
use sqly.Migrate.Complete.{opening, run-executed}
use sqly.Migrate.Apply.{select_query, adopt_rows, apply, run, finished, ran_of}
use sqly.Migrate.Runs.{run-commit}
use sqly.Row.{Backend}
use sqly.Sqlx.{returned, Server, Command, answered}
use sqly.Shared.Bytes.{Text, bytes}
use sqly.Shared.Int.{◌≤ℤ◌, pos}
use sqly.Shared.{some, ◌≤◌, All, length, ◌<◌, ◌↔◌, ◌≡◌, List, ◌∷◌, [], none, false, refl, arith}
use sqly.Migrate.Defs.{
  Migration, Migrator, LedgerRow, try_new, validate, pending, last_version, contains_nul, done,
}
use sqly.Migrate.Order.{Ascends, LacksNul, try_new_lem}
use sqly.Migrate.Plan.{entries, recorded, IsDated, up_to, validate_iff, pending_lem, pending-again}
use sqly.Sql.{from_text}

abbrev created : Migration
created = record {
  version = pos 1;
  description = bytes "create";
  sql = from_text (bytes "CREATE TABLE t (a)");
  checksum = bytes "c1";
}

abbrev indexed : Migration
indexed = record {
  version = pos 4;
  description = bytes "index";
  sql = from_text (bytes "CREATE INDEX i ON t (a)");
  checksum = bytes "c4";
}

abbrev dropped : Migration
dropped = record {
  version = pos 9;
  description = bytes "drop";
  sql = from_text (bytes "DROP TABLE t");
  checksum = bytes "c9";
}

abbrev three : List Migration
three = created ∷ indexed ∷ dropped ∷ []

-- The last migration is above the target.
abbrev runner : Migrator
runner = record {
  namespace = bytes "app";
  migrations = three;
  target = pos 4;
  minimum = pos 0;
  legacy = none;
}

abbrev first_row : LedgerRow
first_row = record {
  version = pos 1;
  description = bytes "create";
  checksum = bytes "c1";
  applied_at = bytes "then";
}

abbrev second_row : LedgerRow
second_row = record {
  version = pos 4;
  description = bytes "index";
  checksum = bytes "c4";
  applied_at = bytes "now";
}

abbrev last_runner : Migrator
last_runner = record {
  namespace = bytes "app";
  migrations = three;
  target = pos 9;
  minimum = pos 0;
  legacy = none;
}

try_new_lem_example :
    (last_runner.namespace ≡ bytes "app")
    × (last_runner.migrations ≡ three)
    × (0 < length (bytes "app"))
    × (length (bytes "app") ≤ 255)
    × (contains_nul (bytes "app") ≡ false)
    × Ascends (pos 0) three
    × All LacksNul three
    × (last_runner.target ≡ last_version three)
    × (last_runner.minimum ≡ pos 0)
    × (last_runner.legacy ≡ none)
unfolding try_new
try_new_lem_example = try_new_lem (bytes "app") three last_runner refl

validate_iff_example : (validate runner (first_row ∷ []) ≡ done tt) ↔ (
    (entries (first_row ∷ []) ≡ recorded (created ∷ []))
    × All IsDated (first_row ∷ [])
    × (pos 1 ≤ℤ pos 4))
validate_iff_example = validate_iff runner (first_row ∷ [])

three-Ascends : Ascends (pos 0) three
three-Ascends = ground arith

pending_lem_example : created ∷ pending runner 1 ≡ up_to (pos 4) three
unfolding validate
pending_lem_example = pending_lem runner (first_row ∷ []) three-Ascends (ground arith) refl

pending-again_example :
    (validate runner (first_row ∷ second_row ∷ []) ≡ done tt) × (pending runner 2 ≡ [])
unfolding validate pending
pending-again_example =
    pending-again runner (first_row ∷ []) (first_row ∷ second_row ∷ []) three-Ascends (ground arith)
      refl refl (ground arith)

-- A server whose tables are empty.
abbrev quiet : Server libraries
quiet = record server { fetches_all = λ log. some (answered []) }

abbrev no_hash : Text → Text
no_hash t = t

abbrev opened : Transaction libraries
opened = record {
  world = record idle {
    log = Command.raw (begin_text Backend.sqlite) ∷ Command.lock_handle ∷ Command.acquire ∷ [];
  };
  backend = Backend.sqlite;
  aborted = false;
  finished = false;
}

run-commit_example :
    ((apply quiet no_hash runner opened).1.aborted ≡ false)
    × (run quiet no_hash runner Backend.sqlite idle ≡ (
      ran_of (commit quiet (apply quiet no_hash runner opened).1).0,
      (commit quiet (apply quiet no_hash runner opened).1).1,
    ))
unfolding sqly.Transaction.begin sqly.Database.check sqly.Driver.raw_sql apply
    sqly.Transaction.batch sqly.Database.check_lease sqly.Query.fetch_all sqly.Query.in_transaction
    sqly.Query.bind sqly.Query.new_query sqly.Value.into_value sqly.Transaction.run
    sqly.Driver.sqlite_on sqly.Driver.arguments sqly.Driver.sqlite_argument
    sqly.Driver.sqlite_execute validate sqly.Migrate.Apply.adopt sqly.Migrate.Apply.apply_all
    pending sqly.Query.execute
run-commit_example = run-commit quiet no_hash runner Backend.sqlite idle opened refl refl

run-executed_example :
    (read : Transaction libraries) × (found : List LedgerRow) × ((fetch_all
        (in_transaction quiet (select_query quiet no_hash runner))
        ledger_row
        read).0
      ≡ returned found)
    × (trace read.world.log ≡ opening quiet no_hash runner Backend.sqlite idle)
    × (sqly.Migrate.Defs.validate runner found ≡ done tt)
    × (trace (run quiet no_hash runner Backend.sqlite idle).1.log
        ≡ Event.control commit_text
          ∷ migrated quiet no_hash runner Backend.sqlite (pending runner (length found)) (
              selected quiet no_hash runner Backend.sqlite
              ∷ opening quiet no_hash runner Backend.sqlite idle))
unfolding sqly.Transaction.begin sqly.Database.check sqly.Driver.raw_sql run apply
    sqly.Transaction.batch sqly.Database.check_lease sqly.Query.fetch_all sqly.Query.in_transaction
    sqly.Query.bind sqly.Query.new_query sqly.Value.into_value sqly.Transaction.run
    sqly.Driver.sqlite_on sqly.Driver.arguments sqly.Driver.sqlite_argument
    sqly.Driver.sqlite_execute validate sqly.Migrate.Apply.adopt sqly.Migrate.Apply.apply_all
    pending sqly.Query.execute commit
run-executed_example = run-executed quiet no_hash runner Backend.sqlite idle opened refl refl refl

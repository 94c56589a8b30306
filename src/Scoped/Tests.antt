-- ===== src/Scoped/Tests.antt =====
-- Tests and witnesses of src/scoped.rs.
use sqly.Scoped.Routes.{route_lem}
use sqly.Lock.{new_row}
use sqly.Scoped.Mirrors.{quiet, shown}
use sqly.Query.{in_transaction, on_database, Query}
use sqly.Scoped.Programs.{enter-explicit, explicit, work_on, Program}
use sqly.Scoped.Buffered.{lock, TransactionScope, inside_scope, scoped, outside_scope}
use sqly.Shared.{
  inr, List, Option, Bool, ℕ, [], refl, arith, zero, suc, ◌≡◌, ◌⊎◌, ◌+◌, none, some, true, false,
}
use sqly.Shared.Bytes.{bytes}
use sqly.Error.{Error, Result, ok, err}
use sqly.Value.{Value}
use sqly.Sql.{from_text, Sql}
use sqly.Row.{Row, Backend}
use sqly.Sqlx.{raised, Command, Mode, World}
use sqly.Scoped.Transactions.{Call, transaction_futures, transaction_futures-IsLawful}
use sqly.Transaction.{Transaction}
use sqly.Transaction.Ending.{commits, newest}
use sqly.Sample.{libraries, server, begun, idle, one_row}
use sqly.Scoped.Defs.{
  Futures, Scope, Active, Poll, OperationOutput, active, available, is_some, is_pending, holding,
  pending, ready,
}
use sqly.Scoped.Operate.{Operate, poll_operate, drop_operate}
use sqly.Scoped.Rows.{ScopedRows, Stage, poll_next}
use sqly.Scoped.Enter.{Ending, closed_scope, enter, new_scope, run_in_scope}
use sqly.Scoped.Schedule.{IsLawful, IsSound, Reaches, Step}
use sqly.Scoped.Invariant.{Reaches-IsSound}
use sqly.Scoped.Writes.{outcome, run_in_scope-succeeded, run_in_scope-refusal, new_scope-IsSound}
use sqly.Scoped.Entering.{run_in_scope-poisoned, enter_lem, opened}
use sqly.Scoped.Closing.{available-refusal, poll_operate-free}

abbrev aborting : Bool → Transaction libraries → Transaction libraries
aborting b t = record t { aborted = b }

-- A call answers at its second poll.
abbrev poll_call :
    Bool
    → Transaction libraries
    → Poll (Result (OperationOutput libraries)) × Bool × Transaction libraries
poll_call false t = (pending, true, aborting true t)
poll_call true t = (ready (ok (OperationOutput.locked true)), true, aborting false t)

-- A stream has as many rows as are left.
abbrev poll_row :
    ℕ → Transaction libraries → Poll (Option (Result (Row libraries))) × ℕ × Transaction libraries
poll_row zero t = (ready none, zero, aborting false t)
poll_row (suc n) t = (ready (some (ok one_row)), n, aborting true t)

abbrev futures : Futures libraries
futures = record {
  Call = Bool;
  Cursor = ℕ;
  Pooled = ℕ;
  poll = poll_call;
  rows = λ sql values. 1;
  poll_next = poll_row;
  pooled_rows = λ sql values. 1;
  poll_pooled = λ n. (ready none, n);
}

futures-IsLawful : IsLawful futures
futures-IsLawful = record {
  call_aborts = λ c t h. ground arith;
  cursor_aborts = λ c t h. ground arith;
  call_unfinished = λ c t. ground arith;
  cursor_unfinished = λ c t. ground arith;
}

abbrev fresh : Scope futures
fresh = record {
  id = 1;
  db = 7;
  transaction = some (begun Backend.sqlite);
  cursor = none;
  operation = none;
  serial = none;
  closed = false;
  next_token = 0;
}

abbrev here : Option Active
here = some (record { scope = 1; database = 7 })

fresh-IsSound : IsSound fresh
unfolding new_scope
fresh-IsSound = new_scope-IsSound 1 7 (begun Backend.sqlite) refl

abbrev once : Scope futures → Scope futures
once s = (poll_operate futures here true (Operate.created false) s).2

abbrev twice : Scope futures → Scope futures
twice s = (poll_operate futures here true (Operate.running s.next_token) (once s)).2

abbrev runs_once : (s : Scope futures) → Reaches futures s (once s)
runs_once s = Reaches.step (Reaches.here s) (Step.polls here true (Operate.created false) s)

abbrev runs_twice : (s : Scope futures) → Reaches futures s (twice s)
runs_twice s =
    Reaches.step (runs_once s) (Step.polls here true (Operate.running s.next_token) (once s))

once-fresh : (once fresh).serial ≡ some 0
unfolding poll_operate
once-fresh = refl

twice-fresh : (twice fresh).serial ≡ none
unfolding poll_operate
twice-fresh = refl

Reaches-IsSound_example : IsSound (twice fresh)
Reaches-IsSound_example = Reaches-IsSound futures-IsLawful (runs_twice fresh) fresh-IsSound

-- Work that runs one call to its end.
abbrev work : Scope futures → Ending Error ℕ × Scope futures
work s = (Ending.succeeded 5, twice s)

-- Work that drops its call between its polls.
abbrev careless : Scope futures → Ending Error ℕ × Scope futures
careless s = (Ending.succeeded 5, drop_operate futures (Operate.running s.next_token) (once s))

abbrev runs_careless : (s : Scope futures) → Reaches futures s (careless s).1
runs_careless s = Reaches.step (runs_once s) (Step.drops (Operate.running s.next_token) (once s))

-- Work that fails.
abbrev failing : Scope futures → Ending Error ℕ × Scope futures
failing s = (Ending.failed Error.row_not_found, s)

abbrev result : (Scope futures → Ending Error ℕ × Scope futures) → Ending Error ℕ × World libraries
result closure = run_in_scope server futures (λ e. e) 1 7 closure (begun Backend.sqlite)

work-result : (result work).0 ≡ Ending.succeeded 5
unfolding run_in_scope poll_operate sqly.Transaction.commit sqly.Database.check_lease
    sqly.Transaction.control sqly.Driver.raw_sql
work-result = refl

run_in_scope-succeeded_example :
    (u : Transaction libraries) × ((work fresh).0 ≡ Ending.succeeded 5)
    × ((work fresh).1.cursor ≡ none)
    × (holding (work fresh).1.operation ≡ false)
    × ((work fresh).1.transaction ≡ some u)
    × (u.aborted ≡ false)
    × (commits (result work).1.log ≡ commits u.world.log + 1)
    × (newest (result work).1.log ≡ some Command.release)
unfolding new_scope
run_in_scope-succeeded_example =
    run_in_scope-succeeded server futures (λ e. e) 1 7 work (begun Backend.sqlite) 5
      futures-IsLawful runs_twice refl work-result

run_in_scope-refusal_example :
    (((result failing).0 ≡ Ending.failed Error.row_not_found) ⊎ ((result failing).0 ≡ Ending.cut))
    × (commits (result failing).1.log ≡ 0)
unfolding new_scope
run_in_scope-refusal_example =
    run_in_scope-refusal server futures (λ e. e) 1 7 failing (begun Backend.sqlite)
      (Ending.failed Error.row_not_found) (begun Backend.sqlite) refl refl

run_in_scope-poisoned_example :
    (((result careless).0 ≡ Ending.failed Error.transaction_aborted)
      ⊎ ((result careless).0 ≡ Ending.cut))
    × (commits (result careless).1.log ≡ 0)
    × (newest (result careless).1.log ≡ some Command.discard)
unfolding drop_operate poll_operate new_scope
run_in_scope-poisoned_example =
    run_in_scope-poisoned server futures (λ e. e) 1 7 careless (begun Backend.sqlite)
      (aborting true (begun Backend.sqlite)) 5 futures-IsLawful runs_careless refl refl refl refl
      refl

abbrev entered : (Scope futures → Ending Error ℕ × Scope futures) → Ending Error ℕ × World libraries
entered closure = enter server futures (λ e. e) here Backend.sqlite none 1 7 closure idle

enter_lem_example :
    ((t : Transaction libraries)
      → opened server here Backend.sqlite none idle ≡ some t
      → entered work ≡ outcome server futures (λ e. e) 1 7 work t)
    × ((other : Scope futures → Ending Error ℕ × Scope futures)
        → opened server here Backend.sqlite none idle ≡ none
        → entered work ≡ entered other)
    × (is_some here ≡ true → entered work ≡ (Ending.failed Error.nested_write_scope, idle))
enter_lem_example = enter_lem server futures (λ e. e) here Backend.sqlite none 1 7 work idle

abbrev query : Sql
query = record { sqlite = bytes "SELECT 1"; postgres = bytes "SELECT 1" }

abbrev reading : Stage futures → ScopedRows futures
reading g = record { db = 7; read = true; stage = g }

-- A scope with a stream.
abbrev streaming : Scope futures
streaming = (poll_next futures here (reading (Stage.unstarted query [])) fresh).2

available-refusal_example :
    (poll_operate futures here true (Operate.created false) streaming
      ≡ (ready (err Error.active_stream), Operate.finished, streaming))
    × (streaming.serial ≡ none
        → poll_operate futures here true (Operate.waiting false) streaming
          ≡ (ready (err Error.active_stream), Operate.finished, streaming))
    × ((id db : ℕ) (read : Bool) (sql : Sql) (values : List (Value libraries))
        → active db here ≡ ok (some id)
        → poll_next futures here
            (record { db = db; read = read; stage = Stage.unstarted sql values })
            streaming
          ≡ (
            ready (some (err Error.active_stream)),
            record { db = db; read = read; stage = Stage.done },
            streaming,
          ))
unfolding poll_next
available-refusal_example =
    available-refusal streaming Error.active_stream here true false (inr (refl, refl, refl))

abbrev shut : Scope futures
shut = closed_scope futures fresh

poll_operate-free_example :
    (t : Transaction libraries) × (fresh.transaction ≡ some t)
    × ((poll_operate futures here true (Operate.created true) fresh).0 ≡ (poll_call true t).0)
    × ((poll_operate futures here true (Operate.created true) fresh).2.transaction
        ≡ some (poll_call true t).2)
    × (is_pending (poll_call true t).0 ≡ false
        → ((poll_operate futures here true (Operate.created true) fresh).2.serial ≡ none)
          × (available (poll_operate futures here true (Operate.created true) fresh).2 ≡ ok tt))
poll_operate-free_example = poll_operate-free fresh here true fresh-IsSound refl refl refl refl

-- A scope of a modelled transaction, in which a statement is run.
abbrev modelled : Futures libraries
modelled = transaction_futures server

abbrev modelled_scope : Scope modelled
modelled_scope = new_scope modelled 1 7 (begun Backend.sqlite)

abbrev statement_call : Operate modelled
statement_call = Operate.created (Call.run_call query [] Mode.execute)

modelled-IsSound : IsSound (poll_operate modelled here true statement_call modelled_scope).2
modelled-IsSound =
    Reaches-IsSound (transaction_futures-IsLawful server)
      (Reaches.step (Reaches.here modelled_scope)
        (Step.polls here true statement_call modelled_scope))
      (new_scope-IsSound 1 7 (begun Backend.sqlite) refl)

-- Work that inserts, and then locks a row, and gives what it has found; a failed insert is its error.
abbrev inserting : Program libraries Error Bool
inserting =
    Program.queries (scoped (from_text (bytes "INSERT INTO t (a) VALUES ($1)"))) Mode.execute λ r.
      elim r [
        | ok output ↦
            Program.locks (new_row libraries (bytes "t"))
              λ found. elim found [ ok b ↦ Program.gives b | err e ↦ Program.fails e ]
        | err e ↦ Program.fails e
      ]

enter-explicit_example :
    enter server
      (transaction_futures server)
      (λ (e : Error). e)
      none
      Backend.sqlite
      none
      1
      7
      (work_on
        (inside_scope server 7 (shown server 1 7))
        (lock server 7 (shown server 1 7))
        inserting)
      idle
    ≡ explicit server
        (λ (e : Error). e)
        Backend.sqlite
        none
        (work_on (in_transaction server) (sqly.Transaction.lock server) inserting)
        idle
enter-explicit_example =
    enter-explicit server 1 7 (λ (e : Error). e) Backend.sqlite none inserting idle

abbrev counting : Query libraries
counting = scoped (from_text (bytes "SELECT 1"))

route_lem_example :
    (outside_scope server Backend.sqlite true counting Mode.all idle
      ≡ on_database server Backend.sqlite counting Mode.all idle)
    × (counting.error ≡ none
        → outside_scope server Backend.sqlite false counting Mode.all idle
          ≡ (raised Error.no_active_write_scope, idle))
    × ((a : Active) (s : TransactionScope server)
        → counting.error ≡ none
        → active 7 (some a) ≡ err Error.scope_database_mismatch
        → inside_scope server 7 (some a) counting Mode.all s
          ≡ (raised Error.scope_database_mismatch, s))
    × ((inside_scope server 7
          (shown server 1 7)
          counting
          Mode.all
          (quiet server 1 7 0 (begun Backend.sqlite))).0
        ≡ (in_transaction server counting Mode.all (begun Backend.sqlite)).0)
    × ((inside_scope server 7
          (shown server 1 7)
          counting
          Mode.all
          (quiet server 1 7 0 (begun Backend.sqlite))).1.transaction
        ≡ some (in_transaction server counting Mode.all (begun Backend.sqlite)).1)
    × ((e : Error)
        → counting.error ≡ some e
        → ((read : Bool)
            → outside_scope server Backend.sqlite read counting Mode.all idle ≡ (raised e, idle))
          × ((a : Active) (s : TransactionScope server)
              → inside_scope server 7 (some a) counting Mode.all s ≡ (raised e, s)))
route_lem_example =
    route_lem server counting Mode.all Backend.sqlite idle 1 7 0 (begun Backend.sqlite)

-- ===== src/Transaction/Trace.antt =====
-- src/transaction.rs: what a transaction executes on its connection.
use sqly.Sqlx.Sends.{Outcome-cases}
use sqly.Value.{Value}
use sqly.Row.{Backend}
use sqly.Sql.{Sql, text_for}
use sqly.Lock.{Lock, statement}
use sqly.Shared.Bytes.{Text}
use sqly.Foreign.{Foreign}
use sqly.Error.{Result, ok, err}
use sqly.Shared.{◌⊎◌, inl, inr, ◌∷◌, ◌≡◌, Bool, List, true, false, arith, refl}
use sqly.Sqlx.{Mode, World, Server, returned}
use sqly.Driver.{Output, raw_sql}
use sqly.Driver.Trace.{controlled, Event, trace, executed, sqlite_on-trace, postgres_on-trace}
use sqly.Database.{check, check_lease}
use sqly.Transaction.Defs.{Transaction, control, begin, begin_text, commit_text, rollback_text}
use sqly.Transaction.Methods.{
  batch, run_statement, lock, require_lock, commit, rollback, execute_on, is_postgres,
}
use sqly.Transaction.Poison.{lock_from}

module _ {F : Foreign} (S : Server F) where
  check_lease-trace : (w : World F) → trace (check_lease S w).1.log ≡ trace w.log
  unfolding check_lease
  check_lease-trace w = ground arith

  execute_on-trace :
      (sql : Text) (values : List (Value F)) (mode : Mode) (b : Backend) (w : World F)
      (output : Output F)
      → (execute_on S sql values mode b w).0 ≡ returned output
      → trace (execute_on S sql values mode b w).1.log ≡ executed sql b values ∷ trace w.log
  execute_on-trace sql values mode Backend.sqlite w output h =
      sqlite_on-trace S sql values mode w output h
  execute_on-trace sql values mode Backend.postgres w output h =
      postgres_on-trace S sql values mode w output h

  -- A statement that gives its output in a transaction has been executed once, with the argument of
  -- every value in their order, and, but for the savepoint of the preparation, nothing else has.
  pub run_statement-trace :
      (sql : Text) (values : List (Value F)) (mode : Mode) (t : Transaction F) (output : Output F)
      → (run_statement S sql values mode t).0 ≡ returned output
      → (trace (run_statement S sql values mode t).1.world.log
          ≡ executed sql t.backend values ∷ trace t.world.log)
        × ((run_statement S sql values mode t).1.backend ≡ t.backend)
  unfolding run_statement
  run_statement-trace sql values mode t output h = ground (
    arith,
    check_lease-trace t.world,
    execute_on-trace sql values mode t.backend (check_lease S t.world).1 output,
  )

  lock_from-trace :
      (r : Result (Text × List (Value F))) (t : Transaction F) (found : Bool)
      → (lock_from S r t).0 ≡ returned found
      → (selected : Text × List (Value F)) × (r ≡ ok selected)
        × (trace (lock_from S r t).1.world.log
            ≡ executed selected.0 t.backend selected.1 ∷ trace t.world.log)
        × ((lock_from S r t).1.backend ≡ t.backend)
  unfolding lock_from
  lock_from-trace (ok selected) t found h =
      elim (Outcome-cases (run_statement S selected.0 selected.1 Mode.all t).0) [
        | inl (output, e) ↦
            let sent = run_statement-trace selected.0 selected.1 Mode.all t output e in
            (selected, refl, ground arith, ground arith)
        | inr (inl (x, e)) ↦ absurd (ground arith)
        | inr (inr e) ↦ absurd (ground arith)
      ]
  lock_from-trace (err e) t found h = absurd (ground arith)

  -- A row that is locked has been asked for once, by the statement of the lock.
  pub require_lock-trace :
      (l : Lock F) (t : Transaction F)
      → (require_lock S l t).0 ≡ returned tt
      → (selected : Text × List (Value F)) × (statement F l (is_postgres S t.backend) ≡ ok selected)
        × (trace (require_lock S l t).1.world.log
            ≡ executed selected.0 t.backend selected.1 ∷ trace t.world.log)
        × ((require_lock S l t).1.backend ≡ t.backend)
  unfolding require_lock lock lock_from
  require_lock-trace l t h =
      let r = statement F l (is_postgres S t.backend) in
      let found : (lock S l t).0 ≡ returned true = ground arith in
      let same : (require_lock S l t).1 ≡ (lock S l t).1 = ground arith in
      rw same (lock_from-trace r t true found)

  pub begin-trace :
      (b : Backend) (w : World F) (t : Transaction F)
      → (begin S b w).0 ≡ returned t
      → (trace t.world.log ≡ Event.control (begin_text b) ∷ trace w.log)
        × (t.backend ≡ b)
        × (t.finished ≡ false)
        × (t.aborted ≡ false)
  unfolding begin control raw_sql check
  begin-trace Backend.sqlite w t h = (ground arith, ground arith, ground arith, ground arith)
  begin-trace Backend.postgres w t h = (ground arith, ground arith, ground arith, ground arith)

  pub commit-trace :
      (t : Transaction F)
      → (commit S t).0 ≡ returned tt
      → trace (commit S t).1.log ≡ Event.control commit_text ∷ trace t.world.log
  unfolding commit control raw_sql
  commit-trace t h = ground (arith, check_lease-trace t.world)

  -- A rollback executes ROLLBACK, or nothing.
  pub rollback-trace :
      (t : Transaction F)
      → (trace (rollback S t).1.log ≡ Event.control rollback_text ∷ trace t.world.log)
        ⊎ (trace (rollback S t).1.log ≡ trace t.world.log)
  unfolding rollback control raw_sql
  rollback-trace t = ground arith

  -- A batch that returns has executed its text.
  pub batch-trace :
      (sql : Sql) (t : Transaction F)
      → (batch S sql t).0 ≡ returned tt
      → (trace (batch S sql t).1.world.log
          ≡ controlled (text_for t.backend sql) (trace t.world.log))
        × ((batch S sql t).1.backend ≡ t.backend)
  unfolding batch control raw_sql
  batch-trace sql t h = ground (arith, check_lease-trace t.world)

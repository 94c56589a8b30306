-- ===== src/Driver/Trace.antt =====
-- src/driver.rs: which statements are executed, and with which arguments.
use sqly.Value.{Kind, Value}
use sqly.Row.{Backend}
use sqly.Shared.Bytes.{Text, eq_text}
use sqly.Foreign.{Foreign}
use sqly.Error.{Result, err, ok}
use sqly.Shared.{
  refl, ap, ◌∙◌, if◌then◌else◌, ◌||◌, ◌++◌, ◌∷◌, map, All, ◌≡◌, Bool, List, [], true, false, arith,
}
use sqly.Sqlx.{◌>>=◌, lift, Io, Command, Mode, World, Server, returned, send}
use sqly.Driver.Arguments.{arguments, argument}
use sqly.Driver.Prepare.{savepoint_text, rollback_text, release_text, raw_sql, postgres_statement}
use sqly.Driver.Execute.{
  Output, run_mode, guarded, sqlite_execute, postgres_execute, sqlite_on, postgres_on,
}
use sqly.Driver.Savepoints.{IsProbe, postgres_prepare-Sends}
use sqly.Driver.Binding.{arguments-eq_ok}
use sqly.Sqlx.Sends.{Extends}

-- What is executed on a connection: a statement with its arguments, or control text.
pub data Event (F : Foreign) : Type 0 where
  statement : Text → List (Value F) → Event F
  control : Text → Event F

-- The savepoint around a preparation.
abbrev is_savepoint : Text → Bool
is_savepoint sql =
    eq_text sql savepoint_text || eq_text sql rollback_text || eq_text sql release_text

module _ {F : Foreign} where
  abbrev pub controlled : Text → List (Event F) → List (Event F)
  controlled sql events = if is_savepoint sql then events else Event.control sql ∷ events

  -- The newest first, as in the log, without the savepoints of preparations.
  abbrev pub trace : List (Command F) → List (Event F)
  trace [] = []
  trace (Command.run mode sql args ∷ log) = Event.statement sql args ∷ trace log
  trace (Command.raw sql ∷ log) = controlled sql (trace log)
  trace (c ∷ log) = trace log

  -- A statement with the arguments that the backend gets for the values.
  abbrev pub executed : Text → Backend → List (Value F) → Event F
  executed sql b values = Event.statement sql (map (λ v. (argument F b v).1) values)

  probes_trace : (cs log : List (Command F)) → All IsProbe cs → trace (cs ++ log) ≡ trace log
  probes_trace [] log p = refl
  probes_trace (Command.prepare sql types ∷ cs) log p = probes_trace cs log p.1
  probes_trace (Command.raw sql ∷ cs) log p = rw p.0 (probes_trace cs log p.1)
  probes_trace (c ∷ cs) log p = absurd (p.0)

  Extends-trace : {l l' : List (Command F)} → Extends IsProbe l l' → trace l' ≡ trace l
  Extends-trace {l} (cs, e, p) = rw e (probes_trace cs l p)

module _ {F : Foreign} (S : Server F) (sql : Text) where
  postgres_statement-trace :
      (types : List Kind) (tx : Bool) (w : World F)
      → trace (postgres_statement S sql types tx w).1.log ≡ trace w.log
  unfolding postgres_statement raw_sql
  postgres_statement-trace types true w =
      let w1 = send (Command.raw savepoint_text) w in
      ground (arith, Extends-trace ((postgres_prepare-Sends S sql types true).sent w1))
  postgres_statement-trace types false w =
      ground (arith, Extends-trace ((postgres_prepare-Sends S sql types false).sent w))

  run_mode-trace :
      (b : Backend) (args : List (Value F)) (mode : Mode) (w : World F) (output : Output F)
      → (run_mode S b sql args mode w).0 ≡ returned output
      → trace (run_mode S b sql args mode w).1.log ≡ Event.statement sql args ∷ trace w.log
  unfolding run_mode
  run_mode-trace b args Mode.execute w output h = ground arith
  run_mode-trace b args Mode.optional w output h = ground arith
  run_mode-trace b args Mode.all w output h = ground arith

  sqlite_execute-trace :
      (args : List (Value F)) (types : List Kind) (mode : Mode) (w : World F) (output : Output F)
      → (sqlite_execute S sql args types mode w).0 ≡ returned output
      → trace (sqlite_execute S sql args types mode w).1.log
        ≡ Event.statement sql args ∷ trace w.log
  unfolding sqlite_execute guarded run_mode
  sqlite_execute-trace args types Mode.execute w output h = ground arith
  sqlite_execute-trace args types Mode.optional w output h = ground arith
  sqlite_execute-trace args types Mode.all w output h = ground arith

  postgres_execute-trace :
      (args : List (Value F)) (types : List Kind) (mode : Mode) (tx : Bool) (w : World F)
      (output : Output F)
      → (postgres_execute S sql args types mode tx w).0 ≡ returned output
      → trace (postgres_execute S sql args types mode tx w).1.log
        ≡ Event.statement sql args ∷ trace w.log
  unfolding postgres_execute
  postgres_execute-trace args types mode tx w output h = ground (
    arith,
    postgres_statement-trace types tx w,
    run_mode-trace Backend.postgres args mode (postgres_statement S sql types tx w).1 output,
  )

  bound-trace :
      (b : Backend) (values : List (Value F)) (r : Result (List (Value F) × List Kind))
      (k : List (Value F) × List Kind → Io (World F) (Output F)) (w : World F) (output : Output F)
      → arguments F S b 0 values ≡ r
      → ((bound : List (Value F) × List Kind)
          → (k bound w).0 ≡ returned output
          → trace (k bound w).1.log ≡ Event.statement sql bound.0 ∷ trace w.log)
      → ((lift r >>= k) w).0 ≡ returned output
      → trace ((lift r >>= k) w).1.log ≡ executed sql b values ∷ trace w.log
  bound-trace b values (ok bound) k w output e run h =
      run bound h
      ∙ ap (λ args. Event.statement sql args ∷ trace w.log)
          (arguments-eq_ok F S b 0 values bound e).0
  bound-trace b values (err x) k w output e run h = absurd (ground arith)

  pub sqlite_on-trace :
      (values : List (Value F)) (mode : Mode) (w : World F) (output : Output F)
      → (sqlite_on S sql values mode w).0 ≡ returned output
      → trace (sqlite_on S sql values mode w).1.log
        ≡ executed sql Backend.sqlite values ∷ trace w.log
  unfolding sqlite_on
  sqlite_on-trace values mode w output h =
      bound-trace Backend.sqlite values (arguments F S Backend.sqlite 0 values)
        (λ bound. sqlite_execute S sql bound.0 bound.1 mode) w output refl
        (λ bound. sqlite_execute-trace bound.0 bound.1 mode w output) h

  pub postgres_on-trace :
      (values : List (Value F)) (mode : Mode) (w : World F) (output : Output F)
      → (postgres_on S sql values mode w).0 ≡ returned output
      → trace (postgres_on S sql values mode w).1.log
        ≡ executed sql Backend.postgres values ∷ trace w.log
  unfolding postgres_on
  postgres_on-trace values mode w output h =
      bound-trace Backend.postgres values (arguments F S Backend.postgres 0 values)
        (λ bound. postgres_execute S sql bound.0 bound.1 mode true) w output refl
        (λ bound. postgres_execute-trace bound.0 bound.1 mode true w output) h

-- ===== src/Driver/Refusals.antt =====
-- src/driver.rs: running a statement reports no error that is a lock's.
use sqly.Value.{Value, Kind}
use sqly.Shared.Bytes.{Text}
use sqly.Error.{err, Error, SqlxError, driver}
use sqly.Foreign.{Foreign}
use sqly.Row.{Backend}
use sqly.Shared.{
  ◌||◌, ltb, length, Option, ℕ, Bool-cases, ◌∷◌, [], refl, ◌≡◌, List, Bool, true, false, inl, inr,
  arith, zero, suc, take,
}
use sqly.Sqlx.{Io, Mode, World, Server, Answer, answered, failed, Command, expect, ◌>>=◌, ◌>>◌}
use sqly.Sqlx.Raises.{
  Spares, Spares-bind, Spares-pure, Spares-raise, Spares-lift, Spares-expect, Spares-attempt_bind,
  Spares-if, Spares-when, Spares-ask, Spares-call,
}
use sqly.Driver.Arguments.{arguments}
use sqly.Driver.Prepare.{
  probed, prepared, check_count, is_count_error, is_ok, parameter_count, postgres_probe,
  postgres_prepare, postgres_statement, savepoint_text, rollback_text, release_text, raw_sql,
  prepare_with,
}
use sqly.Driver.Execute.{
  run_mode, guarded, sqlite_execute, postgres_execute, sqlite_on, postgres_on,
}

-- An error that only a lock reports.
abbrev pub is_lock_only : Error → Bool
is_lock_only (Error.invalid_lock r) = true
is_lock_only Error.non_unique_lock = true
is_lock_only e = false

driver-is_lock_only : (x : SqlxError) → is_lock_only (driver x) ≡ false
unfolding driver
driver-is_lock_only x = ground arith

ruleset spares = (
  Spares-bind, Spares-pure, Spares-raise, Spares-expect, Spares-if, Spares-when, Spares-ask,
  Spares-call, driver-is_lock_only, refl,
)

module _ {F : Foreign} (S : Server F) where
  arguments-is_lock_only :
      (b : Backend) (index : ℕ) (values : List (Value F)) (e : Error)
      → arguments F S b index values ≡ err e
      → is_lock_only e ≡ false
  unfolding arguments
  arguments-is_lock_only b index [] e h = ground arith
  arguments-is_lock_only b index (v ∷ values) e h =
      ground (arith, arguments-is_lock_only b (suc index) values e)

  run_mode-Spares :
      (b : Backend) (sql : Text) (args : List (Value F)) (mode : Mode)
      → Spares is_lock_only (run_mode S b sql args mode)
  unfolding run_mode
  run_mode-Spares b sql args Mode.execute = search spares
  run_mode-Spares b sql args Mode.optional = search spares
  run_mode-Spares b sql args Mode.all = search spares

  raw_sql-Spares : (sql : Text) → Spares is_lock_only (raw_sql S driver sql)
  unfolding raw_sql
  raw_sql-Spares sql = search spares

  module _ (sql : Text) (types : List Kind) where
    check_count-Spares : (m n : ℕ) → Spares is_lock_only (check_count S m n)
    check_count-Spares m n = search spares

    probed-Spares :
        (tx : Bool) (h : ℕ) (again : ℕ → Io (World F) ℕ)
        → ((n : ℕ) → Spares is_lock_only (again n))
        → (probe : Answer (Option ℕ)) → Spares is_lock_only (probed S sql types tx h again probe)
    probed-Spares tx h again ih (answered p) = elim (Bool-cases (ltb h (parameter_count p))) [
      | inl e ↦ rw (e, probed) (Spares-pure (parameter_count p))
      | inr e ↦ rw (e, probed) (ih (parameter_count p))
    ]
    probed-Spares tx h again ih (failed e) = search (spares, raw_sql-Spares)

    postgres_probe-Spares :
        (tx : Bool) (h r : ℕ) → Spares is_lock_only (postgres_probe S sql types tx h r)
    unfolding postgres_probe
    postgres_probe-Spares tx zero r = Spares-pure r
    postgres_probe-Spares tx (suc h) r =
        Spares-bind (Spares-ask (Command.prepare sql (take h types)) S.prepares)
          (probed-Spares tx h (postgres_probe S sql types tx h) (postgres_probe-Spares tx h))

    prepared-Spares :
        (tx : Bool) (n : ℕ) (a : Answer (Option ℕ))
        → Spares is_lock_only (prepared S sql types tx n a)
    prepared-Spares tx n (answered p) = search spares
    prepared-Spares tx n (failed e) = search spares

    postgres_prepare-Spares : (tx : Bool) → Spares is_lock_only (postgres_prepare S sql types tx)
    unfolding postgres_prepare
    postgres_prepare-Spares tx =
        search (spares, prepared-Spares, check_count-Spares, postgres_probe-Spares) depth 14

    postgres_statement-Spares :
        (tx : Bool) → Spares is_lock_only (postgres_statement S sql types tx)
    unfolding postgres_statement
    postgres_statement-Spares tx = Spares-bind (Spares-when tx (raw_sql-Spares savepoint_text)) λ u.
        Spares-attempt_bind (postgres_prepare-Spares tx) λ q h.
          Spares-bind
            (Spares-when tx
              (Spares-when (is_count_error S sql types tx q) (raw_sql-Spares rollback_text)))
            λ v.
              Spares-bind
                (Spares-when tx (
                  Spares-when (is_ok S sql types tx q || is_count_error S sql types tx q)
                    (raw_sql-Spares release_text)))
                λ x. Spares-lift q h

  guarded-Spares :
      {A : Type 0} {m : Io (World F) A} → Spares is_lock_only m → Spares is_lock_only (guarded S m)
  unfolding guarded
  guarded-Spares c = record { spares = λ w e. c.spares (record w { interrupting = false }) e }

  sqlite_body-Spares :
      (sql : Text) (args : List (Value F)) (types : List Kind) (mode : Mode)
      → Spares is_lock_only (do
        statement ← prepare_with S sql types
        parameters ← expect driver statement
        check_count S (parameter_count parameters) (length types)
        run_mode S Backend.sqlite sql args mode)
  sqlite_body-Spares sql args types mode = search (spares, check_count-Spares, run_mode-Spares)

  sqlite_execute-Spares :
      (sql : Text) (args : List (Value F)) (types : List Kind) (mode : Mode)
      → Spares is_lock_only (sqlite_execute S sql args types mode)
  unfolding sqlite_execute
  sqlite_execute-Spares sql args types mode =
      Spares-bind (Spares-call driver Command.lock_handle S.acts driver-is_lock_only)
        λ u. guarded-Spares (sqlite_body-Spares sql args types mode)

  pub sqlite_on-Spares :
      (sql : Text) (values : List (Value F)) (mode : Mode)
      → Spares is_lock_only (sqlite_on S sql values mode)
  unfolding sqlite_on
  sqlite_on-Spares sql values mode =
      Spares-bind
        (Spares-lift (arguments F S Backend.sqlite 0 values)
          (arguments-is_lock_only Backend.sqlite 0 values))
        λ bound. sqlite_execute-Spares sql bound.0 bound.1 mode

  postgres_execute-Spares :
      (sql : Text) (args : List (Value F)) (types : List Kind) (mode : Mode) (tx : Bool)
      → Spares is_lock_only (postgres_execute S sql args types mode tx)
  unfolding postgres_execute
  postgres_execute-Spares sql args types mode tx =
      Spares-bind (postgres_statement-Spares sql types tx)
        λ u. run_mode-Spares Backend.postgres sql args mode

  pub postgres_on-Spares :
      (sql : Text) (values : List (Value F)) (mode : Mode)
      → Spares is_lock_only (postgres_on S sql values mode)
  unfolding postgres_on
  postgres_on-Spares sql values mode =
      Spares-bind
        (Spares-lift (arguments F S Backend.postgres 0 values)
          (arguments-is_lock_only Backend.postgres 0 values))
        λ bound. postgres_execute-Spares sql bound.0 bound.1 mode true

-- ===== src/Driver/Execute.antt =====
-- src/driver.rs: executing a statement on a connection, and the lease of a pooled connection.
use sqly.Value.{Kind, Value}
use sqly.Shared.Bytes.{Text}
use sqly.Row.{Row, Backend}
use sqly.Error.{driver, Error}
use sqly.Foreign.{Foreign}
use sqly.Shared.{
  map, length, ◌∷◌, if◌then◌else◌, Option, ℕ, List, Bool, [], none, some, true, false,
}
use sqly.Sqlx.{
  cancelled, expect, pure, Command, call, lift, send, Mode, raised, World, SqlxRow, returned, Io,
  Server, Outcome, ◌>>=◌, ◌>>◌,
}
use sqly.Driver.Arguments.{arguments}
use sqly.Driver.Prepare.{parameter_count, prepare_with, check_count, postgres_statement}

pub record Output (F : Foreign) : Type 0 where
  pub rows : List (Row F)
  pub affected : ℕ

abbrev pub is_bind_count : Error → Bool
is_bind_count (Error.bind_count e a) = true
is_bind_count e = false

-- `result.is_ok() || matches!(&result, Err(Error::BindCount { .. }))`, where a cancelled operation
-- has no result.
abbrev pub is_reusable : {A : Type 0} → Outcome A → Bool
is_reusable (returned a) = true
is_reusable (raised e) = is_bind_count e
is_reusable cancelled = false

module _ {F : Foreign} (S : Server F) where
  abbrev pub wrap : Backend → SqlxRow F → Row F
  wrap b columns = record { backend = b; columns = columns }

  abbrev pub optional_rows : Backend → Option (SqlxRow F) → List (Row F)
  optional_rows b none = []
  optional_rows b (some row) = wrap b row ∷ []

  -- The match on the mode, for either backend.
  unfoldable pub run_mode : Backend → Text → List (Value F) → Mode → Io (World F) (Output F)
  run_mode b sql args Mode.execute = do
    affected ← call driver (Command.run Mode.execute sql args) S.executes
    pure (record { rows = []; affected = affected })
  run_mode b sql args Mode.optional = do
    row ← call driver (Command.run Mode.optional sql args) S.fetches_optional
    pure (record { rows = optional_rows b row; affected = 0 })
  run_mode b sql args Mode.all = do
    rows ← call driver (Command.run Mode.all sql args) S.fetches_all
    pure (record { rows = map (wrap b) rows; affected = 0 })

  abbrev is_complete : {A : Type 0} → Outcome A → Bool
  is_complete (returned a) = true
  is_complete r = false

  -- The life of a `SqliteCancellation`: a new progress handler that does not interrupt, and on the
  -- way out, unless the operation was complete, the flag that makes it interrupt.
  unfoldable pub guarded : {A : Type 0} → Io (World F) A → Io (World F) A
  guarded m w =
      let (r, w') = m (record w { interrupting = false }) in
      (r, if is_complete r then w' else record w' { interrupting = true })

  unfoldable pub sqlite_execute : Text → List (Value F) → List Kind → Mode → Io (World F) (Output F)
  unfolding guarded run_mode
  sqlite_execute sql args types mode = do
    call driver Command.lock_handle S.acts
    guarded (do
      statement ← prepare_with S sql types
      parameters ← expect driver statement
      check_count S (parameter_count parameters) (length types)
      run_mode Backend.sqlite sql args mode)

  unfoldable pub postgres_execute :
      Text → List (Value F) → List Kind → Mode → Bool → Io (World F) (Output F)
  unfolding run_mode
  postgres_execute sql args types mode in_transaction = do
    postgres_statement S sql types in_transaction
    run_mode Backend.postgres sql args mode

  unfoldable pub sqlite_on : Text → List (Value F) → Mode → Io (World F) (Output F)
  sqlite_on sql values mode = do
    bound ← lift (arguments F S Backend.sqlite 0 values)
    sqlite_execute sql bound.0 bound.1 mode

  unfoldable pub postgres_on : Text → List (Value F) → Mode → Io (World F) (Output F)
  postgres_on sql values mode = do
    bound ← lift (arguments F S Backend.postgres 0 values)
    postgres_execute sql bound.0 bound.1 mode true

  -- The drop of a `Lease`: the connection goes back to the pool if it is reusable, and is closed
  -- if not.
  unfoldable pub with_lease : {A : Type 0} → Io (World F) A → Io (World F) A
  with_lease m w =
      let (r, w') = m w in (r, send (if is_reusable r then Command.release else Command.discard) w')

  unfoldable pub sqlite : Text → List (Value F) → Mode → Io (World F) (Output F)
  unfolding with_lease
  sqlite sql values mode = do
    bound ← lift (arguments F S Backend.sqlite 0 values)
    call driver Command.acquire S.acts
    with_lease (sqlite_execute sql bound.0 bound.1 mode)

  unfoldable pub postgres : Text → List (Value F) → Mode → Io (World F) (Output F)
  unfolding with_lease
  postgres sql values mode = do
    bound ← lift (arguments F S Backend.postgres 0 values)
    call driver Command.acquire S.acts
    with_lease (postgres_execute sql bound.0 bound.1 mode false)

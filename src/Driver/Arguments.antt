-- ===== src/Driver/Arguments.antt =====
-- src/driver.rs, `sqlite_arguments` and `postgres_arguments`.
use sqly.Sqlx.{Server}
use sqly.Value.{timestamp, Kind, Value}
use sqly.Row.{Backend}
use sqly.Foreign.{Foreign}
use sqly.Shared.{◌+◌, ◌∷◌, ℕ, List, [], none, some, suc}
use sqly.Error.{Error, Result, ok, err, ◌>>=◌}

module _ (F : Foreign) where
  -- What SQLite stores of a value, with its type: texts for UUIDs, instants and JSON.
  unfoldable pub sqlite_argument : Value F → Kind × Value F
  sqlite_argument (Value.text v) = (Kind.text, Value.text v)
  sqlite_argument (Value.i32 v) = (Kind.i32, Value.i32 v)
  sqlite_argument (Value.i64 v) = (Kind.i64, Value.i64 v)
  sqlite_argument (Value.bool v) = (Kind.bool, Value.bool v)
  sqlite_argument (Value.bytes v) = (Kind.bytes, Value.bytes v)
  sqlite_argument (Value.float v) = (Kind.float, Value.float v)
  sqlite_argument (Value.uuid v) = (Kind.text, Value.text (F.uuid_text v))
  sqlite_argument (Value.time v) = (Kind.text, Value.text (timestamp (F.to_utc v)))
  sqlite_argument (Value.json v) = (Kind.text, Value.text (F.json_text v))
  sqlite_argument (Value.null Kind.text) = (Kind.text, Value.null Kind.text)
  sqlite_argument (Value.null Kind.i32) = (Kind.i32, Value.null Kind.i32)
  sqlite_argument (Value.null Kind.i64) = (Kind.i64, Value.null Kind.i64)
  sqlite_argument (Value.null Kind.bool) = (Kind.bool, Value.null Kind.bool)
  sqlite_argument (Value.null Kind.bytes) = (Kind.bytes, Value.null Kind.bytes)
  sqlite_argument (Value.null Kind.float) = (Kind.float, Value.null Kind.float)
  sqlite_argument (Value.null Kind.uuid) = (Kind.text, Value.null Kind.text)
  sqlite_argument (Value.null Kind.time) = (Kind.text, Value.null Kind.text)
  sqlite_argument (Value.null Kind.json) = (Kind.text, Value.null Kind.text)

  unfoldable pub postgres_argument : Value F → Kind × Value F
  postgres_argument (Value.text v) = (Kind.text, Value.text v)
  postgres_argument (Value.i32 v) = (Kind.i32, Value.i32 v)
  postgres_argument (Value.i64 v) = (Kind.i64, Value.i64 v)
  postgres_argument (Value.bool v) = (Kind.bool, Value.bool v)
  postgres_argument (Value.bytes v) = (Kind.bytes, Value.bytes v)
  postgres_argument (Value.float v) = (Kind.float, Value.float v)
  postgres_argument (Value.uuid v) = (Kind.uuid, Value.uuid v)
  postgres_argument (Value.time v) = (Kind.time, Value.time (F.in_utc v))
  postgres_argument (Value.json v) = (Kind.json, Value.json v)
  postgres_argument (Value.null k) = (k, Value.null k)

  abbrev pub argument : Backend → Value F → Kind × Value F
  argument Backend.sqlite = sqlite_argument
  argument Backend.postgres = postgres_argument

  abbrev pub Arguments : Type 0
  Arguments = List (Value F) × List Kind

  -- `args.add(v)`, and its error under the number of the parameter.
  abbrev pub add : Server F → ℕ → Value F → Result (Value F)
  add S index a = elim (S.refuses a) [
    | none ↦ ok a
    | some c ↦ err (Error.encode_failed (some (index + 1)) c)
  ]

  -- The loop of either function, from `index` on.
  unfoldable pub arguments : Server F → Backend → ℕ → List (Value F) → Result Arguments
  arguments S b index [] = ok ([], [])
  arguments S b index (v ∷ values) = do
    a ← add S index (argument b v).1
    rest ← arguments S b (suc index) values
    ok (a ∷ rest.0, (argument b v).0 ∷ rest.1)

-- ===== src/Options/Defs.antt =====
-- src/options.rs: the settings, and `validate` of either backend.
use Prim.Native.String.{String}
use sqly.Shared.Bytes.{starts_with, bytes, Text}
use sqly.Shared.{ltb, ◌&&◌, ◌==◌, ◌∷◌, not, ◌/◌, Option, ◌||◌, Bool, ℕ, [], none, true, false}
use sqly.Error.{Error, Result, ok, err, ◌>>◌}

pub record SqliteOptions : Type 0 where
  pub filename : Text
  pub memory : Bool
  pub create : Bool
  pub read_only : Bool
  pub wal : Bool
  pub busy_timeout : ℕ

pub data TlsMode : Type 0 where
  verify_full disable allow prefer require verify_ca : TlsMode

pub record PostgresOptions : Type 0 where
  pub host : Text
  pub port : ℕ
  pub database : Text
  pub username : Text
  pub password : Text
  pub tls : TlsMode
  pub root_cert : Option Text
  pub application_name : Text

pub data ConnectOptions : Type 0 where
  sqlite_options : SqliteOptions → ConnectOptions
  postgres_options : PostgresOptions → ConnectOptions

abbrev pub memory_name : Text
memory_name = bytes ":memory:"

abbrev five_seconds : ℕ
five_seconds = 5000000000

unfoldable pub new_sqlite : Text → SqliteOptions
new_sqlite path = record {
  filename = path;
  memory = false;
  create = false;
  read_only = false;
  wal = false;
  busy_timeout = five_seconds;
}

unfoldable pub in_memory : SqliteOptions
unfolding new_sqlite
in_memory = record (new_sqlite memory_name) { memory = true }

unfoldable pub new_postgres : Text → Text → Text → PostgresOptions
new_postgres host database username = record {
  host = host;
  port = 5432;
  database = database;
  username = username;
  password = [];
  tls = TlsMode.verify_full;
  root_cert = none;
  application_name = bytes "sqly";
}

-- `Error::config`.
abbrev pub config : String → Error
config reason = Error.configuration (bytes reason)

-- `if b { return Err(Error::config(reason)) }`
abbrev pub refuse_if : Bool → String → Result (Unit {0})
refuse_if true reason = err (config reason)
refuse_if false reason = ok tt

abbrev pub is_empty : Text → Bool
is_empty [] = true
is_empty (b ∷ t) = false

-- The largest `i32`.
abbrev pub max_millis : ℕ
max_millis = 2147483647

-- `as_millis`
abbrev pub as_millis : ℕ → ℕ
as_millis nanoseconds = nanoseconds / 1000000

-- `same_path` is the equality of `Path`.
unfoldable pub validate_sqlite : (Text → Text → Bool) → SqliteOptions → Result (Unit {0})
validate_sqlite same_path o = do
  refuse_if (is_empty o.filename) "SQLite filename is required"
  refuse_if
      (not o.memory && (same_path o.filename memory_name || starts_with (bytes "file:") o.filename))
      "use in_memory for memory databases; file URIs are reserved"
  refuse_if
      ((o.memory && (o.read_only || (o.wal || o.create))) || (o.read_only && (o.create || o.wal)))
      "conflicting SQLite options"
  refuse_if (ltb max_millis (as_millis o.busy_timeout)) "SQLite busy timeout is too large"

unfoldable pub validate_postgres : PostgresOptions → Result (Unit {0})
validate_postgres o =
    refuse_if (is_empty o.host || (is_empty o.database || (is_empty o.username || o.port == 0)))
      "PostgreSQL requires a host or socket directory, nonzero port, database, and username"

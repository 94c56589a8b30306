-- ===== src/Database/Builder.antt =====
-- src/database.rs: `DatabaseBuilder`.
--
-- A duration is its nanoseconds. What the builder opens is kept in `Opening`, newest first, with the
-- counter of in-memory databases.
use sqly.Shared.Bytes.{Text, bytes, starts_with, decimal}
use sqly.Shared.{
  ◌++◌, ◌∷◌, ◌+◌, ◌%◌, ◌^◌, ◌==◌, ◌||◌, ◌&&◌, not, any, if◌then◌else◌, Option, List, Bool, ℕ, [],
  none, some, true, false,
}
use sqly.Error.{Result, driver}
use sqly.Row.{Backend}
use sqly.Sqlx.{Io, Answer, Keeper, lift, pure, expect, ◌>>=◌, ◌>>◌, Outcome, returned, cancelled}
use sqly.Options.{
  SqliteOptions, PostgresOptions, ConnectOptions, TlsMode, validate_sqlite, validate_postgres,
  refuse_if,
}

pub record DatabaseBuilder : Type 0 where
  pub max_connections : Option ℕ
  pub acquire_timeout : ℕ

unfoldable pub default_builder : DatabaseBuilder
default_builder = record { max_connections = none; acquire_timeout = 30000000000 }

-- What is given to SQLx.
pub record SqliteConnect : Type 0 where
  pub filename : Text
  pub create_if_missing : Bool
  pub read_only : Bool
  pub foreign_keys : Bool
  pub busy_timeout : ℕ
  pub statement_logging : Bool
  pub wal : Bool
  pub in_memory : Bool
  pub shared_cache : Bool

pub record PgConnect : Type 0 where
  pub host : Text
  pub port : ℕ
  pub database : Text
  pub username : Text
  pub password : Text
  pub application_name : Text
  pub statement_cache_capacity : ℕ
  pub ssl_mode : TlsMode
  pub statement_logging : Bool
  pub socket : Option Text
  pub ssl_root_cert : Option Text

pub data Open : Type 0 where
  keeper_connection : SqliteConnect → Open
  sqlite_pool : SqliteConnect → ℕ → ℕ → Bool → Open
  postgres_pool : PgConnect → ℕ → ℕ → Open

pub record Opening : Type 0 where
  pub opened : List Open
  pub next_id : ℕ

pub record Platform : Type 0 where
  -- whether `Instant::now().checked_add` has a result
  pub checked_add : ℕ → Bool
  -- `env::var_os(name).is_some()`
  pub var_os : Text → Bool
  -- `==` of `Path`
  pub same_path : Text → Text → Bool
  -- `process::id()`
  pub process_id : ℕ
  -- `connect_with`, of a connection or a pool
  pub connect_with : List Open → Option (Answer (Unit {0}))

abbrev pub unwrap_or : ℕ → Option ℕ → ℕ
unwrap_or d none = d
unwrap_or d (some n) = n

abbrev pub is_zero : Option ℕ → Bool
is_zero none = false
is_zero (some n) = n == 0

abbrev pub is_several : Option ℕ → Bool
is_several none = false
is_several (some n) = not (n == 1)

abbrev replied : Option (Answer (Unit {0})) → Outcome (Answer (Unit {0}))
replied none = cancelled
replied (some a) = returned a

abbrev pub inherited : List Text
inherited = bytes "PGOPTIONS" ∷ bytes "PGSSLROOTCERT" ∷ bytes "PGSSLCERT" ∷ bytes "PGSSLKEY" ∷ []

abbrev pub memory_file : ℕ → ℕ → Text
memory_file process id = bytes "file:sqly-" ++ (decimal process ++ (bytes "-" ++ decimal id))

module _ (p : Platform) where
  -- `….connect_with(…).await.map_err(Error::driver)?`
  abbrev pub connect_with : Open → Io Opening (Unit {0})
  connect_with o =
      (λ s. let log = o ∷ s.opened in (replied (p.connect_with log), record s { opened = log }))
      >>= expect driver

  unfoldable pub check_builder : DatabaseBuilder → Result (Unit {0})
  check_builder b =
      refuse_if
        (is_zero b.max_connections
          || (b.acquire_timeout == 0 || not (p.checked_add b.acquire_timeout)))
        "pool size and acquisition timeout must be positive"

  abbrev pub sqlite_connect : SqliteOptions → SqliteConnect
  sqlite_connect o = record {
    filename = o.filename;
    create_if_missing = o.create;
    read_only = o.read_only;
    foreign_keys = true;
    busy_timeout = o.busy_timeout;
    statement_logging = false;
    wal = o.wal;
    in_memory = false;
    shared_cache = false;
  }

  abbrev pub memory_connect : SqliteOptions → ℕ → SqliteConnect
  memory_connect o id = record (sqlite_connect o) {
    filename = memory_file p.process_id id;
    in_memory = true;
    shared_cache = true;
  }

  -- `NEXT.fetch_add(1, …)`, which wraps around.
  abbrev pub fetch_id : Io Opening ℕ
  fetch_id s = (returned s.next_id, record s { next_id = (s.next_id + 1) % 2 ^ 64 })

  abbrev pub new_keeper : Keeper
  new_keeper = record { connected = true; lost = false }

  abbrev pub open_memory : DatabaseBuilder → SqliteOptions → Io Opening (Option Keeper)
  open_memory b o = do
    id ← fetch_id
    connect_with (Open.keeper_connection (memory_connect o id))
    connect_with (Open.sqlite_pool (memory_connect o id) 1 b.acquire_timeout true)
    pure (some new_keeper)

  abbrev pub open_file : DatabaseBuilder → SqliteOptions → Io Opening (Option Keeper)
  open_file b o = do
    connect_with (
        Open.sqlite_pool (sqlite_connect o) (unwrap_or 5 b.max_connections) b.acquire_timeout false)
    pure none

  unfoldable pub connect_sqlite : DatabaseBuilder → SqliteOptions → Io Opening (Option Keeper)
  connect_sqlite b o = do
    lift (validate_sqlite p.same_path o)
    lift (
        refuse_if (o.memory && is_several b.max_connections)
          "in-memory SQLite requires one query connection")
    if o.memory then open_memory b o else open_file b o

  abbrev pub pg_connect : PostgresOptions → PgConnect
  pg_connect o = record {
    host = o.host;
    port = o.port;
    database = o.database;
    username = o.username;
    password = o.password;
    application_name = o.application_name;
    statement_cache_capacity = 0;
    ssl_mode = o.tls;
    statement_logging = false;
    socket = if starts_with (bytes "/") o.host then some o.host else none;
    ssl_root_cert = o.root_cert;
  }

  unfoldable pub connect_postgres : DatabaseBuilder → PostgresOptions → Io Opening (Unit {0})
  connect_postgres b o = do
    lift (validate_postgres o)
    lift (
        refuse_if (any p.var_os inherited)
          "inherited PGOPTIONS or TLS certificate environment is unsupported; use explicit options")
    connect_with
        (Open.postgres_pool (pg_connect o) (unwrap_or 5 b.max_connections) b.acquire_timeout)

  abbrev pub connect_to : DatabaseBuilder → ConnectOptions → Io Opening (Backend × Option Keeper)
  connect_to b (ConnectOptions.sqlite_options o) = do
    keeper ← connect_sqlite b o
    pure (Backend.sqlite, keeper)
  connect_to b (ConnectOptions.postgres_options o) = do
    connect_postgres b o
    pure (Backend.postgres, none)

  -- The new database, with the keeper of one in memory.
  unfoldable pub connect :
      DatabaseBuilder → Result ConnectOptions → Io Opening (Backend × Option Keeper)
  unfolding check_builder connect_sqlite connect_postgres
  connect b options = do given ← lift options; lift (check_builder b); connect_to b given

-- ===== src/Options/Setters.antt =====
-- src/options.rs: the setters of single options, the views of the connection options, and the
-- conversions into them.
use sqly.Shared.{
  Option, Bool, ℕ, not, if◌then◌else◌, none, some, true, false, ◌≡◌, ◌↔◌, ◌≤◌, ◌<◌, length, refl,
  arith,
}
use sqly.Shared.Bytes.{Text, bytes, starts_with}
use sqly.Error.{ok}
use sqly.Options.Validity.{validate_sqlite_iff}
use sqly.Options.Defs.{
  SqliteOptions, PostgresOptions, ConnectOptions, TlsMode, new_sqlite, validate_sqlite, memory_name,
  max_millis, as_millis,
}

unfoldable pub as_sqlite : ConnectOptions → Option SqliteOptions
as_sqlite (ConnectOptions.sqlite_options o) = some o
as_sqlite (ConnectOptions.postgres_options o) = none

unfoldable pub as_postgres : ConnectOptions → Option PostgresOptions
as_postgres (ConnectOptions.postgres_options o) = some o
as_postgres (ConnectOptions.sqlite_options o) = none

-- `SqliteOptions`
unfoldable pub filename : SqliteOptions → Option Text
filename o = if not o.memory then some o.filename else none

unfoldable pub create_if_missing : SqliteOptions → Bool → SqliteOptions
create_if_missing o enabled = record o { create = enabled }

unfoldable pub read_only : SqliteOptions → Bool → SqliteOptions
read_only o enabled = record o { read_only = enabled }

unfoldable pub wal : SqliteOptions → Bool → SqliteOptions
wal o enabled = record o { wal = enabled }

unfoldable pub busy_timeout : SqliteOptions → ℕ → SqliteOptions
busy_timeout o timeout = record o { busy_timeout = timeout }

-- `PostgresOptions`
unfoldable pub port : PostgresOptions → ℕ → PostgresOptions
port o n = record o { port = n }

unfoldable pub password : PostgresOptions → Text → PostgresOptions
password o text = record o { password = text }

unfoldable pub tls_mode : PostgresOptions → TlsMode → PostgresOptions
tls_mode o mode = record o { tls = mode }

unfoldable pub root_certificate : PostgresOptions → Text → PostgresOptions
root_certificate o path = record o { root_cert = some path }

unfoldable pub application_name : PostgresOptions → Text → PostgresOptions
application_name o name = record o { application_name = name }

-- `SqliteOptions::new` with every setter.
abbrev pub built_sqlite : Text → Bool → Bool → Bool → ℕ → SqliteOptions
built_sqlite path c r w timeout =
    busy_timeout (wal (read_only (create_if_missing (new_sqlite path) c) r) w) timeout

-- Settings of a file, as they are built: accepted exactly if the path is not empty, not that of a
-- memory database and no URI, a file that is read only is neither created nor switched to WAL,
-- and the timeout has at most the milliseconds of a 32-bit integer.
pub built_sqlite_iff :
    (same_path : Text → Text → Bool) (path : Text) (c r w : Bool) (timeout : ℕ)
    → (validate_sqlite same_path (built_sqlite path c r w timeout) ≡ ok tt) ↔ (
        (0 < length path)
        × (same_path path memory_name ≡ false)
        × (starts_with (bytes "file:") path ≡ false)
        × (r ≡ true → (c ≡ false) × (w ≡ false))
        × (as_millis timeout ≤ max_millis))
unfolding busy_timeout wal read_only create_if_missing new_sqlite
built_sqlite_iff same_path path c r w timeout =
    let usable = validate_sqlite_iff same_path (built_sqlite path c r w timeout) in
    (
      λ h. let u = usable.0 h in (u.named, (u.plain refl).0, (u.plain refl).1, u.frozen, u.patient),
      λ h. usable.1 (record {
        named = h.0;
        plain = λ file. (h.1, h.2);
        bare = λ memory. absurd (ground arith);
        frozen = h.3;
        patient = h.4;
      }),
    )

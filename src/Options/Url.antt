-- ===== src/Options/Url.antt =====
-- src/options.rs, `FromStr for ConnectOptions`.
use sqly.Shared.Bytes.{eq_text, bytes, Text}
use sqly.Shared.{
  ◌||◌, ◌==◌, ◌∷◌, if◌then◌else◌, any, not, List, Bool, ℕ, Option, [], none, some, true, false,
}
use sqly.Error.{Result, ok, err, ok_or, ◌>>=◌, ◌>>◌}
use sqly.Options.Defs.{
  SqliteOptions, TlsMode, PostgresOptions, ConnectOptions, new_sqlite, in_memory, new_postgres,
  config, refuse_if, memory_name, validate_sqlite, validate_postgres,
}

-- What the code reads of a `Url`.
pub record ParsedUrl : Type 0 where
  pub scheme : Text
  pub fragment : Option Text
  pub host_str : Option Text
  pub path : Text
  pub username : Text
  pub password : Option Text
  pub port : Option ℕ
  pub query_pairs : List (Text × Text)

pub record UrlLibrary : Type 0 where
  -- `Url::parse`
  pub parse : Text → Option ParsedUrl
  -- `form_urlencoded::parse`
  pub parse_form : Text → List (Text × Text)
  -- `percent_decode_str` and `decode_utf8`
  pub percent_decode : Text → Option Text
  -- `==` of `Path`
  pub same_path : Text → Text → Bool

-- `str::strip_prefix`
abbrev pub strip_prefix : Text → Text → Option Text
strip_prefix [] s = some s
strip_prefix (p ∷ ps) [] = none
strip_prefix (p ∷ ps) (b ∷ s) = if p == b then strip_prefix ps s else none

-- `str::split_once` at a byte, with the default of the caller.
abbrev pub split_once_or : ℕ → Text → Text × Text
split_once_or c [] = ([], [])
split_once_or c (b ∷ s) =
    let rest = split_once_or c s in if b == c then ([], s) else (b ∷ rest.0, rest.1)

abbrev pub trim_start : ℕ → Text → Text
trim_start c [] = []
trim_start c (b ∷ s) = if b == c then trim_start c s else b ∷ s

abbrev cons_unless : ℕ → ℕ → Text → Text
cons_unless c b [] = if b == c then [] else b ∷ []
cons_unless c b (d ∷ s) = b ∷ d ∷ s

abbrev pub trim_end : ℕ → Text → Text
trim_end c [] = []
trim_end c (b ∷ s) = cons_unless c b (trim_end c s)

-- `value.unwrap_or(default)`
abbrev pub unwrap_or : {A : Type 0} → A → Option A → A
unwrap_or d none = d
unwrap_or d (some a) = a

abbrev pub is_some : {A : Type 0} → Option A → Bool
is_some none = false
is_some (some a) = true

abbrev pub has_text : Text → List Text → Bool
has_text t = any (λ u. eq_text t u)

-- The match on the value of `mode`.
abbrev pub apply_mode : Text → SqliteOptions → Result SqliteOptions
apply_mode value o =
    if eq_text value (bytes "ro")
    then ok (record o { read_only = true })
    else if eq_text value (bytes "rw")
    then ok o
    else if eq_text value (bytes "rwc")
    then ok (record o { create = true })
    else if eq_text value (bytes "memory")
    then ok (record o { memory = true })
    else err (config "invalid SQLite mode")

-- The loop over the pairs of a SQLite URL.
unfoldable pub sqlite_pairs : Bool → SqliteOptions → List (Text × Text) → Result SqliteOptions
sqlite_pairs seen o [] = ok o
sqlite_pairs seen o ((key, value) ∷ pairs) =
    refuse_if (not (eq_text key (bytes "mode")) || seen) "unknown or duplicate SQLite URL option"
    >> apply_mode value o
    >>= λ next. sqlite_pairs true next pairs

-- The match on the value of `sslmode`.
unfoldable pub tls_of : Text → Option TlsMode
tls_of value =
    if eq_text value (bytes "verify-full")
    then some TlsMode.verify_full
    else if eq_text value (bytes "disable")
    then some TlsMode.disable
    else if eq_text value (bytes "allow")
    then some TlsMode.allow
    else if eq_text value (bytes "prefer")
    then some TlsMode.prefer
    else if eq_text value (bytes "require")
    then some TlsMode.require
    else if eq_text value (bytes "verify-ca")
    then some TlsMode.verify_ca
    else none

abbrev pub set_tls : PostgresOptions → Option TlsMode → Result PostgresOptions
set_tls o none = err (config "unsupported TLS mode")
set_tls o (some mode) = ok (record o { tls = mode })

-- The match on the key.
abbrev pub apply_pair : Text → Text → PostgresOptions → Result PostgresOptions
apply_pair key value o =
    if eq_text key (bytes "sslmode")
    then set_tls o (tls_of value)
    else if eq_text key (bytes "sslrootcert")
    then ok (record o { root_cert = some value })
    else if eq_text key (bytes "application_name")
    then ok (record o { application_name = value })
    else err (config "unknown PostgreSQL URL option")

-- The loop over the pairs of a PostgreSQL URL, with the keys that it has seen.
unfoldable pub postgres_pairs :
    List Text → PostgresOptions → List (Text × Text) → Result PostgresOptions
postgres_pairs seen o [] = ok o
postgres_pairs seen o ((key, value) ∷ pairs) =
    refuse_if (has_text key seen) "duplicate PostgreSQL URL option"
    >> apply_pair key value o
    >>= λ next. postgres_pairs (key ∷ seen) next pairs

module _ (U : UrlLibrary) where
  unfoldable pub decoded : Text → Result Text
  decoded text = ok_or (config "URL text must be UTF-8") (U.percent_decode text)

  abbrev pub sqlite_start : Text → SqliteOptions
  sqlite_start path = if eq_text path memory_name then in_memory else new_sqlite path

  abbrev pub without_slashes : Text → Text
  without_slashes path = unwrap_or path (strip_prefix (bytes "//") path)

  unfoldable pub sqlite_url : Text → Result ConnectOptions
  unfolding decoded
  sqlite_url input = do
    refuse_if (any (λ b. b == b'#') input) "URL fragments are unsupported"
    path ← decoded (without_slashes (split_once_or b'?' input).0)
    options ← sqlite_pairs false (sqlite_start path) (U.parse_form (split_once_or b'?' input).1)
    validate_sqlite U.same_path options
    ok (ConnectOptions.sqlite_options options)

  abbrev pub is_postgres : Text → Bool
  is_postgres scheme = eq_text scheme (bytes "postgres") || eq_text scheme (bytes "postgresql")

  -- From the checks of the scheme to the options that the pairs are applied to.
  unfoldable pub url_base : ParsedUrl → Result PostgresOptions
  unfolding decoded new_postgres
  url_base url = do
    refuse_if (not (is_postgres url.scheme)) "unsupported URL scheme"
    refuse_if (is_some url.fragment) "URL fragments are unsupported"
    given_host ← ok_or (config "PostgreSQL host is required") url.host_str
    host ← decoded (trim_end b']' (trim_start b'[' given_host))
    database ← decoded (trim_start b'/' url.path)
    username ← decoded url.username
    password ← decoded (unwrap_or [] url.password)
    ok (record (new_postgres host database username) {
      port = unwrap_or 5432 url.port;
      password = password;
    })

  unfoldable pub postgres_url : Text → Result ConnectOptions
  postgres_url input = do
    url ← ok_or (config "invalid database URL") (U.parse input)
    base ← url_base url
    options ← postgres_pairs [] base url.query_pairs
    validate_postgres options
    ok (ConnectOptions.postgres_options options)

  unfoldable pub from_str : Text → Result ConnectOptions
  unfolding sqlite_url postgres_url
  from_str input = elim (strip_prefix (bytes "sqlite:") input) [
    | some rest ↦ sqlite_url rest
    | none ↦ postgres_url input
  ]

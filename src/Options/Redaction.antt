-- ===== src/Options/Redaction.antt =====
-- src/options.rs, `from_str`: no error repeats any text of the URL.
use sqly.Shared.Bytes.{bytes, Text}
use Prim.Native.String.{String}
use sqly.Shared.{
  if◌then◌else◌, subst, refl, arith, List, [], ◌∷◌, Option, none, some, ◌≡◌, true, false, Bool,
}
use sqly.Error.{Error, Result, ok, err, ok_or, ◌>>=◌}
use sqly.Options.Defs.{
  TlsMode, PostgresOptions, SqliteOptions, config, refuse_if, validate_postgres, validate_sqlite,
}
use sqly.Options.Url.{
  strip_prefix, UrlLibrary, ParsedUrl, has_text, apply_pair, apply_mode, set_tls, postgres_pairs,
  sqlite_pairs, from_str, decoded, url_base, sqlite_url, postgres_url,
}

-- The reasons that the parser gives.
abbrev pub reasons : List Text
reasons =
    bytes "SQLite filename is required"
    ∷ bytes "use in_memory for memory databases; file URIs are reserved"
    ∷ bytes "conflicting SQLite options"
    ∷ bytes "SQLite busy timeout is too large"
    ∷ bytes "PostgreSQL requires a host or socket directory, nonzero port, database, and username"
    ∷ bytes "URL text must be UTF-8"
    ∷ bytes "URL fragments are unsupported"
    ∷ bytes "unknown or duplicate SQLite URL option"
    ∷ bytes "invalid SQLite mode"
    ∷ bytes "invalid database URL"
    ∷ bytes "unsupported URL scheme"
    ∷ bytes "PostgreSQL host is required"
    ∷ bytes "duplicate PostgreSQL URL option"
    ∷ bytes "unsupported TLS mode"
    ∷ bytes "unknown PostgreSQL URL option"
    ∷ []

abbrev pub IsFixed : Error → Type 0
IsFixed (Error.configuration reason) = has_text reason reasons ≡ true
IsFixed e = ⊥

-- A result that fails only for one of the reasons.
record FailsFixed {A : Type 0} (r : Result A) : Type 0 where
  pub fixed : (e : Error) → r ≡ err e → IsFixed e

FailsFixed-ok : {A : Type 0} (a : A) → FailsFixed (ok a)
FailsFixed-ok a = record { fixed = λ e h. cc }

FailsFixed-err : (A : Type 0) (e : Error) → IsFixed e → FailsFixed {A = A} (err e)
FailsFixed-err A e i = record { fixed = λ d h. subst IsFixed (ground arith) i }

FailsFixed-bind :
    {A B : Type 0} (r : Result A) {f : A → Result B}
    → FailsFixed r
    → ((a : A) → FailsFixed (f a))
    → FailsFixed (r >>= f)
FailsFixed-bind (ok a) p q = q a
FailsFixed-bind {B} (err e) p q = FailsFixed-err B e (p.fixed e refl)

FailsFixed-refuse :
    (b : Bool) (reason : String) → IsFixed (config reason) → FailsFixed (refuse_if b reason)
FailsFixed-refuse true reason i = FailsFixed-err (Unit {0}) (config reason) i
FailsFixed-refuse false reason i = FailsFixed-ok tt

FailsFixed-ok_or :
    {A : Type 0} (reason : String) (o : Option A)
    → IsFixed (config reason)
    → FailsFixed (ok_or (config reason) o)
FailsFixed-ok_or {A} reason none i = FailsFixed-err A (config reason) i
FailsFixed-ok_or reason (some a) i = FailsFixed-ok a

FailsFixed-if :
    {A : Type 0} (b : Bool) {r s : Result A}
    → FailsFixed r
    → FailsFixed s
    → FailsFixed (if b then r else s)
FailsFixed-if true p q = p
FailsFixed-if false p q = q

ruleset fails_fixed = (
  FailsFixed-bind, FailsFixed-refuse, FailsFixed-ok_or, FailsFixed-if, FailsFixed-err,
  FailsFixed-ok, refl,
)

apply_mode-FailsFixed : (value : Text) (o : SqliteOptions) → FailsFixed (apply_mode value o)
apply_mode-FailsFixed value o = search fails_fixed

validate_sqlite-FailsFixed :
    (same_path : Text → Text → Bool) (o : SqliteOptions) → FailsFixed (validate_sqlite same_path o)
unfolding validate_sqlite
validate_sqlite-FailsFixed same_path o = search fails_fixed

set_tls-FailsFixed : (o : PostgresOptions) (mode : Option TlsMode) → FailsFixed (set_tls o mode)
set_tls-FailsFixed o none = search fails_fixed
set_tls-FailsFixed o (some mode) = search fails_fixed

apply_pair-FailsFixed :
    (key value : Text) (o : PostgresOptions) → FailsFixed (apply_pair key value o)
apply_pair-FailsFixed key value o = search (fails_fixed, set_tls-FailsFixed)

sqlite_pairs-FailsFixed :
    (seen : Bool) (o : SqliteOptions) (pairs : List (Text × Text))
    → FailsFixed (sqlite_pairs seen o pairs)
unfolding sqlite_pairs
sqlite_pairs-FailsFixed seen o [] = FailsFixed-ok o
sqlite_pairs-FailsFixed seen o ((key, value) ∷ pairs) = search (
  fails_fixed,
  apply_mode-FailsFixed,
  λ (next : SqliteOptions). sqlite_pairs-FailsFixed true next pairs,
)

postgres_pairs-FailsFixed :
    (seen : List Text) (o : PostgresOptions) (pairs : List (Text × Text))
    → FailsFixed (postgres_pairs seen o pairs)
unfolding postgres_pairs
postgres_pairs-FailsFixed seen o [] = FailsFixed-ok o
postgres_pairs-FailsFixed seen o ((key, value) ∷ pairs) = search (
  fails_fixed,
  apply_pair-FailsFixed,
  λ (next : PostgresOptions). postgres_pairs-FailsFixed (key ∷ seen) next pairs,
)

module _ (U : UrlLibrary) where
  sqlite_url-FailsFixed : (input : Text) → FailsFixed (sqlite_url U input)
  unfolding sqlite_url
  sqlite_url-FailsFixed input =
      search (fails_fixed, sqlite_pairs-FailsFixed, validate_sqlite-FailsFixed)

  url_base-FailsFixed : (url : ParsedUrl) → FailsFixed (url_base U url)
  unfolding url_base decoded
  url_base-FailsFixed url = search fails_fixed depth 14 fits 2000

  postgres_url-FailsFixed : (input : Text) → FailsFixed (postgres_url U input)
  unfolding postgres_url validate_postgres
  postgres_url-FailsFixed input =
      search (fails_fixed, url_base-FailsFixed, postgres_pairs-FailsFixed)

  from_str-FailsFixed :
      (input : Text) (rest : Option Text)
      → strip_prefix (bytes "sqlite:") input ≡ rest
      → FailsFixed (from_str U input)
  unfolding from_str
  from_str-FailsFixed input (some rest) e = rw (e, from_str) (sqlite_url-FailsFixed rest)
  from_str-FailsFixed input none e = rw (e, from_str) (postgres_url-FailsFixed input)

  -- Whatever the URL is, an error of the parser is one of the fixed reasons: neither credentials nor
  -- any other text of the URL is repeated.
  pub from_str-IsFixed : (input : Text) (e : Error) → from_str U input ≡ err e → IsFixed e
  from_str-IsFixed input e h =
      (from_str-FailsFixed input (strip_prefix (bytes "sqlite:") input) refl).fixed e h

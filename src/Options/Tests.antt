-- ===== src/Options/Tests.antt =====
-- Tests and witnesses of src/options.rs.
use sqly.Shared.Bytes.{bytes, Text}
use sqly.Shared.{refl, ◌≡◌, ◌∷◌, [], List, none, some, false, All, ◌<◌, length}
use sqly.Error.{ok, err}
use sqly.Options.Defs.{
  ConnectOptions, PostgresOptions, SqliteOptions, TlsMode, config, new_sqlite, validate_sqlite,
}
use sqly.Options.Url.{UrlLibrary, ParsedUrl, from_str, unwrap_or}
use sqly.Options.Parsing.{find, tls_or, text_or, IsOnce, IsKnown}
use sqly.Options.Urls.{from_str-postgres}
use sqly.Options.Redaction.{from_str-IsFixed, IsFixed}

abbrev pairs : List (Text × Text)
pairs = (bytes "sslmode", bytes "disable") ∷ []

abbrev good_url : ParsedUrl
good_url = record {
  scheme = bytes "postgres";
  fragment = none;
  host_str = some (bytes "db");
  path = bytes "/app";
  username = bytes "me";
  password = some (bytes "pw");
  port = some 6543;
  query_pairs = pairs;
}

-- A library that knows one URL, and decodes texts as they stand.
abbrev library : UrlLibrary
library = record {
  parse = λ t. some good_url;
  parse_form = λ t. (bytes "mode", bytes "secret") ∷ [];
  percent_decode = λ t. some t;
  same_path = λ a b. false;
}

abbrev parsed : PostgresOptions
parsed = record {
  host = bytes "db";
  port = 6543;
  database = bytes "app";
  username = bytes "me";
  password = bytes "pw";
  tls = TlsMode.disable;
  root_cert = none;
  application_name = bytes "sqly";
}

abbrev given : Text
given = bytes "postgres://me:pw@db:6543/app?sslmode=disable"

from_str-given : from_str library given ≡ ok (ConnectOptions.postgres_options parsed)
unfolding from_str sqly.Options.Url.url_base sqly.Options.Url.postgres_pairs sqly.Options.Url.tls_of
    sqly.Options.Defs.validate_postgres
from_str-given = refl

from_str-postgres_example :
    (url : ParsedUrl) × (library.parse given ≡ some url)
    × IsOnce url.query_pairs
    × All IsKnown url.query_pairs
    × (parsed.tls ≡ tls_or TlsMode.verify_full (find (bytes "sslmode") url.query_pairs))
    × (parsed.root_cert ≡ find (bytes "sslrootcert") url.query_pairs)
    × (parsed.application_name
        ≡ text_or (bytes "sqly") (find (bytes "application_name") url.query_pairs))
    × (parsed.port ≡ unwrap_or 5432 url.port)
    × (0 < parsed.port)
    × (0 < length parsed.host)
    × (0 < length parsed.database)
    × (0 < length parsed.username)
from_str-postgres_example = from_str-postgres library given parsed from_str-given

from_str-refused :
    from_str library (bytes "sqlite:x?mode=secret") ≡ err (config "invalid SQLite mode")
unfolding from_str sqly.Options.Url.sqlite_pairs
from_str-refused = refl

from_str-IsFixed_example : IsFixed (config "invalid SQLite mode")
from_str-IsFixed_example =
    from_str-IsFixed library (bytes "sqlite:x?mode=secret") (config "invalid SQLite mode")
      from_str-refused

abbrev stored : SqliteOptions
stored = new_sqlite (bytes "app.db")

-- ===== src/Options/Urls.antt =====
-- src/options.rs, `from_str`: what the options of an accepted URL are, and that no error repeats
-- any of its text.
use sqly.Shared.Bytes.{bytes, Text}
use sqly.Shared.{length, ◌<◌, ◌≢◌, All, Option-cases, inl, inr, arith, [], none, some, ◌≡◌}
use sqly.Error.{ok, ok_or, >>=-eq-ok}
use sqly.Options.Defs.{ConnectOptions, PostgresOptions, TlsMode, config, validate_postgres}
use sqly.Options.Url.{
  strip_prefix, url_base, unwrap_or, UrlLibrary, ParsedUrl, postgres_pairs, from_str, sqlite_url,
  postgres_url,
}
use sqly.Options.Parsing.{postgres_pairs_lem, find, tls_or, IsOnce, IsKnown, text_or}

module _ (U : UrlLibrary) where
  url_base-eq_ok :
      (url : ParsedUrl) (base : PostgresOptions)
      → url_base U url ≡ ok base
      → (base.tls ≡ TlsMode.verify_full)
        × (base.root_cert ≡ none)
        × (base.application_name ≡ bytes "sqly")
        × (base.port ≡ unwrap_or 5432 url.port)
  unfolding url_base
  url_base-eq_ok url base h = ground arith

  usable :
      (o : PostgresOptions)
      → validate_postgres o ≡ ok tt
      → (0 < o.port) × (0 < length o.host) × (0 < length o.database) × (0 < length o.username)
  unfolding validate_postgres
  usable o h = ground arith

  abbrev Steps : Text → PostgresOptions → Type 0
  Steps input o =
      (url : ParsedUrl) × (base : PostgresOptions) × (U.parse input ≡ some url)
      × (url_base U url ≡ ok base)
      × (postgres_pairs [] base url.query_pairs ≡ ok o)
      × (validate_postgres o ≡ ok tt)

  postgres_url-Steps :
      (input : Text) (o : PostgresOptions)
      → postgres_url U input ≡ ok (ConnectOptions.postgres_options o)
      → Steps input o
  unfolding postgres_url
  postgres_url-Steps input o h =
      let (url, parsed, a) =
        >>=-eq-ok (ok_or (config "invalid database URL") (U.parse input)) _ h in
      let (base, based, b) = >>=-eq-ok (url_base U url) _ a in
      let (options, paired, c) = >>=-eq-ok (postgres_pairs [] base url.query_pairs) _ b in
      let same : options ≡ o = ground arith in
      (url, base, ground arith, based, rw same at paired, ground (arith, same))

  sqlite_url-eq_ok :
      (input : Text) (o : PostgresOptions)
      → sqlite_url U input ≢ ok (ConnectOptions.postgres_options o)
  unfolding sqlite_url
  sqlite_url-eq_ok input o h = ground arith

  -- A URL that is accepted as PostgreSQL's gives each option at most once and no unknown one. Its
  -- certificates are verified fully unless `sslmode` says otherwise, and the certificate file, the
  -- name of the application and the port are the URL's, or the defaults; host, database, user and
  -- port are there.
  pub from_str-postgres :
      (input : Text) (o : PostgresOptions)
      → from_str U input ≡ ok (ConnectOptions.postgres_options o)
      → (url : ParsedUrl) × (U.parse input ≡ some url)
        × IsOnce url.query_pairs
        × All IsKnown url.query_pairs
        × (o.tls ≡ tls_or TlsMode.verify_full (find (bytes "sslmode") url.query_pairs))
        × (o.root_cert ≡ find (bytes "sslrootcert") url.query_pairs)
        × (o.application_name
            ≡ text_or (bytes "sqly") (find (bytes "application_name") url.query_pairs))
        × (o.port ≡ unwrap_or 5432 url.port)
        × (0 < o.port)
        × (0 < length o.host)
        × (0 < length o.database)
        × (0 < length o.username)
  unfolding from_str
  from_str-postgres input o h = elim (Option-cases (strip_prefix (bytes "sqlite:") input)) [
    | inr (rest, e) ↦ absurd (ground (arith, sqlite_url-eq_ok rest o))
    | inl other ↦
        let given : postgres_url U input ≡ ok (ConnectOptions.postgres_options o) = ground arith in
        let (url, base, parsed, based, paired, valid) = postgres_url-Steps input o given in
        let pairs = postgres_pairs_lem [] base o url.query_pairs paired in
        let start = url_base-eq_ok url base based in
        let fine = usable o valid in
        (
          url,
          parsed,
          pairs.0,
          pairs.1,
          ground (arith, start.0, pairs.2),
          ground (arith, start.1, pairs.2),
          ground (arith, start.2, pairs.2),
          ground (arith, start.3, pairs.2),
          fine.0,
          fine.1,
          fine.2,
          fine.3,
        )
  ]

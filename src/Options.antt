-- ===== src/Options.antt =====
-- src/options.rs: connection settings, their validation, and the URLs that they are parsed from.
--
-- A path is its bytes, and a duration its nanoseconds. What `url`, `percent_encoding`,
-- `form_urlencoded` and `Path` do is a parameter, `UrlLibrary`.
mod Defs
mod Url
pub mod Setters
pub mod Validity
pub mod Parsing
pub mod Urls
pub mod Redaction
pub mod Tests
pub use Defs.{
  SqliteOptions, TlsMode, PostgresOptions, ConnectOptions, config, refuse_if, max_millis, as_millis,
}
unfoldable pub use Defs.{new_sqlite, in_memory, new_postgres, validate_sqlite, validate_postgres}
pub use Url.{UrlLibrary, ParsedUrl}
unfoldable pub use Url.{from_str}

-- ===== src/Value.antt =====
-- src/value.rs: the portable values, and the representation of each Rust type by one of them.
--
-- Integers are ℤ: their width is that of the kind. `Native k` is the Rust type of kind `k`.
mod Defs
pub mod Laws
mod Timestamp
pub mod Nested
pub mod Codec
pub mod Tests
pub use sqly.Foreign.{Foreign, Utc, Fetched, got, refused}
pub use Defs.{Kind, Value, Native, Representation, native, optional, kind_of, is_null}
unfoldable pub use Defs.{
  validate_time, validate, variant, into_value, from_value, option_into_value, option_from_value,
  option_encode, option_decode, encode_value,
}
unfoldable pub use Timestamp.{timestamp}

-- ===== src/Foreign.antt =====
-- What the crate uses of other libraries' values: `f64`, `uuid::Uuid`, `time::OffsetDateTime`,
-- `serde_json::Value`, and the cells of a SQLx row. The types are parameters of the development, and
-- so are the functions that the crate calls on them, which src/value.rs, src/row.rs and
-- src/driver.rs name.
use sqly.Shared.{ℕ, Bool, Option}
use sqly.Shared.Int.{ℤ}
use sqly.Shared.Bytes.{Text}
use sqly.Error.{Cause}

-- A call that fails gives an error that the crate only keeps as a cause.
pub data Fetched (A : Type 0) : Type 0 where
  got : A → Fetched A
  refused : Cause → Fetched A

-- What the crate reads of an instant in UTC.
pub record Utc : Type 0 where
  pub year : ℤ
  pub month : ℕ
  pub day : ℕ
  pub hour : ℕ
  pub minute : ℕ
  pub second : ℕ
  pub nanosecond : ℕ

pub record Foreign : Type 1 where
  pub Float : Type 0
  pub is_finite : Float → Bool
  pub Uuid : Type 0
  pub Time : Type 0
  -- `checked_to_offset(UtcOffset::UTC)`
  pub checked_to_utc : Time → Option Utc
  -- `to_offset(UtcOffset::UTC)` and the accessors of the result
  pub to_utc : Time → Utc
  -- `checked_to_offset(UtcOffset::UTC)` and `to_offset(UtcOffset::UTC)`, as instants
  pub checked_in_utc : Time → Option Time
  pub in_utc : Time → Time
  pub Json : Type 0
  -- `to_string`
  pub uuid_text : Uuid → Text
  pub json_text : Json → Text
  -- `Uuid::parse_str`, `serde_json::from_str`, `OffsetDateTime::parse(_, &Rfc3339)`
  pub parse_uuid : Text → Fetched Uuid
  pub parse_json : Text → Fetched Json
  pub parse_time : Text → Fetched Time
  -- One column of a row, `try_get_raw(i).is_null()`, the name of the column's type, and
  -- `try_get::<T>(i)` at each type that the crate asks for.
  pub Cell : Type 0
  pub raw_is_null : Cell → Bool
  pub type_name : Cell → Text
  pub get_i16 : Cell → Fetched ℤ
  pub get_i32 : Cell → Fetched ℤ
  pub get_i64 : Cell → Fetched ℤ
  pub get_text : Cell → Fetched Text
  pub get_bytes : Cell → Fetched Text
  pub get_float : Cell → Fetched Float
  pub get_bool : Cell → Fetched Bool
  pub get_uuid : Cell → Fetched Uuid
  pub get_json : Cell → Fetched Json
  pub get_time : Cell → Fetched Time

-- ===== src/Value/Defs.antt =====
-- src/value.rs: kinds, values, validation, and the sealed `Representation` trait with its macro.
use sqly.Foreign.{Utc, Foreign}
use sqly.Shared.{ℕ, ◌%◌, Bool, true, false, Option, none, some, List, ◌&&◌, ◌==◌, if◌then◌else◌}
use sqly.Shared.Int.{ℤ, pos, leb_ℤ}
use sqly.Shared.Bytes.{Text}
use sqly.Error.{DecodeKind, Result, ok, err, ◌>>=◌, ◌>>◌, invalid}

pub data Kind : Type 0 where
  text i32 i64 bool bytes float uuid time json : Kind

pub data Value (F : Foreign) : Type 0 where
  null : Kind → Value F
  text : Text → Value F
  i32 : ℤ → Value F
  i64 : ℤ → Value F
  bool : Bool → Value F
  bytes : List ℕ → Value F
  float : F.Float → Value F
  uuid : F.Uuid → Value F
  time : F.Time → Value F
  json : F.Json → Value F

module _ (F : Foreign) where
  abbrev pub Native : Kind → Type 0
  Native Kind.text = Text
  Native Kind.i32 = ℤ
  Native Kind.i64 = ℤ
  Native Kind.bool = Bool
  Native Kind.bytes = List ℕ
  Native Kind.float = F.Float
  Native Kind.uuid = F.Uuid
  Native Kind.time = F.Time
  Native Kind.json = F.Json

  abbrev pub kind_of : Value F → Kind
  kind_of (Value.null k) = k
  kind_of (Value.text v) = Kind.text
  kind_of (Value.i32 v) = Kind.i32
  kind_of (Value.i64 v) = Kind.i64
  kind_of (Value.bool v) = Kind.bool
  kind_of (Value.bytes v) = Kind.bytes
  kind_of (Value.float v) = Kind.float
  kind_of (Value.uuid v) = Kind.uuid
  kind_of (Value.time v) = Kind.time
  kind_of (Value.json v) = Kind.json

  -- `matches!(value, Value::Null(_))`.
  abbrev pub is_null : Value F → Bool
  is_null (Value.null k) = true
  is_null v = false

  abbrev check_utc : Option Utc → Result (Unit {0})
  check_utc none = err (invalid DecodeKind.out_of_range)
  check_utc (some utc) =
      if leb_ℤ (pos 1) utc.year && leb_ℤ utc.year (pos 9999)
      then (if (utc.nanosecond % 1000) == 0 then ok tt else err (invalid DecodeKind.invalid_value))
      else err (invalid DecodeKind.out_of_range)

  unfoldable pub validate_time : F.Time → Result (Unit {0})
  validate_time v = check_utc (F.checked_to_utc v)

  -- The third argument of the macro `repr!` at each type.
  unfoldable pub validate : (k : Kind) → Native k → Result (Unit {0})
  unfolding validate_time
  validate Kind.float v = if F.is_finite v then ok tt else err (invalid DecodeKind.invalid_value)
  validate Kind.time v = validate_time v
  validate k v = ok tt

  -- The second argument of the macro `repr!` at each type.
  unfoldable pub variant : (k : Kind) → Native k → Value F
  variant Kind.text v = Value.text v
  variant Kind.i32 v = Value.i32 v
  variant Kind.i64 v = Value.i64 v
  variant Kind.bool v = Value.bool v
  variant Kind.bytes v = Value.bytes v
  variant Kind.float v = Value.float v
  variant Kind.uuid v = Value.uuid v
  variant Kind.time v = Value.time v
  variant Kind.json v = Value.json v

  unfoldable pub into_value : (k : Kind) → Native k → Result (Value F)
  unfolding validate variant
  into_value k v = validate k v >> ok (variant k v)

  abbrev checked : (k : Kind) → Native k → Result (Native k)
  checked k v = validate k v >> ok v

  unfoldable pub from_value : (k : Kind) → Value F → Result (Native k)
  unfolding validate
  from_value k (Value.null j) = err (invalid DecodeKind.unexpected_null)
  from_value Kind.text (Value.text v) = checked Kind.text v
  from_value Kind.i32 (Value.i32 v) = checked Kind.i32 v
  from_value Kind.i64 (Value.i64 v) = checked Kind.i64 v
  from_value Kind.bool (Value.bool v) = checked Kind.bool v
  from_value Kind.bytes (Value.bytes v) = checked Kind.bytes v
  from_value Kind.float (Value.float v) = checked Kind.float v
  from_value Kind.uuid (Value.uuid v) = checked Kind.uuid v
  from_value Kind.time (Value.time v) = checked Kind.time v
  from_value Kind.json (Value.json v) = checked Kind.json v
  from_value k v = err (invalid DecodeKind.type_mismatch)

  -- The trait `Representation` at a type.
  pub record Representation (A : Type 0) : Type 0 where
    pub kind : Kind
    pub into : A → Result (Value F)
    pub from : Value F → Result A

  -- `repr!` at the Rust type of a kind.
  abbrev pub native : (k : Kind) → Representation (Native k)
  native k = record { kind = k; into = into_value k; from = from_value k }

  -- `impl Representation for Option<T>`.
  module _ {A : Type 0} (r : Representation A) where
    unfoldable pub option_into_value : Option A → Result (Value F)
    option_into_value none = ok (Value.null r.kind)
    option_into_value (some v) = r.into v

    unfoldable pub option_from_value : Value F → Result (Option A)
    option_from_value (Value.null j) = ok none
    option_from_value v = r.from v >>= λ a. ok (some a)

    abbrev pub optional : Representation (Option A)
    optional = record { kind = r.kind; into = option_into_value; from = option_from_value }

-- `impl Encode for Option<T>` and `impl Decode for Option<T>`, over the impl of the type inside.
module _ {A R : Type 0} where
  unfoldable pub option_encode : (A → Result R) → Option A → Result (Option R)
  option_encode encode none = ok none
  option_encode encode (some a) = encode a >>= λ r. ok (some r)

  unfoldable pub option_decode : (R → Result A) → Option R → Result (Option A)
  option_decode decode none = ok none
  option_decode decode (some r) = decode r >>= λ a. ok (some a)

-- `value.encode().and_then(Representation::into_value)`, where `encoded` is `value.encode()`.
unfoldable pub encode_value :
    {F : Foreign} {A : Type 0} → Representation F A → Result A → Result (Value F)
encode_value r encoded = encoded >>= r.into

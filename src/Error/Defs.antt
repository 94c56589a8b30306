-- ===== src/Error/Defs.antt =====
-- src/error.rs: the data types, the constructors and the refinements.
use sqly.Shared.{◌≡◌, refl, ℕ, Bool, true, false, Option, none, some}
use sqly.Shared.Bytes.{Text}

pub data ConstraintKind : Type 0 where
  unique foreign_key not_null check : ConstraintKind

pub data DecodeKind : Type 0 where
  missing_column duplicate_column unexpected_null type_mismatch invalid_value out_of_range :
      DecodeKind

-- `sqlx::error::ErrorKind`.
pub data DriverErrorKind : Type 0 where
  unique_violation foreign_key_violation not_null_violation check_violation other_kind :
      DriverErrorKind

-- What the crate reads of a `sqlx::error::DatabaseError`.
pub record DbError : Type 0 where
  pub kind : DriverErrorKind
  pub code : Option Text
  pub constraint : Option Text

-- `sqlx::Error`; `other` stands for the variants that no code names.
pub data SqlxError : Type 0 where
  pool_closed pool_timed_out row_not_found io tls protocol : SqlxError
  database : DbError → SqlxError
  other : ℕ → SqlxError

-- `CauseOption` is `Option Cause`.
mutual
  pub data Error : Type 0 where
    configuration : Text → Error
    unsupported_backend : Text → Error
    bind_count : Option ℕ → ℕ → Error
    encode_failed : Option ℕ → Cause → Error
    decode_failed : Option Text → DecodeKind → CauseOption → Error
    row_not_found : Error
    invalid_lock : Text → Error
    lock_not_found : Error
    non_unique_lock : Error
    transaction_aborted : Error
    no_active_write_scope : Error
    nested_write_scope : Error
    scope_database_mismatch : Error
    active_stream : Error
    commit_unknown : Cause → Error
    constraint_failed : ConstraintKind → Cause → Error
    contention : Cause → Error
    invalid_sql : Cause → Error
    pool_closed : Error
    pool_timed_out : Error
    database_lost : Error
    connection_failed : Cause → Error
    database_failed : Cause → Error

  pub data Cause : Type 0 where
    sqlx : SqlxError → Cause
    crate_error : Error → Cause
    foreign : ℕ → Cause

  pub data CauseOption : Type 0 where
    no_cause : CauseOption
    with_cause : Cause → CauseOption

-- `sqly::Result`, with `map_err`, `map`, `and_then`, and `?` of a result without a value.
pub data Result {u} (T : Type u) : Type u where
  ok : T → Result T
  err : Error → Result T

abbrev pub map_err {u} : {T : Type u} → (Error → Error) → Result T → Result T
map_err f (ok value) = ok value
map_err f (err error) = err (f error)

abbrev pub map_ok {u v} : {S : Type u} {T : Type v} → (S → T) → Result S → Result T
map_ok f (ok value) = ok (f value)
map_ok f (err error) = err error

infixl 5 ◌>>=◌ ◌>>◌
abbrev pub ◌>>=◌ {u v} : {S : Type u} {T : Type v} → Result S → (S → Result T) → Result T
ok value >>= next = next value
err error >>= next = err error

abbrev pub ◌>>◌ {u} : {T : Type u} → Result (Unit {0}) → Result T → Result T
first >> second = first >>= λ done. second

abbrev pub ok_or {ℓ} : {A : Type ℓ} → Error → Option A → Result A
ok_or e none = err e
ok_or e (some a) = ok a

unfoldable pub encode : Cause → Error
encode source = Error.encode_failed none source

unfoldable pub decode_value : Cause → Error
decode_value source =
    Error.decode_failed none DecodeKind.invalid_value (CauseOption.with_cause source)

unfoldable pub invalid : DecodeKind → Error
invalid kind = Error.decode_failed none kind CauseOption.no_cause

-- `Error::decode` and `Error::at_column` call one another; the call in `decode` is unfolded here.
unfoldable pub decode : Text → Cause → Error
decode column source =
    Error.decode_failed (some column) DecodeKind.invalid_value (CauseOption.with_cause source)

unfoldable pub at_column : Text → Error → Error
unfolding decode
at_column column (Error.decode_failed c kind source) = Error.decode_failed (some column) kind source
at_column column e = decode column (Cause.crate_error e)

unfoldable pub at_parameter : ℕ → Error → Error
at_parameter p (Error.encode_failed q source) = Error.encode_failed (some p) source
at_parameter p e = Error.encode_failed (some p) (Cause.crate_error e)

unfoldable pub is_unique_violation : Error → Bool
is_unique_violation (Error.constraint_failed ConstraintKind.unique c) = true
is_unique_violation e = false

-- `downcast_ref::<sqlx::Error>()` and `as_database_error()`.
unfoldable pub constraint_name : Error → Option Text
constraint_name (Error.constraint_failed k (Cause.sqlx (SqlxError.database db))) = db.constraint
constraint_name e = none

-- A chain that succeeds succeeds at each of its two steps.
pub >>=-eq-ok {u v} :
    {S : Type u} {T : Type v} (first : Result S) (next : S → Result T) {result : T}
    → (first >>= next) ≡ ok result
    → (value : S) × (first ≡ ok value) × (next value ≡ ok result)
>>=-eq-ok (ok value) next h = (value, refl, h)
>>=-eq-ok (err error) next h = cc

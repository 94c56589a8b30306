-- ===== src/Error/Classify.antt =====
-- src/error.rs, `Error::driver`, and src/transaction.rs, `commit_error`: what a driver error means.
use sqly.Shared.{
  Bool, false, not, ◌&&◌, ◌||◌, Option, none, some, List, [], ◌∷◌, any, if◌then◌else◌,
}
use sqly.Shared.Bytes.{Text, bytes, eq_text, starts_with}
use sqly.Error.Defs.{ConstraintKind, DriverErrorKind, DbError, SqlxError, Cause, Error}

-- `matches!(c, "…" | "…")`.
abbrev pub one_of : List Text → Text → Bool
one_of texts c = any (λ t. eq_text c t) texts

-- `code.is_some_and(p)`.
abbrev pub code_is : (Text → Bool) → Option Text → Bool
code_is p none = false
code_is p (some c) = p c

abbrev constraint_kind : DriverErrorKind → Option ConstraintKind
constraint_kind DriverErrorKind.unique_violation = some ConstraintKind.unique
constraint_kind DriverErrorKind.foreign_key_violation = some ConstraintKind.foreign_key
constraint_kind DriverErrorKind.not_null_violation = some ConstraintKind.not_null
constraint_kind DriverErrorKind.check_violation = some ConstraintKind.check
constraint_kind DriverErrorKind.other_kind = none

abbrev pub contention_codes : List Text
contention_codes =
    bytes "55P03" ∷ bytes "5" ∷ bytes "6" ∷ bytes "261" ∷ bytes "262" ∷ bytes "517" ∷ []

abbrev pub is_contention : Text → Bool
is_contention c = starts_with (bytes "40") c || one_of contention_codes c

abbrev pub is_invalid_sql : Text → Bool
is_invalid_sql c = starts_with (bytes "42") c || eq_text c (bytes "1")

-- The part of `Error::driver` behind `sqlx::Error::Database`.
unfoldable pub driver_database : DbError → Error
driver_database db = elim (constraint_kind db.kind) [
  | some kind ↦ Error.constraint_failed kind (Cause.sqlx (SqlxError.database db))
  | none ↦
      if code_is is_contention db.code
      then Error.contention (Cause.sqlx (SqlxError.database db))
      else if code_is is_invalid_sql db.code
      then Error.invalid_sql (Cause.sqlx (SqlxError.database db))
      else Error.database_failed (Cause.sqlx (SqlxError.database db))
]

unfoldable pub driver : SqlxError → Error
unfolding driver_database
driver SqlxError.pool_closed = Error.pool_closed
driver SqlxError.pool_timed_out = Error.pool_timed_out
driver SqlxError.row_not_found = Error.row_not_found
driver SqlxError.io = Error.connection_failed (Cause.sqlx SqlxError.io)
driver SqlxError.tls = Error.connection_failed (Cause.sqlx SqlxError.tls)
driver SqlxError.protocol = Error.connection_failed (Cause.sqlx SqlxError.protocol)
driver (SqlxError.database db) = driver_database db
driver (SqlxError.other n) = Error.database_failed (Cause.sqlx (SqlxError.other n))

abbrev pub commit_codes : List Text
commit_codes =
    bytes "5"
    ∷ bytes "6"
    ∷ bytes "19"
    ∷ bytes "787"
    ∷ bytes "1299"
    ∷ bytes "1555"
    ∷ bytes "2067"
    ∷ bytes "275"
    ∷ []

-- The codes by which a server says that the transaction did not commit.
abbrev pub is_refused_commit : Text → Bool
is_refused_commit c =
    starts_with (bytes "23") c
    || (starts_with (bytes "40") c && not (eq_text c (bytes "40003")))
    || one_of commit_codes c

abbrev pub database_code : SqlxError → Option Text
database_code (SqlxError.database db) = db.code
database_code e = none

-- `commit_error` of src/transaction.rs.
unfoldable pub commit_error : SqlxError → Error
unfolding driver
commit_error e =
    if code_is is_refused_commit (database_code e)
    then driver e
    else Error.commit_unknown (Cause.sqlx e)

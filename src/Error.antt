-- ===== src/Error.antt =====
-- src/error.rs: the error type, its constructors and refinements, the classification of driver
-- errors, `Display`, and `StdError::source`; with the result type of the crate.
--
-- A cause is a boxed error of another kind, kept for diagnosis: a driver error, an error of the
-- crate itself, or an error of the application or a third library, which is known by a number only.
-- Of `sqlx::Error` the model has the variants that the crate tells apart.
mod Defs
mod Classify
pub mod Commit
mod Show
pub mod Tests
pub use Defs.{
  ConstraintKind, DecodeKind, DriverErrorKind, DbError, SqlxError, Cause, CauseOption, Error,
  Result, ok, err, ◌>>=◌, ◌>>◌, >>=-eq-ok, map_err, map_ok, ok_or, constraint_name,
}
unfoldable pub use Defs.{
  at_column, at_parameter, is_unique_violation, decode_value, encode, decode, invalid,
}
pub use Classify.*
unfoldable pub use Classify.{driver, commit_error}
pub use Show.*

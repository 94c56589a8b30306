-- ===== src/Error/Tests.antt =====
-- Tests of the errors, and the theorems at concrete inputs.
use sqly.Shared.{◌↔◌, ◌≡◌, refl, none, some}
use sqly.Shared.Bytes.{bytes, decimal}
use sqly.Error.Defs.{DriverErrorKind, SqlxError, Cause, Error}
use sqly.Error.Classify.{commit_error, driver}
use sqly.Error.Commit.{IsRefusal, commit_error_unknown_iff}
use sqly.Error.Show.{display}

abbrev serialization_failure : SqlxError
serialization_failure =
    SqlxError.database
      (record { kind = DriverErrorKind.other_kind; code = some (bytes "40001"); constraint = none })

abbrev statement_unknown : SqlxError
statement_unknown =
    SqlxError.database
      (record { kind = DriverErrorKind.other_kind; code = some (bytes "40003"); constraint = none })

commit_error_serialization :
    commit_error serialization_failure ≡ Error.contention (Cause.sqlx serialization_failure)
unfolding commit_error
commit_error_serialization = refl

display_bind_count :
    display (Error.bind_count (some 12) 3)
    ≡ bytes "binding count mismatch (expected Some(12), received 3)"
unfolding display decimal
display_bind_count = refl

commit_error_unknown_iff_example :
    ((commit_error statement_unknown ≡ Error.commit_unknown (Cause.sqlx statement_unknown))
      ↔ (¬ IsRefusal statement_unknown))
    × (IsRefusal statement_unknown → commit_error statement_unknown ≡ driver statement_unknown)
commit_error_unknown_iff_example = commit_error_unknown_iff statement_unknown

commit_error-statement_unknown :
    commit_error statement_unknown ≡ Error.commit_unknown (Cause.sqlx statement_unknown)
unfolding commit_error
commit_error-statement_unknown = refl

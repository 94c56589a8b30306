-- ===== src/Error/Show.antt =====
-- src/error.rs, `Display` and `StdError::source`: what an error says of its causes.
use sqly.Shared.{arith, ℕ, ◌≡◌, refl, Option, none, some, ◌++◌}
use sqly.Shared.Bytes.{Text, bytes, decimal}
use sqly.Error.Defs.{ConstraintKind, DecodeKind, Error, Cause, CauseOption}

-- Derived `Debug`.
abbrev pub debug_constraint : ConstraintKind → Text
debug_constraint ConstraintKind.unique = bytes "Unique"
debug_constraint ConstraintKind.foreign_key = bytes "ForeignKey"
debug_constraint ConstraintKind.not_null = bytes "NotNull"
debug_constraint ConstraintKind.check = bytes "Check"

abbrev pub debug_decode : DecodeKind → Text
debug_decode DecodeKind.missing_column = bytes "MissingColumn"
debug_decode DecodeKind.duplicate_column = bytes "DuplicateColumn"
debug_decode DecodeKind.unexpected_null = bytes "UnexpectedNull"
debug_decode DecodeKind.type_mismatch = bytes "TypeMismatch"
debug_decode DecodeKind.invalid_value = bytes "InvalidValue"
debug_decode DecodeKind.out_of_range = bytes "OutOfRange"

-- `{:?}` of an `Option<usize>`.
abbrev pub debug_option : Option ℕ → Text
debug_option none = bytes "None"
debug_option (some n) = bytes "Some(" ++ (decimal n ++ bytes ")")

unfoldable pub display : Error → Text
display (Error.configuration reason) = bytes "invalid connection configuration: " ++ reason
display (Error.unsupported_backend backend) = bytes "backend feature is disabled: " ++ backend
display (Error.bind_count expected actual) =
    bytes "binding count mismatch (expected "
    ++ (debug_option expected ++ (bytes ", received " ++ (decimal actual ++ bytes ")")))
display (Error.encode_failed parameter c) =
    bytes "parameter encoding failed at " ++ debug_option parameter
display (Error.decode_failed column kind source) =
    bytes "row decoding failed: " ++ debug_decode kind
display Error.row_not_found = bytes "query returned no rows"
display (Error.invalid_lock reason) = bytes "invalid lock selector: " ++ reason
display Error.lock_not_found = bytes "required lock row was not found"
display Error.non_unique_lock = bytes "lock selector matched multiple rows"
display Error.transaction_aborted = bytes "transaction must be rolled back"
display Error.no_active_write_scope = bytes "an active write scope is required"
display Error.nested_write_scope = bytes "write scopes cannot be nested"
display Error.scope_database_mismatch = bytes "scope database or task identity does not match"
display Error.active_stream = bytes "a stream retains the scope connection"
display (Error.commit_unknown c) = bytes "commit outcome is unknown"
display (Error.constraint_failed kind c) = bytes "constraint violation: " ++ debug_constraint kind
display (Error.contention c) = bytes "database contention"
display (Error.invalid_sql c) = bytes "invalid SQL"
display Error.pool_closed = bytes "database pool is closed"
display Error.pool_timed_out = bytes "database acquisition timed out"
display Error.database_lost = bytes "in-memory database keeper was lost"
display (Error.connection_failed c) = bytes "database connection failed"
display (Error.database_failed c) = bytes "database operation failed"

-- `StdError::source`.
unfoldable pub source : Error → Option Cause
source (Error.encode_failed p c) = some c
source (Error.constraint_failed k c) = some c
source (Error.contention c) = some c
source (Error.invalid_sql c) = some c
source (Error.commit_unknown c) = some c
source (Error.connection_failed c) = some c
source (Error.database_failed c) = some c
source (Error.decode_failed column k (CauseOption.with_cause c)) = some c
source e = none

-- The error with another cause in place of its own, and another column name.
abbrev pub replace_cause : Cause → Option Text → Error → Error
replace_cause d n (Error.encode_failed p c) = Error.encode_failed p d
replace_cause d n (Error.constraint_failed k c) = Error.constraint_failed k d
replace_cause d n (Error.contention c) = Error.contention d
replace_cause d n (Error.invalid_sql c) = Error.invalid_sql d
replace_cause d n (Error.commit_unknown c) = Error.commit_unknown d
replace_cause d n (Error.connection_failed c) = Error.connection_failed d
replace_cause d n (Error.database_failed c) = Error.database_failed d
replace_cause d n (Error.decode_failed column k (CauseOption.with_cause c)) =
    Error.decode_failed n k (CauseOption.with_cause d)
replace_cause d n (Error.decode_failed column k CauseOption.no_cause) =
    Error.decode_failed n k CauseOption.no_cause
replace_cause d n e = e

-- Whatever an error's cause is, and whatever column it names, `Display` writes the same text.
pub display-replace_cause :
    (d : Cause) (n : Option Text) (e : Error) → display (replace_cause d n e) ≡ display e
unfolding display
display-replace_cause d n (Error.decode_failed column k CauseOption.no_cause) = refl
display-replace_cause d n (Error.decode_failed column k (CauseOption.with_cause c)) = refl
display-replace_cause d n e = refl

-- And `source` gives the cause of every error that has one, and nothing else: to replace the cause
-- of an error replaces what its source is.
pub source-replace_cause :
    (d c : Cause) (n : Option Text) (e : Error)
    → source e ≡ some c
    → source (replace_cause d n e) ≡ some d
unfolding source
source-replace_cause d c n (Error.decode_failed column k CauseOption.no_cause) h = cc
source-replace_cause d c n (Error.decode_failed column k (CauseOption.with_cause x)) h = refl
source-replace_cause d c n e h = ground arith

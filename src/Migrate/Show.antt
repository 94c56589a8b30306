-- ===== src/Migrate/Show.antt =====
-- src/migrate.rs: `From<Error>`, `Display` and `StdError::source` of the errors, and the accessors of a
-- migration.
use sqly.Shared.{Option, ◌++◌, ◌≡◌, ◌↔◌, none, some, arith}
use sqly.Shared.Int.{ℤ}
use sqly.Shared.Bytes.{Text, bytes}
use sqly.Error.{Error}
use sqly.Migrate.Defs.{Migration, MigrationError, version_text}

-- `version`, `description` and `checksum` of a migration.
abbrev pub version : Migration → ℤ
version m = m.version

abbrev pub description : Migration → Text
description m = m.description

abbrev pub checksum : Migration → Text
checksum m = m.checksum

unfoldable pub from : Error → MigrationError
from error = MigrationError.database error

abbrev of_migration : ℤ → Text → Text
of_migration version rest = bytes "migration " ++ (version_text version ++ rest)

unfoldable pub display : MigrationError → Text
display (MigrationError.configuration reason) = bytes "invalid migration configuration: " ++ reason
display MigrationError.unordered =
    bytes "migration versions must be positive and strictly increasing"
display (MigrationError.newer version target) =
    of_migration version (bytes " is newer than target " ++ version_text target)
display (MigrationError.too_old version minimum) =
    of_migration version (bytes " is older than minimum " ++ version_text minimum)
display (MigrationError.unknown_version version) =
    bytes "unknown migration " ++ version_text version
display (MigrationError.ledger_version_mismatch expected found) =
    bytes "ledger expected migration "
    ++ (version_text expected ++ (bytes ", found " ++ version_text found))
display (MigrationError.checksum_mismatch version) =
    of_migration version (bytes " checksum mismatch")
display (MigrationError.description_mismatch version) =
    of_migration version (bytes " description mismatch")
display (MigrationError.legacy_conflict version) =
    of_migration version (bytes " conflicts with legacy ledger")
display (MigrationError.database error) =
    bytes "migration database operation failed: " ++ sqly.Error.display error

unfoldable pub source : MigrationError → Option Error
source (MigrationError.database error) = some error
source e = none

-- An error has a source exactly if it comes from a database error, and then that error is its source.
pub source_iff : (e : MigrationError) (d : Error) → (source e ≡ some d) ↔ (e ≡ from d)
unfolding source from
source_iff e d = ground arith

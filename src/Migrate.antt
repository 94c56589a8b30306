-- ===== src/Migrate.antt =====
-- src/migrate.rs: namespaced migrations, their ledger, and the adoption of a legacy ledger.
--
-- SHA-256 is a parameter, a function from texts to the bytes of a digest. `apply` and `run` are in
-- Apply: jobs on a transaction, which finish, halt with an error, or are dropped.
mod Defs
pub mod Ledger
pub mod Apply
pub mod Show
pub mod Order
pub mod Adoption
pub mod Runs
pub mod Executed
pub mod Sequence
pub mod Complete
pub mod Plan
pub mod Tests
pub use Defs.{
  Migration, LegacyLedger, MigrationError, MigrationResult, Migrator, LedgerRow, done, failure,
  take_while,
}
unfoldable pub use Defs.{
  new_migration, legacy_try_new, try_new, with_compatibility, adopt_legacy, validate, pending,
  advisory_key,
}

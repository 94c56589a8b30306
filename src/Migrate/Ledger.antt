-- ===== src/Migrate/Ledger.antt =====
-- src/migrate.rs: the rows of a ledger, as they are read and compared.
use sqly.Shared.Bytes.{Text, eq_text, bytes}
use sqly.Shared.Int.{ℤ, eqb_ℤ}
use sqly.Shared.{◌&&◌, Bool}
use sqly.Foreign.{Foreign}
use sqly.Error.{Result, ok, ◌>>=◌}
use sqly.Row.{Row, try_get}
use sqly.Value.{Kind, native}
use sqly.Migrate.Defs.{LedgerRow}

-- `impl FromRow for LedgerRow`.
unfoldable pub ledger_row : {F : Foreign} → Row F → Result LedgerRow
ledger_row {F} row = do
  version ← try_get F (native F Kind.i64) (λ (n : ℤ). ok n) row (bytes "version")
  description ← try_get F (native F Kind.text) (λ (t : Text). ok t) row (bytes "description")
  checksum ← try_get F (native F Kind.text) (λ (t : Text). ok t) row (bytes "checksum")
  applied_at ← try_get F (native F Kind.text) (λ (t : Text). ok t) row (bytes "applied_at")
  ok (record {
    version = version;
    description = description;
    checksum = checksum;
    applied_at = applied_at;
  })

-- The derived `PartialEq`.
abbrev pub eq_row : LedgerRow → LedgerRow → Bool
eq_row r s =
    eqb_ℤ r.version s.version
    && (eq_text r.description s.description
        && (eq_text r.checksum s.checksum && eq_text r.applied_at s.applied_at))

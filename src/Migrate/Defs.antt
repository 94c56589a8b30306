-- ===== src/Migrate/Defs.antt =====
-- src/migrate.rs: migrations, the runner's configuration, and the checks that take no database.
use sqly.Sql.{Sql}
use sqly.Lock.{identifier}
use sqly.Shared.Bytes.{eq_text, bytes, decimal, Text}
use sqly.Shared.Int.{ltb_ℤ, leb_ℤ, eqb_ℤ, ℤ, pos, negsuc}
use sqly.Error.{Error, Result, ok, err}
use sqly.Shared.{
  ◌-◌, ◌^◌, ◌+◌, ◌%◌, ◌&&◌, ◌/◌, ◌++◌, ltb, drop, ◌==◌, ◌*◌, ◌||◌, Option, if◌then◌else◌, length,
  ◌∷◌, any, take, List, ℕ, Bool, not, [], none, some, suc, true, false,
}

pub record Migration : Type 0 where
  pub version : ℤ
  pub description : Text
  pub sql : Sql
  pub checksum : Text

pub record LegacyLedger : Type 0 where
  pub table : Text

pub data MigrationError : Type 0 where
  configuration : Text → MigrationError
  unordered : MigrationError
  newer : ℤ → ℤ → MigrationError
  too_old : ℤ → ℤ → MigrationError
  unknown_version : ℤ → MigrationError
  ledger_version_mismatch : ℤ → ℤ → MigrationError
  checksum_mismatch : ℤ → MigrationError
  description_mismatch : ℤ → MigrationError
  legacy_conflict : ℤ → MigrationError
  database : Error → MigrationError

pub data MigrationResult (A : Type 0) : Type 0 where
  done : A → MigrationResult A
  failure : MigrationError → MigrationResult A

infixl 5 ◌>>=◌ ◌>>◌
abbrev pub ◌>>=◌ : {A B : Type 0} → MigrationResult A → (A → MigrationResult B) → MigrationResult B
done a >>= f = f a
failure e >>= f = failure e

abbrev pub ◌>>◌ : {B : Type 0} → MigrationResult (Unit {0}) → MigrationResult B → MigrationResult B
m >> k = m >>= λ _. k

-- `if b { return Err(e); }`
abbrev pub fail_if : Bool → MigrationError → MigrationResult (Unit {0})
fail_if true e = failure e
fail_if false e = done tt

-- `version.to_string()`
abbrev pub version_text : ℤ → Text
version_text (pos n) = decimal n
version_text (negsuc n) = b'-' ∷ decimal (suc n)

abbrev hex_digit : ℕ → ℕ
hex_digit n = if ltb n 10 then b'0' + n else b'a' + (n - 10)

-- `{:x}` of a digest.
abbrev hex : Text → Text
hex [] = []
hex (b ∷ bs) = hex_digit (b / 16) ∷ hex_digit (b % 16) ∷ hex bs

-- What `Migration::new` feeds to the hash.
unfoldable pub preimage : ℤ → Text → Sql → Text
preimage version description sql =
    version_text version ++ (0 ∷ (description ++ (0 ∷ (sql.sqlite ++ (0 ∷ sql.postgres)))))

unfoldable pub new_migration : (Text → Text) → ℤ → Text → Sql → Migration
unfolding preimage
new_migration sha256 version description sql = record {
  version = version;
  description = description;
  sql = sql;
  checksum = hex (sha256 (preimage version description sql));
}

abbrev ledger_table : Text
ledger_table = bytes "_sqly_migrations"

abbrev identified : Result (Unit {0}) → MigrationResult (Unit {0})
identified (ok a) = done tt
identified (err e) =
    failure (MigrationError.configuration (bytes "invalid legacy table identifier"))

unfoldable pub legacy_try_new : Text → MigrationResult LegacyLedger
unfolding identifier
legacy_try_new table = do
  identified (identifier table)
  fail_if (eq_text table ledger_table)
      (MigrationError.configuration (bytes "legacy and canonical ledgers must differ"))
  done (record { table = table })

pub record Migrator : Type 0 where
  pub namespace : Text
  pub migrations : List Migration
  pub target : ℤ
  pub minimum : ℤ
  pub legacy : Option LegacyLedger

abbrev pub contains_nul : Text → Bool
contains_nul = any (λ b. b == 0)

abbrev pub not_positive : List Migration → Bool
not_positive [] = false
not_positive (m ∷ ms) = leb_ℤ m.version (pos 0)

-- `windows(2).any(|pair| pair[0].version >= pair[1].version)`
abbrev pub out_of_order : List Migration → Bool
out_of_order [] = false
out_of_order (m ∷ []) = false
out_of_order (m ∷ n ∷ ms) = leb_ℤ n.version m.version || out_of_order (n ∷ ms)

abbrev pub last_version : List Migration → ℤ
last_version [] = pos 0
last_version (m ∷ []) = m.version
last_version (m ∷ n ∷ ms) = last_version (n ∷ ms)

unfoldable pub try_new : Text → List Migration → MigrationResult Migrator
try_new namespace migrations = do
  fail_if (length namespace == 0 || (ltb 255 (length namespace) || contains_nul namespace))
      (MigrationError.configuration (bytes "namespace must contain 1 to 255 bytes without NUL"))
  fail_if (not_positive migrations || out_of_order migrations) MigrationError.unordered
  fail_if (any (λ m. contains_nul m.description) migrations)
      (MigrationError.configuration (bytes "migration descriptions must not contain NUL"))
  done (record {
    namespace = namespace;
    migrations = migrations;
    target = last_version migrations;
    minimum = pos 0;
    legacy = none;
  })

unfoldable pub with_compatibility : Migrator → ℤ → ℤ → MigrationResult Migrator
with_compatibility m target minimum_upgradeable = do
  fail_if
      (ltb_ℤ target (pos 0)
        || (ltb_ℤ minimum_upgradeable (pos 0)
            || (ltb_ℤ target minimum_upgradeable
                || (not (eqb_ℤ target (pos 0))
                    && not (any (λ n. eqb_ℤ n.version target) m.migrations)))))
      (MigrationError.configuration (bytes "invalid target or minimum upgradeable version"))
  done (record m { target = target; minimum = minimum_upgradeable })

unfoldable pub adopt_legacy : Migrator → LegacyLedger → Migrator
adopt_legacy m legacy = record m { legacy = some legacy }

pub record LedgerRow : Type 0 where
  pub version : ℤ
  pub description : Text
  pub checksum : Text
  pub applied_at : Text

-- `rows.last().map_or(0, |r| r.version)`
abbrev pub applied_version : List LedgerRow → ℤ
applied_version [] = pos 0
applied_version (r ∷ []) = r.version
applied_version (r ∷ s ∷ rows) = applied_version (s ∷ rows)

abbrev pub check_row : LedgerRow → Migration → MigrationResult (Unit {0})
check_row row m = do
  fail_if (not (eqb_ℤ row.version m.version))
      (MigrationError.ledger_version_mismatch m.version row.version)
  fail_if (not (eq_text row.description m.description))
      (MigrationError.description_mismatch row.version)
  fail_if (not (eq_text row.checksum m.checksum)) (MigrationError.checksum_mismatch row.version)
  fail_if (length row.applied_at == 0)
      (MigrationError.configuration (bytes "ledger applied_at must not be empty"))

-- The loop of `validate`: the row at an index is held against the migration at that index, so the
-- two lists are walked together.
abbrev pub check_rows : List LedgerRow → List Migration → MigrationResult (Unit {0})
check_rows [] ms = done tt
check_rows (row ∷ rows) [] = failure (MigrationError.unknown_version row.version)
check_rows (row ∷ rows) (m ∷ ms) = check_row row m >> check_rows rows ms

unfoldable pub validate : Migrator → List LedgerRow → MigrationResult (Unit {0})
validate m rows = do
  fail_if (ltb_ℤ m.target (applied_version rows))
      (MigrationError.newer (applied_version rows) m.target)
  check_rows rows m.migrations

abbrev pub take_while : (Migration → Bool) → List Migration → List Migration
take_while p [] = []
take_while p (m ∷ ms) = if p m then m ∷ take_while p ms else []

-- `self.migrations.iter().skip(rows.len()).take_while(|m| m.version <= self.target)`
unfoldable pub pending : Migrator → ℕ → List Migration
pending m rows = take_while (λ n. leb_ℤ n.version m.target) (drop rows m.migrations)

-- `i64::from_be_bytes` of the first eight bytes, in two's complement.
abbrev be_bytes : ℕ → Text → ℕ
be_bytes n [] = n
be_bytes n (b ∷ bs) = be_bytes (n * 256 + b) bs

abbrev signed_64 : ℕ → ℤ
signed_64 n = if ltb n (2 ^ 63) then pos n else negsuc (2 ^ 64 - 1 - n)

unfoldable pub advisory_key : (Text → Text) → Text → Text → ℤ
advisory_key sha256 prefix namespace =
    signed_64 (be_bytes 0 (take 8 (sha256 (prefix ++ (0 ∷ namespace)))))

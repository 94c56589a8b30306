-- ===== src/Migrate/Apply.antt =====
-- src/migrate.rs, `Migrator::run` and `apply`: the run of a migrator over one transaction.
use sqly.Shared.Bytes.{bytes, Text}
use sqly.Foreign.{Foreign}
use sqly.Shared.Int.{ltb_ℤ, ℤ, pos}
use sqly.Shared.{
  ◌&&◌, if◌then◌else◌, get_elem?, Option, length, ℕ, ◌++◌, ◌∷◌, List, Bool, [], none, some, suc,
  true, false,
}
use sqly.Migrate.Defs.{
  Migration, MigrationError, MigrationResult, done, failure, Migrator, LedgerRow, LegacyLedger,
  validate, pending, advisory_key, applied_version,
}
use sqly.Migrate.Ledger.{ledger_row, eq_row}
use sqly.Transaction.{drop_transaction, Transaction, batch, begin, commit, rollback, run_statement}
use sqly.Query.{Query, new_query, bind_all, in_transaction, fetch_one, fetch_all, execute}
use sqly.Sqlx.{lift, Io, Server, World, Outcome, returned, raised, cancelled, Mode}
use sqly.Row.{Row, Backend, try_get}
use sqly.Value.{Value, Kind, native, into_value}
use sqly.Error.{Result, ok}
use sqly.Sql.{Sql, from_text, dialects}
use sqly.Query.{convert_all}

-- The outcome of a migrator's future; `dropped` if it was cancelled.
pub data Ran (A : Type 0) : Type 0 where
  finished : A → Ran A
  halted : MigrationError → Ran A
  dropped : Ran A

abbrev pub Job : Foreign → Type 0 → Type 0
Job F A = Transaction F → Ran A × Transaction F

module _ {F : Foreign} where
  infixl 5 ◌>>=◌ ◌>>◌
  abbrev pub ◌>>=◌ : {A B : Type 0} → Job F A → (A → Job F B) → Job F B
  ◌>>=◌ m f t =
      let (r, t') = m t in
      elim r [ finished a ↦ f a t' | halted e ↦ (halted e, t') | dropped ↦ (dropped, t') ]

  abbrev pub ◌>>◌ : {B : Type 0} → Job F (Unit {0}) → Job F B → Job F B
  m >> k = m >>= λ _. k

  abbrev pub give : {A : Type 0} → A → Job F A
  give a t = (finished a, t)

  abbrev pub halt : {A : Type 0} → MigrationError → Job F A
  halt e t = (halted e, t)

  -- `?` on a `MigrationResult`.
  abbrev pub from_result : {A : Type 0} → MigrationResult A → Job F A
  from_result (done a) = give a
  from_result (failure e) = halt e

-- `?` on a `sqly::Result`, by `From<Error>`.
abbrev pub ran_of : {A : Type 0} → Outcome A → Ran A
ran_of (returned a) = finished a
ran_of (raised e) = halted (MigrationError.database e)
ran_of cancelled = dropped

abbrev pub from_io : {F : Foreign} {A : Type 0} → Io (Transaction F) A → Job F A
from_io m t = let (r, t') = m t in (ran_of r, t')

abbrev pub create_text : Text
create_text =
    bytes
      "CREATE TABLE IF NOT EXISTS _sqly_migrations (namespace TEXT NOT NULL, version BIGINT NOT NULL, description TEXT NOT NULL, checksum TEXT NOT NULL, applied_at TEXT NOT NULL, PRIMARY KEY (namespace, version))"

abbrev pub select_text : Text
select_text =
    bytes
      "SELECT version, description, checksum, applied_at FROM _sqly_migrations WHERE namespace = $1 ORDER BY version"

abbrev adopt_text : Text
adopt_text =
    bytes
      "INSERT INTO _sqly_migrations (namespace, version, description, checksum, applied_at) VALUES ($1, $2, $3, $4, $5)"

abbrev pub insert_text : Text
insert_text =
    bytes
      "INSERT INTO _sqly_migrations (namespace, version, description, checksum, applied_at) VALUES ($1, $2, $3, $4, CAST(CURRENT_TIMESTAMP AS TEXT))"

abbrev present_sql : Sql
present_sql =
    dialects
      (bytes
        "SELECT EXISTS (SELECT 1 FROM sqlite_master WHERE type = 'table' AND name = $1) AS present")
      (bytes "SELECT to_regclass($1) IS NOT NULL AS present")

abbrev pub legacy_text : LegacyLedger → Text
legacy_text l =
    bytes "SELECT version, description, checksum, applied_at FROM \""
    ++ (l.table ++ bytes "\" ORDER BY version")

abbrev legacy_name : Backend → LegacyLedger → Text
legacy_name Backend.sqlite l = l.table
legacy_name Backend.postgres l = b'"' ∷ (l.table ++ b'"' ∷ [])

module _ {F : Foreign} (S : Server F) (sha256 : Text → Text) (m : Migrator) where
  abbrev pub words : Text → Result (Value F)
  words = into_value F Kind.text

  abbrev pub number : ℤ → Result (Value F)
  number = into_value F Kind.i64

  -- `tx.query(sql).bind(…)…`
  abbrev pub bound : Text → List (Result (Value F)) → Query F
  bound sql given = bind_all (new_query (from_text sql)) given

  abbrev pub advise_query : ℤ → Query F
  advise_query key = bound (bytes "SELECT pg_advisory_xact_lock($1)") (number key ∷ [])

  abbrev pub select_query : Query F
  select_query = bound select_text (words m.namespace ∷ [])

  abbrev pub present_query : Backend → LegacyLedger → Query F
  present_query b l = bind_all (new_query present_sql) (words (legacy_name b l) ∷ [])

  abbrev pub adopt_query : LedgerRow → Query F
  adopt_query row = bound adopt_text (
      words m.namespace
      ∷ number row.version
      ∷ words row.description
      ∷ words row.checksum
      ∷ words row.applied_at
      ∷ [])

  abbrev pub record_query : Migration → Query F
  record_query n =
      bound insert_text
        (words m.namespace ∷ number n.version ∷ words n.description ∷ words n.checksum ∷ [])

  -- `….execute().await?`
  abbrev pub executed : Query F → Job F ℕ
  executed q = from_io (execute (in_transaction S q))

  abbrev pub advise : List ℤ → Job F (Unit {0})
  advise [] = give tt
  advise (key ∷ keys) = executed (advise_query key) >>= λ _. advise keys

  abbrev pub lock_keys : Backend → List ℤ
  lock_keys Backend.sqlite = []
  lock_keys Backend.postgres =
      advisory_key sha256 (bytes "sqly:migrations:ledger:v1") []
      ∷ advisory_key sha256 (bytes "sqly:migrations:namespace:v1") m.namespace
      ∷ []

  -- The loop over the rows of the legacy ledger from `index` on; the result is the vector `rows`.
  unfoldable pub adopt_rows : ℕ → List LedgerRow → List LedgerRow → Job F (List LedgerRow)
  adopt_rows index [] rows = give rows
  adopt_rows index (row ∷ source) rows = elim (get_elem? rows index) [
    | some canonical ↦ elim (eq_row row canonical) [
      | true ↦ adopt_rows (suc index) source rows
      | false ↦ halt (MigrationError.legacy_conflict row.version)
    ]
    | none ↦ executed (adopt_query row) >>= λ _. adopt_rows (suc index) source (rows ++ row ∷ [])
  ]

  -- `row.try_get("present")`
  abbrev pub is_true : Row F → Result Bool
  is_true row = try_get F (native F Kind.bool) (λ (b : Bool). ok b) row (bytes "present")

  abbrev pub is_present : LegacyLedger → Job F Bool
  is_present l t =
      (from_io (fetch_one (in_transaction S (present_query t.backend l)) (λ (r : Row F). ok r))
          >>= λ row. from_io (lift (is_true row)))
        t

  abbrev pub adopted : LegacyLedger → List LedgerRow → Bool → Job F (List LedgerRow)
  adopted l rows false = give rows
  adopted l rows true = do
    output ← from_io (run_statement S (legacy_text l) [] Mode.all)
    source ← from_io (lift (convert_all ledger_row output.rows))
    from_result (validate m source)
    adopt_rows 0 source rows

  unfoldable pub adopt : List LedgerRow → Option LegacyLedger → Job F (List LedgerRow)
  adopt rows none = give rows
  adopt rows (some l) = is_present l >>= adopted l rows

  -- The loop over the pending migrations.
  unfoldable pub apply_all : List Migration → Job F (Unit {0})
  apply_all [] = give tt
  apply_all (n ∷ rest) =
      from_io (batch S n.sql) >> executed (record_query n) >>= λ _. apply_all rest

  abbrev pub check_minimum : ℤ → Job F (Unit {0})
  check_minimum applied =
      if ltb_ℤ (pos 0) applied && ltb_ℤ applied m.minimum
      then halt (MigrationError.too_old applied m.minimum)
      else give tt

  unfoldable pub apply : Job F (Unit {0})
  apply = do
    λ t. advise (lock_keys t.backend) t
    from_io (batch S (from_text create_text))
    found ← from_io (fetch_all (in_transaction S select_query) ledger_row)
    from_result (validate m found)
    rows ← adopt found m.legacy
    check_minimum (applied_version rows)
    apply_all (pending m (length rows))

  abbrev rolled_back : MigrationError → Outcome (Unit {0}) × World F → Ran (Unit {0}) × World F
  rolled_back e (cancelled, w) = (dropped, w)
  rolled_back e (r, w) = (halted e, w)

  abbrev committed : Outcome (Unit {0}) × World F → Ran (Unit {0}) × World F
  committed (r, w) = (ran_of r, w)

  -- Behind `apply`: COMMIT, or ROLLBACK, whose result is ignored.
  abbrev pub closing : Ran (Unit {0}) × Transaction F → Ran (Unit {0}) × World F
  closing (finished a, t) = committed (commit S t)
  closing (halted e, t) = rolled_back e (rollback S t)
  closing (dropped, t) = (dropped, drop_transaction S t)

  abbrev pub begun_with : Outcome (Transaction F) × World F → Ran (Unit {0}) × World F
  begun_with (returned t, w) = closing (apply t)
  begun_with (raised e, w) = (halted (MigrationError.database e), w)
  begun_with (cancelled, w) = (dropped, w)

  unfoldable pub run : Backend → World F → Ran (Unit {0}) × World F
  run b w = begun_with (begin S b w)

-- ===== src/Warehouse/Setup.antt =====
-- consumers/warehouse/src/lib.rs, `initialize` and `Warehouse::report`.
use sqly.Shared.{List, [], ◌∷◌, ℕ}
use sqly.Shared.Int.{pos}
use sqly.Shared.Bytes.{Text, bytes}
use sqly.Foreign.{Foreign}
use sqly.Row.{Backend}
use sqly.Sql.{from_text}
use sqly.Query.{Query}
use sqly.Query.Stream.{row_stream, cursor_on_database}
use sqly.Driver.{Stop}
use sqly.Sqlx.{Io, Server, World, Outcome, returned, raised, cancelled}
use sqly.Migrate.{done, failure, Migration, new_migration, try_new}
use sqly.Migrate.Apply.{Ran, halted, run}
use sqly.Scoped.Buffered.{scoped}
use sqly.Warehouse.Items.{Stock, stock_from_row}

abbrev pub schema_text : Text
schema_text =
    bytes
      "CREATE TABLE warehouse_stock (sku TEXT PRIMARY KEY, available BIGINT NOT NULL CHECK (available >= 0)); CREATE TABLE warehouse_reservations (id BIGINT PRIMARY KEY, sku TEXT NOT NULL REFERENCES warehouse_stock(sku), quantity BIGINT NOT NULL CHECK (quantity > 0))"

abbrev pub report_text : Text
report_text = bytes "SELECT sku, available FROM warehouse_stock ORDER BY sku"

module _ (sha256 : Text → Text) where
  unfoldable pub schema : Migration
  unfolding new_migration
  schema =
      new_migration sha256 (pos 1) (bytes "warehouse stock and reservations")
        (from_text schema_text)

  unfoldable pub initialize :
      {F : Foreign} → Server F → Backend → World F → Ran (Unit {0}) × World F
  unfolding schema try_new run
  initialize S b w = elim (try_new (bytes "warehouse") (schema ∷ [])) [
    | done m ↦ run S sha256 m b w
    | failure e ↦ (halted e, w)
  ]

-- `try_collect`
abbrev pub collected : {T : Type 0} → List T → Stop → Outcome (List T)
collected values Stop.ended = returned values
collected values (Stop.broke e) = raised e
collected values Stop.dropped = cancelled

module _ {F : Foreign} (S : Server F) where
  abbrev pub report_query : Query F
  report_query = scoped (from_text report_text)

  -- `Warehouse::report` outside of every scope, where the stream of the handle is that of the pool;
  -- `n` bounds the polls.
  unfoldable pub report : Backend → ℕ → Io (World F) (List Stock)
  unfolding scoped row_stream cursor_on_database
  report b n w =
      let (given, w') =
        row_stream (stock_from_row F) (λ wants. cursor_on_database S wants b report_query) n w in
      (collected given.values given.stop, w')

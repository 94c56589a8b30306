-- ===== src/Warehouse/Tests.antt =====
-- Tests and witnesses of consumers/warehouse/src/lib.rs.
use sqly.Migrate.Ledger.{ledger_row}
use sqly.Warehouse.Schema.{initialize-executed, recorded_schema, warehouse}
use sqly.Migrate.Apply.{finished, select_query}
use sqly.Query.{in_transaction, fetch_all}
use sqly.Warehouse.Setup.{schema_text, initialize}
use sqly.Migrate.{LedgerRow}
use sqly.Shared.{◌%◌, List, Option, ℕ, length, [], ◌∷◌, ◌≡◌, ◌⊎◌, refl, none, some, true, false}
use sqly.Shared.Int.{ℤ, pos, leb_ℤ, ltb_ℤ}
use sqly.Shared.Bytes.{Text, bytes}
use sqly.Foreign.{Foreign, Fetched, got, refused}
use sqly.Error.{Cause, ok}
use sqly.Value.{Value, Kind, native, encode_value}
use sqly.Row.{Backend}
use sqly.Driver.Trace.{Event, trace}
use sqly.Transaction.{Transaction, begin_text, commit_text, begin}
use sqly.Sqlx.{Answer, Command, Server, World, SqlxRow, answered, returned}
use sqly.Sample.{libraries}
use sqly.Scoped.Defs.{Active}
use sqly.Scoped.Enter.{Ending}
use sqly.Scoped.Entering.{opened}
use sqly.Warehouse.Items.{Sku, Stock, ReserveError, parse, encode_sku, stock_lock}
use sqly.Warehouse.Defs.{reserve}
use sqly.Warehouse.Reserve.{selecting, selected, updated, inserted}
use sqly.Warehouse.Opening.{locked_by, opening}
use sqly.Warehouse.Success.{reserve-succeeded}
use sqly.Warehouse.Shortage.{Short, reserve-Short}
use sqly.Warehouse.Skus.{read_sku, parse-round_trip}

data Cell : Type 0 where
  word : Text → Cell
  number : ℤ → Cell

abbrev word_of : Cell → Fetched Text
word_of (Cell.word t) = got t
word_of (Cell.number n) = refused (Cause.foreign 3)

abbrev number_of : Cell → Fetched ℤ
number_of (Cell.word t) = refused (Cause.foreign 3)
number_of (Cell.number n) = got n

abbrev shop : Foreign
shop = record libraries {
  Cell = Cell;
  raw_is_null = λ c. false;
  type_name = λ c. bytes "INT8";
  get_i16 = number_of;
  get_i32 = number_of;
  get_i64 = number_of;
  get_text = word_of;
  get_bytes = word_of;
  get_float = λ c. got 1;
  get_bool = λ c. got true;
  get_uuid = word_of;
  get_json = word_of;
  get_time = λ c. refused (Cause.foreign 2);
}

abbrev sku : Sku
sku = record { text = bytes "A-1" }

abbrev stock_row : SqlxRow shop
stock_row = (bytes "sku", Cell.word (bytes "A-1")) ∷ (bytes "available", Cell.number (pos 5)) ∷ []

abbrev counted : List (Command shop) → Option (Answer (Option ℕ))
counted (Command.prepare sql types ∷ log) = some (answered (some (length types)))
counted log = some (answered none)

-- A stock of five.
abbrev server : Server shop
server = record {
  waits = λ log. true;
  acts = λ log. some (answered tt);
  prepares = counted;
  executes = λ log. some (answered 1);
  fetches_optional = λ log. some (answered (some stock_row));
  fetches_all = λ log. some (answered (stock_row ∷ []));
  refuses = λ v. none;
}

abbrev idle : World shop
idle = record { log = []; interrupting = false; keeper = none; closed = false }

abbrev no_scope : Option Active
no_scope = none

abbrev reserving : ℤ → Ending ReserveError (Unit {0}) × World shop
reserving quantity = reserve server no_scope Backend.sqlite 1 7 (pos 40) sku quantity idle

reserve-three : (reserving (pos 3)).0 ≡ Ending.succeeded tt
unfolding reserve begin sqly.Database.check sqly.Driver.raw_sql sqly.Transaction.require_lock
    sqly.Lock.statement encode_value sqly.Value.into_value sqly.Database.check_lease
    sqly.Driver.sqlite_on sqly.Driver.arguments sqly.Driver.sqlite_execute
    sqly.Scoped.Buffered.inside_scope sqly.Transaction.run sqly.Warehouse.Items.stock_from_row
    sqly.Row.value sqly.Row.unique_column sqly.Row.sqlite_value sqly.Transaction.commit
    sqly.Transaction.rollback sqly.Transaction.control sqly.Value.from_value
    sqly.Warehouse.Items.decode_sku
reserve-three = refl

reserve-six : (reserving (pos 6)).0 ≡ Ending.failed ReserveError.insufficient_stock
unfolding reserve begin sqly.Database.check sqly.Driver.raw_sql sqly.Transaction.require_lock
    sqly.Lock.statement encode_value sqly.Value.into_value sqly.Database.check_lease
    sqly.Driver.sqlite_on sqly.Driver.arguments sqly.Driver.sqlite_execute
    sqly.Scoped.Buffered.inside_scope sqly.Transaction.run sqly.Warehouse.Items.stock_from_row
    sqly.Row.value sqly.Row.unique_column sqly.Row.sqlite_value sqly.Transaction.commit
    sqly.Transaction.rollback sqly.Transaction.control sqly.Value.from_value
    sqly.Warehouse.Items.decode_sku
reserve-six = refl

reserve-succeeded_example :
    (no_scope ≡ none)
    × (leb_ℤ (pos 3) (pos 0) ≡ false)
    × (t : Transaction shop) × (stock : Stock) × (opened server none Backend.sqlite
          (some (stock_lock shop sku))
          idle
        ≡ some t)
    × ((selecting server (pos 40) sku (pos 3) t).0 ≡ returned stock)
    × (ltb_ℤ stock.available (pos 3) ≡ false)
    × (trace (reserving (pos 3)).1.log
        ≡ Event.control commit_text
          ∷ inserted sku (pos 40) (pos 3)
          ∷ updated sku (pos 3)
          ∷ selected sku
          ∷ locked_by server Backend.sqlite sku
          ∷ Event.control (begin_text Backend.sqlite)
          ∷ [])
reserve-succeeded_example =
    reserve-succeeded server Backend.sqlite 1 7 (pos 40) sku (pos 3) no_scope idle reserve-three

reserve-Short_example :
    ((leb_ℤ (pos 6) (pos 0) ≡ true) × ((reserving (pos 6)).1 ≡ idle))
    ⊎ ((t : Transaction shop) × (opened server none Backend.sqlite (some (stock_lock shop sku)) idle
          ≡ some t)
        × Short server Backend.sqlite 1 7
            (pos 40)
            sku
            (pos 6)
            t
            (opening server Backend.sqlite 1 7 (pos 40) sku (pos 6) idle)
            (reserving (pos 6)).1)
reserve-Short_example =
    reserve-Short server Backend.sqlite 1 7 (pos 40) sku (pos 6) no_scope idle reserve-six

parse-round_trip_example :
    (k : Sku) × (parse (bytes "A-1") ≡ ok k)
    × (encode_value (native shop Kind.text) (encode_sku k) ≡ ok (Value.text (bytes "A-1")))
    × (read_sku shop (bytes "A-1") ≡ ok k)
parse-round_trip_example = parse-round_trip shop (bytes "A-1") refl

-- A server whose tables are empty.
abbrev empty_server : Server shop
empty_server = record server { fetches_all = λ log. some (answered []) }

abbrev digest : Text → Text
digest t = 7 ∷ length t % 256 ∷ []

abbrev begun : Transaction shop
begun = record {
  world = record idle {
    log = Command.raw (begin_text Backend.sqlite) ∷ Command.lock_handle ∷ Command.acquire ∷ [];
  };
  backend = Backend.sqlite;
  aborted = false;
  finished = false;
}

begins : (begin empty_server Backend.sqlite idle).0 ≡ returned begun
unfolding begin sqly.Database.check sqly.Driver.raw_sql
begins = refl

initializes : (initialize digest empty_server Backend.sqlite idle).0 ≡ finished tt
unfolding initialize begin sqly.Database.check sqly.Driver.raw_sql encode_value
    sqly.Value.into_value sqly.Database.check_lease sqly.Driver.sqlite_on sqly.Driver.arguments
    sqly.Driver.sqlite_execute sqly.Transaction.run sqly.Transaction.commit sqly.Transaction.control
    sqly.Migrate.Apply.apply sqly.Migrate.Apply.apply_all sqly.Migrate.Apply.adopt
    sqly.Migrate.validate sqly.Migrate.pending sqly.Transaction.batch fetch_all in_transaction
    sqly.Query.bind sqly.Query.new_query sqly.Query.execute
initializes = refl

initialize-executed_example :
    (read : Transaction shop) × (found : List LedgerRow) × ((fetch_all
        (in_transaction empty_server (select_query empty_server digest (warehouse digest)))
        ledger_row
        read).0
      ≡ returned found)
    × (trace read.world.log
        ≡ sqly.Migrate.Complete.opening empty_server digest (warehouse digest) Backend.sqlite idle)
    × (((found ≡ [])
          × (trace (initialize digest empty_server Backend.sqlite idle).1.log
              ≡ Event.control commit_text
                ∷ recorded_schema digest Backend.sqlite
                ∷ Event.control schema_text
                ∷ sqly.Migrate.Sequence.selected empty_server digest
                    (warehouse digest)
                    Backend.sqlite
                ∷ sqly.Migrate.Complete.opening empty_server digest
                    (warehouse digest)
                    Backend.sqlite
                    idle))
        ⊎ (¬ (found ≡ [])
            × (trace (initialize digest empty_server Backend.sqlite idle).1.log
                ≡ Event.control commit_text
                  ∷ sqly.Migrate.Sequence.selected empty_server digest
                      (warehouse digest)
                      Backend.sqlite
                  ∷ sqly.Migrate.Complete.opening empty_server digest
                      (warehouse digest)
                      Backend.sqlite
                      idle)))
initialize-executed_example =
    initialize-executed empty_server digest Backend.sqlite idle begun begins initializes

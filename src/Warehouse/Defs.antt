-- ===== src/Warehouse/Defs.antt =====
-- consumers/warehouse/src/lib.rs: `Warehouse::reserve`.
use sqly.Shared.{Option, ℕ, if◌then◌else◌}
use sqly.Shared.Int.{ℤ, pos, leb_ℤ, ltb_ℤ}
use sqly.Value.{Foreign}
use sqly.Row.{Backend}
use sqly.Query.{Query, fetch_one, execute}
use sqly.Driver.{Output}
use sqly.Sqlx.{Io, Mode, Server, World}
use sqly.Scoped.Defs.{Active}
use sqly.Scoped.Enter.{Ending, write_locking}
use sqly.Scoped.Transactions.{transaction_futures}
use sqly.Scoped.Buffered.{inside_scope}
use sqly.Scoped.Mirrors.{shown}
use sqly.Scoped.Work.{Work, perform, fail, ◌>>=◌}
use sqly.Warehouse.Items.{
  Sku, Stock, ReserveError, insert, select_stock, take_stock, stock_from_row, stock_lock,
}

module _ {F : Foreign} {S : Type 0} (target : Query F → Mode → Io S (Output F)) where
  -- The rest of the closure of `Warehouse::reserve`, behind the SELECT.
  unfoldable pub taken : ℤ → Sku → ℤ → Stock → Work ReserveError S (Unit {0})
  unfolding execute take_stock insert
  taken id sku quantity stock =
      if ltb_ℤ stock.available quantity
      then fail ReserveError.insufficient_stock
      else perform ReserveError.database (execute (target (take_stock F quantity sku))) >>= λ n.
          perform ReserveError.database (insert target id sku quantity)

  -- The closure.
  unfoldable pub reservation : ℤ → Sku → ℤ → Work ReserveError S (Unit {0})
  unfolding taken fetch_one select_stock
  reservation id sku quantity = do
    stock ←
        perform ReserveError.database (fetch_one (target (select_stock F sku)) (stock_from_row F))
    taken id sku quantity stock

module _ {F : Foreign} (S : Server F) where
  -- `Warehouse::reserve` on the handle of the database `db`, where the task-local shows `current`;
  -- `scope` is the address of the scope that it opens.
  unfoldable pub reserve :
      Option Active
      → Backend
      → ℕ
      → ℕ
      → ℤ
      → Sku
      → ℤ
      → World F
      → Ending ReserveError (Unit {0}) × World F
  unfolding reservation stock_lock write_locking
  reserve current b scope db id sku quantity w =
      if leb_ℤ quantity (pos 0)
      then (Ending.failed ReserveError.insufficient_stock, w)
      else write_locking S (transaction_futures S) ReserveError.database current b
          (stock_lock F sku) scope db
          (reservation (inside_scope S db (shown S scope db)) id sku quantity) w

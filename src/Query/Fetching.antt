-- ===== src/Query/Fetching.antt =====
-- src/query.rs, the terminal methods: what a query that does not run leaves alone, and what a
-- conversion error does to a transaction.
use sqly.Sql.{text_for}
use sqly.Transaction.Poison.{run_statement-aborted}
use sqly.Error.{Error, Result}
use sqly.Row.{Backend, Row}
use sqly.Foreign.{Foreign}
use sqly.Sqlx.{lift, World, Mode, Server, returned, raised}
use sqly.Shared.{◌≡◌, some, false, arith}
use sqly.Query.Defs.{Query, on_database, in_transaction, fetch_all, convert_all}
use sqly.Transaction.{Transaction, run}
use sqly.Driver.{Output}

module _ {F : Foreign} (S : Server F) where
  -- A query with a binding that did not encode fails with that error and does nothing else, on a
  -- database and in a transaction: nothing is sent, and the transaction is not poisoned.
  pub unbound_lem :
      (q : Query F) (mode : Mode) (b : Backend) (e : Error) (w : World F) (t : Transaction F)
      → q.error ≡ some e
      → (on_database S b q mode w ≡ (raised e, w)) × (in_transaction S q mode t ≡ (raised e, t))
  unfolding on_database in_transaction
  unbound_lem q mode b e w t h = (ground arith, ground arith)

  module _ {T : Type 0} (from_row : Row F → Result T) where
    -- What buffers all rows, in a live transaction: if the query runs, the rows are converted in
    -- order or the first conversion error is raised, and in either case the transaction stays live.
    pub fetch_all-live :
        (q : Query F) (t : Transaction F) (output : Output F)
        → t.aborted ≡ false
        → (in_transaction S q Mode.all t).0 ≡ returned output
        → ((fetch_all (in_transaction S q) from_row t).0
            ≡ (lift {S = Transaction F} (convert_all from_row output.rows) t).0)
          × ((fetch_all (in_transaction S q) from_row t).1.aborted ≡ false)
    unfolding in_transaction fetch_all run
    fetch_all-live q t output live h =
        ground (arith, run_statement-aborted S (text_for t.backend q.sql) q.values Mode.all t live)

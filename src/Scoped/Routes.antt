-- ===== src/Scoped/Routes.antt =====
-- src/scoped.rs, `ScopedDatabase::run`, and src/query.rs, `Query::run` with the target `Scoped`:
-- where a buffered query runs.
use sqly.Shared.{Bool, ℕ, ◌≡◌, ap, arith, none, some, true, false}
use sqly.Foreign.{Foreign}
use sqly.Error.{Error, err}
use sqly.Row.{Backend}
use sqly.Query.{Query, on_database, in_transaction}
use sqly.Transaction.{Transaction}
use sqly.Sqlx.{Mode, Server, World, raised}
use sqly.Scoped.Defs.{Active, active}
use sqly.Scoped.Buffered.{
  TransactionScope, inside_scope, outside_scope, run_inside, run_outside, values,
}
use sqly.Scoped.Mirrors.{quiet, shown, inside_scope-Mirrors}

module _ {F : Foreign} (S : Server F) (q : Query F) (mode : Mode) where
  -- A query on a scoped database: outside of every scope, a declared read runs on the pool, as on the
  -- database itself, and any other query fails without a scope; in a scope of another database it
  -- fails as a mismatch and leaves the scope alone; and in an own scope with nothing under way it
  -- does to the transaction, and gives, what it does and gives in the transaction. If a binding did
  -- not encode, it fails with that error and does nothing else, outside of every scope and in any.
  pub route_lem :
      (b : Backend) (w : World F) (id db : ℕ) (k : ℕ) (t : Transaction F)
      → (outside_scope S b true q mode w ≡ on_database S b q mode w)
        × (q.error ≡ none
            → outside_scope S b false q mode w ≡ (raised Error.no_active_write_scope, w))
        × ((a : Active) (s : TransactionScope S)
            → q.error ≡ none
            → active db (some a) ≡ err Error.scope_database_mismatch
            → inside_scope S db (some a) q mode s ≡ (raised Error.scope_database_mismatch, s))
        × ((inside_scope S db (shown S id db) q mode (quiet S id db k t)).0
            ≡ (in_transaction S q mode t).0)
        × ((inside_scope S db (shown S id db) q mode (quiet S id db k t)).1.transaction
            ≡ some (in_transaction S q mode t).1)
        × ((e : Error)
            → q.error ≡ some e
            → ((read : Bool) → outside_scope S b read q mode w ≡ (raised e, w))
              × ((a : Active) (s : TransactionScope S)
                  → inside_scope S db (some a) q mode s ≡ (raised e, s)))
  unfolding outside_scope run_outside on_database values inside_scope run_inside
  route_lem b w id db k t =
      let same = (inside_scope-Mirrors S id db q mode).mirrored k t in
      (
        ground arith,
        λ h. ground arith,
        λ a s h m. ground arith,
        ap (λ r. r.0) same,
        ap (λ r. r.1.transaction) same,
        λ e h. (λ read. ground arith, λ a s. ground arith),
      )

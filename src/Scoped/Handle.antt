-- ===== src/Scoped/Handle.antt =====
-- src/scoped.rs: the handle `ScopedDatabase` with its builders, and `ReadQuery`.
use sqly.Foreign.{Foreign}
use sqly.Shared.{Option, Bool, ℕ, List, true, false}
use sqly.Error.{Result}
use sqly.Sql.{Sql}
use sqly.Value.{Value}
use sqly.Row.{Row, Backend}
use sqly.Driver.{Output}
use sqly.Query.{Query, bind, fetch_one, fetch_optional, fetch_all}
use sqly.Sqlx.{Io, Mode, Server, World}
use sqly.Scoped.Defs.{Active}
use sqly.Scoped.Buffered.{TransactionScope, scoped, inside_scope, outside_scope}

-- The database is known by its address.
pub record ScopedDatabase : Type 0 where
  pub db : ℕ

-- A query with the target `Scoped`; a `ReadQuery` is one that is declared as a read.
pub record ScopedQuery (F : Foreign) : Type 0 where
  pub query : Query F
  pub db : ℕ
  pub read : Bool

-- `Database::scoped`
unfoldable pub handle : ℕ → ScopedDatabase
handle db = record { db = db }

module _ {F : Foreign} where
  unfoldable pub query_as : ScopedDatabase → Sql → ScopedQuery F
  unfolding scoped
  query_as store sql = record { query = scoped sql; db = store.db; read = false }

  unfoldable pub query : ScopedDatabase → Sql → ScopedQuery F
  unfolding query_as
  query store sql = query_as store sql

  unfoldable pub read_as : ScopedDatabase → Sql → ScopedQuery F
  unfolding scoped
  read_as store sql = record { query = scoped sql; db = store.db; read = true }

  unfoldable pub read : ScopedDatabase → Sql → ScopedQuery F
  unfolding read_as
  read store sql = read_as store sql

  unfoldable pub read_bind : ScopedQuery F → Result (Value F) → ScopedQuery F
  unfolding bind
  read_bind q encoded = record q { query = bind q.query encoded }

-- Running a query of the handle, in a scope and outside of every scope.
module _ {F : Foreign} (S : Server F) (q : ScopedQuery F) where
  abbrev pub inside : Option Active → Mode → Io (TransactionScope S) (Output F)
  inside current = inside_scope S q.db current q.query

  abbrev pub outside : Backend → Mode → Io (World F) (Output F)
  outside b = outside_scope S b q.read q.query

-- The terminal methods of `ReadQuery` are those of the query in it.
module _ {F : Foreign} {S T : Type 0} (target : Mode → Io S (Output F))
    (from_row : Row F → Result T) where
  unfoldable pub read_one : Io S T
  unfolding fetch_one
  read_one = fetch_one target from_row

  unfoldable pub read_optional : Io S (Option T)
  unfolding fetch_optional
  read_optional = fetch_optional target from_row

  unfoldable pub read_all : Io S (List T)
  unfolding fetch_all
  read_all = fetch_all target from_row

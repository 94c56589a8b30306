-- ===== src/Scoped/Defs.antt =====
-- src/scoped.rs: the state of a scope, `active` and `available`.
use sqly.Shared.{Option, Bool, ℕ, List, if◌then◌else◌, ◌==◌, none, some, true, false}
use sqly.Foreign.{Foreign}
use sqly.Error.{Error, Result, ok, err}
use sqly.Value.{Value}
use sqly.Row.{Row}
use sqly.Sql.{Sql}
use sqly.Driver.{Output}
use sqly.Transaction.{Transaction}

pub data Poll (A : Type 0) : Type 0 where
  pending : Poll A
  ready : A → Poll A

pub data OperationOutput (F : Foreign) : Type 0 where
  query : Output F → OperationOutput F
  locked : Bool → OperationOutput F

-- The futures of `Transaction::run` and `lock` (`Call`), the stream of `Transaction::rows`
-- (`Cursor`) and the stream of a pooled query (`Pooled`), as they are between two polls. A poll gives
-- its answer, the future, and the transaction.
pub record Futures (F : Foreign) : Type 1 where
  pub Call : Type 0
  pub Cursor : Type 0
  pub Pooled : Type 0
  pub poll : Call → Transaction F → Poll (Result (OperationOutput F)) × Call × Transaction F
  pub rows : Sql → List (Value F) → Cursor
  pub poll_next : Cursor → Transaction F → Poll (Option (Result (Row F))) × Cursor × Transaction F
  pub pooled_rows : Sql → List (Value F) → Pooled
  pub poll_pooled : Pooled → Poll (Option (Result (Row F))) × Pooled

-- `ScopedCursor` and `Operation`: a future under its token. It holds the lock of the transaction
-- between its polls if `holds`.
pub record Slot (W : Type 0) : Type 0 where
  pub token : ℕ
  pub work : W
  pub holds : Bool

-- Pointers are numbers: `id` is the address of the scope, `db` that of its database, and
-- `next_token` the next fresh address. `serial` is the token of the operation that holds the mutex.
pub record Scope {F : Foreign} (P : Futures F) : Type 0 where
  pub id : ℕ
  pub db : ℕ
  pub transaction : Option (Transaction F)
  pub cursor : Option (Slot P.Cursor)
  pub operation : Option (Slot P.Call)
  pub serial : Option ℕ
  pub closed : Bool
  pub next_token : ℕ

-- What the task-local `ACTIVE` shows: a scope and its database.
pub record Active : Type 0 where
  pub scope : ℕ
  pub database : ℕ

-- `ScopedDatabase::active`, on the handle of a database.
unfoldable pub active : ℕ → Option Active → Result (Option ℕ)
active db none = ok none
active db (some a) =
    if a.database == db then ok (some a.scope) else err Error.scope_database_mismatch

-- Where a query or a lock runs.
pub data Route : Type 0 where
  in_scope : ℕ → Route
  on_pool : Route

abbrev query_route : Bool → Option ℕ → Result Route
query_route read (some scope) = ok (Route.in_scope scope)
query_route true none = ok Route.on_pool
query_route false none = err Error.no_active_write_scope

abbrev lock_route : Option ℕ → Result Route
lock_route (some scope) = ok (Route.in_scope scope)
lock_route none = err Error.no_active_write_scope

abbrev routed : (Option ℕ → Result Route) → Result (Option ℕ) → Result Route
routed f (ok s) = f s
routed f (err e) = err e

-- The choice in `ScopedDatabase::run`, and that in `ScopedDatabase::lock`.
unfoldable pub run_route : ℕ → Bool → Option Active → Result Route
unfolding active
run_route db read current = routed (query_route read) (active db current)

unfoldable pub locking_route : ℕ → Option Active → Result Route
unfolding active
locking_route db current = routed lock_route (active db current)

abbrev pub is_some : {A : Type 0} → Option A → Bool
is_some none = false
is_some (some a) = true

-- `filter(|slot| Arc::ptr_eq(&slot.token, token))`
abbrev pub own : {W : Type 0} → ℕ → Option (Slot W) → Option (Slot W)
own t none = none
own t (some slot) = if slot.token == t then some slot else none

-- Taking the slot if it is the token's; the future in it is dropped, and its lock with it.
abbrev pub without : {W : Type 0} → ℕ → Option (Slot W) → Option (Slot W)
without t none = none
without t (some slot) = if slot.token == t then none else some slot

-- Whether the future in a slot holds the lock of the transaction.
abbrev pub holding : {W : Type 0} → Option (Slot W) → Bool
holding none = false
holding (some slot) = slot.holds

abbrev pub is_pending : {A : Type 0} → Poll A → Bool
is_pending Poll.pending = true
is_pending (Poll.ready a) = false

-- Whether the task-local shows the scope of the address.
abbrev pub is_current : Option Active → ℕ → Bool
is_current none id = false
is_current (some a) id = a.scope == id

unfoldable pub available : {F : Foreign} {P : Futures F} → Scope P → Result (Unit {0})
available s =
    if s.closed
    then err Error.scope_database_mismatch
    else if is_some s.cursor
    then err Error.active_stream
    else ok tt

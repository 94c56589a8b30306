-- ===== src/Scoped/Rows.antt =====
-- src/scoped.rs: `ScopedRows`, the stream of a query on a scoped database.
use sqly.Shared.{
  Option, Bool, ℕ, List, if◌then◌else◌, not, ◌+◌, ◌||◌, ◌&&◌, none, some, true, false,
}
use sqly.Foreign.{Foreign}
use sqly.Value.{Value}
use sqly.Sql.{Sql}
use sqly.Row.{Row}
use sqly.Error.{Error, Result, ok, err}
use sqly.Transaction.{Transaction}
use sqly.Scoped.Defs.{
  Futures, Scope, Slot, Poll, Active, active, available, own, without, holding, is_current, pending,
  ready,
}

module _ {F : Foreign} (P : Futures F) where
  -- The states of `ScopedRows` by its fields: `input`, `bound` with the token, `pooled`, and `done`.
  pub data Stage : Type 0 where
    unstarted : Sql → List (Value F) → Stage
    bound : ℕ → Stage
    pooled : P.Pooled → Stage
    done : Stage

  pub record ScopedRows : Type 0 where
    pub db : ℕ
    pub read : Bool
    pub stage : Stage

  abbrev pub Item : Type 0
  Item = Poll (Option (Result (Row F)))

  -- A row is on its way, or given: the generator keeps its locals.
  abbrev pub is_suspended : Item → Bool
  is_suspended (Poll.ready (some (ok row))) = true
  is_suspended (Poll.ready r) = false
  is_suspended Poll.pending = true

  abbrev failed : Error → Item
  failed e = ready (some (err e))

  abbrev pub with_cursor :
      Slot P.Cursor → Scope P → Item × P.Cursor × Transaction F → Item × Scope P
  with_cursor slot s (r, cursor, t) = (
    r,
    record s {
      transaction = some t;
      cursor = some (record slot { work = cursor; holds = is_suspended r });
    },
  )

  abbrev pub cursor_on : Slot P.Cursor → Option (Transaction F) → Scope P → Item × Scope P
  cursor_on slot none s = (failed Error.transaction_aborted, s)
  cursor_on slot (some t) s = with_cursor slot s (P.poll_next slot.work t)

  -- A poll of the cursor in the slot, which waits for the lock of the transaction first.
  abbrev pub advance_cursor : Option (Slot P.Cursor) → Scope P → Item × Scope P
  advance_cursor none s = (failed Error.scope_database_mismatch, s)
  advance_cursor (some slot) s =
      if not slot.holds && holding s.operation then (pending, s) else cursor_on slot s.transaction s

  unfoldable pub poll_cursor : ℕ → Scope P → Item × Scope P
  poll_cursor token s = advance_cursor (own token s.cursor) s

  abbrev pub staged : Stage → Item × Scope P → Item × Stage × Scope P
  staged g (r, s) = (r, g, s)

  abbrev pub bound_poll : Option Active → ℕ → Scope P → Item × Stage × Scope P
  bound_poll current token s =
      if s.closed || not (is_current current s.id)
      then (failed Error.scope_database_mismatch, Stage.bound token, s)
      else staged (Stage.bound token) (poll_cursor token s)

  abbrev pub of_pool : Scope P → Item × P.Pooled → Item × Stage × Scope P
  of_pool s (r, rows) = (r, Stage.pooled rows, s)

  abbrev pub pooled_poll : Option ℕ → P.Pooled → Scope P → Item × Stage × Scope P
  pooled_poll none rows s = of_pool s (P.poll_pooled rows)
  pooled_poll (some scope) rows s = (failed Error.scope_database_mismatch, Stage.pooled rows, s)

  -- The cursor is put into the scope and polled.
  abbrev pub join : P.Cursor → Result (Unit {0}) → Scope P → Item × Stage × Scope P
  join cursor (err e) s = (failed e, Stage.done, s)
  join cursor (ok u) s = staged (Stage.bound s.next_token) (
      poll_cursor s.next_token (record s {
        cursor = some (record { token = s.next_token; work = cursor; holds = false });
        next_token = s.next_token + 1;
      }))

  abbrev pub first_poll : Option ℕ → Bool → Sql → List (Value F) → Scope P → Item × Stage × Scope P
  first_poll (some scope) read sql values s = join (P.rows sql values) (available s) s
  first_poll none true sql values s = of_pool s (P.poll_pooled (P.pooled_rows sql values))
  first_poll none false sql values s = (failed Error.no_active_write_scope, Stage.done, s)

  abbrev pub poll_with : Option Active → Option ℕ → Bool → Stage → Scope P → Item × Stage × Scope P
  poll_with current shown read (Stage.unstarted sql values) s = first_poll shown read sql values s
  poll_with current shown read (Stage.bound token) s = bound_poll current token s
  poll_with current shown read (Stage.pooled rows) s = pooled_poll shown rows s
  poll_with current shown read Stage.done s = (ready none, Stage.done, s)

  abbrev pub poll_in :
      Option Active → Result (Option ℕ) → Bool → Stage → Scope P → Item × Stage × Scope P
  poll_in current (err e) read g s = (failed e, g, s)
  poll_in current (ok shown) read g s = poll_with current shown read g s

  -- `ScopedRows::poll`, where the task-local shows `current`. The scope is the one that the stream
  -- is bound to, and before that the one that `current` shows.
  unfoldable pub poll : Option Active → ScopedRows → Scope P → Item × Stage × Scope P
  unfolding active available poll_cursor
  poll current rows s = poll_in current (active rows.db current) rows.read rows.stage s

  unfoldable pub finish : Stage → Scope P → Scope P
  finish (Stage.bound token) s = record s { cursor = without token s.cursor }
  finish g s = s

  abbrev pub ended : ScopedRows → Item × Stage × Scope P → Item × ScopedRows × Scope P
  ended rows (r, g, s) =
      if is_suspended r
      then (r, record rows { stage = g }, s)
      else (r, record rows { stage = Stage.done }, finish g s)

  abbrev pub poll_stage : Option Active → Stage → ScopedRows → Scope P → Item × ScopedRows × Scope P
  poll_stage current Stage.done rows s = (ready none, rows, s)
  poll_stage current g rows s = ended rows (poll current rows s)

  -- `ScopedRows::poll_next`.
  unfoldable pub poll_next : Option Active → ScopedRows → Scope P → Item × ScopedRows × Scope P
  unfolding poll finish
  poll_next current rows s = poll_stage current rows.stage rows s

  unfoldable pub drop_rows : ScopedRows → Scope P → Scope P
  unfolding finish
  drop_rows rows s = finish rows.stage s

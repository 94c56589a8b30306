-- ===== src/Scoped/Enter.antt =====
-- src/scoped.rs: `enter`, `write`, `write_locking`, and the drop of `ScopeOwner`.
use sqly.Shared.{Option, Bool, ℕ, if◌then◌else◌, none, some, true, false}
use sqly.Foreign.{Foreign}
use sqly.Error.{Error}
use sqly.Lock.{Lock}
use sqly.Row.{Backend}
use sqly.Sqlx.{World, Server, Outcome, returned, raised, cancelled}
use sqly.Transaction.{Transaction, begin, require_lock, commit, rollback, drop_transaction}
use sqly.Scoped.Defs.{Futures, Scope, Active, is_some}

-- How application work ends: with a value, with an error of its own, or without a result, as it
-- panics or is dropped.
pub data Ending (E A : Type 0) : Type 0 where
  succeeded : A → Ending E A
  failed : E → Ending E A
  cut : Ending E A

module _ {F : Foreign} (S : Server F) {E : Type 0} (from : Error → E) where
  -- `let _ = tx.rollback().await;` before the error.
  abbrev pub after_rollback : {A : Type 0} → E → Outcome (Unit {0}) × World F → Ending E A × World F
  after_rollback e (cancelled, w) = (Ending.cut, w)
  after_rollback e (r, w) = (Ending.failed e, w)

  abbrev pub after_commit : {A : Type 0} → A → Outcome (Unit {0}) × World F → Ending E A × World F
  after_commit a (returned u, w) = (Ending.succeeded a, w)
  after_commit a (raised e, w) = (Ending.failed (from e), w)
  after_commit a (cancelled, w) = (Ending.cut, w)

  -- The match on the result, with whether a stream was active.
  unfoldable pub conclude : {A : Type 0} → Ending E A → Bool → Transaction F → Ending E A × World F
  conclude (Ending.succeeded a) true t = after_rollback (from Error.active_stream) (rollback S t)
  conclude (Ending.succeeded a) false t = after_commit a (commit S t)
  conclude (Ending.failed e) active t = after_rollback e (rollback S t)
  conclude Ending.cut active t = (Ending.cut, drop_transaction S t)

  -- `ok_or(Error::TransactionAborted)?`. A scope without its transaction has no world of its own;
  -- `w` is the one at its start.
  abbrev pub conclude_slot :
      {A : Type 0} → World F → Ending E A → Bool → Option (Transaction F) → Ending E A × World F
  conclude_slot w Ending.cut active none = (Ending.cut, w)
  conclude_slot w r active none = (Ending.failed (from Error.transaction_aborted), w)
  conclude_slot w r active (some t) = conclude r active t

module _ {F : Foreign} (P : Futures F) where
  -- The scope of a transaction, at the address `id`.
  unfoldable pub new_scope : ℕ → ℕ → Transaction F → Scope P
  new_scope id db t = record {
    id = id;
    db = db;
    transaction = some t;
    cursor = none;
    operation = none;
    serial = none;
    closed = false;
    next_token = 0;
  }

  -- The scope as it is left, by `enter` or by the drop of its owner: closed, and empty. What still
  -- refers to it sees this state.
  unfoldable pub closed_scope : Scope P → Scope P
  closed_scope s = record s { closed = true; cursor = none; operation = none; transaction = none }

module _ {F : Foreign} (S : Server F) (P : Futures F) {E : Type 0} (from : Error → E) where
  abbrev pub leave : {A : Type 0} → World F → Ending E A × Scope P → Ending E A × World F
  leave w (r, s) = conclude_slot S from w r (is_some s.cursor) s.transaction

  -- From the new scope on. The closure is what it ends with, and what it leaves of the scope.
  unfoldable pub run_in_scope :
      {A : Type 0} → ℕ → ℕ → (Scope P → Ending E A × Scope P) → Transaction F → Ending E A × World F
  unfolding conclude new_scope
  run_in_scope id db closure t = leave t.world (closure (new_scope P id db t))

  abbrev pub lock_result :
      {A : Type 0}
      → (Transaction F → Ending E A × World F)
      → Outcome (Unit {0}) × Transaction F
      → Ending E A × World F
  lock_result body (returned u, t) = body t
  lock_result body (raised e, t) = after_rollback S from (from e) (rollback S t)
  lock_result body (cancelled, t) = (Ending.cut, drop_transaction S t)

  abbrev pub locked :
      {A : Type 0}
      → Option (Lock F)
      → (Transaction F → Ending E A × World F)
      → Transaction F
      → Ending E A × World F
  locked none body t = body t
  locked (some l) body t = lock_result body (require_lock S l t)

  abbrev pub begun :
      {A : Type 0}
      → (Transaction F → Ending E A × World F)
      → Outcome (Transaction F) × World F
      → Ending E A × World F
  begun body (returned t, w) = body t
  begun body (raised e, w) = (Ending.failed (from e), w)
  begun body (cancelled, w) = (Ending.cut, w)

  unfoldable pub enter :
      {A : Type 0}
      → Option Active
      → Backend
      → Option (Lock F)
      → ℕ
      → ℕ
      → (Scope P → Ending E A × Scope P)
      → World F
      → Ending E A × World F
  unfolding run_in_scope
  enter current b lock id db closure w =
      if is_some current
      then (Ending.failed (from Error.nested_write_scope), w)
      else begun (locked lock (run_in_scope id db closure)) (begin S b w)

  unfoldable pub write :
      {A : Type 0}
      → Option Active
      → Backend
      → ℕ
      → ℕ
      → (Scope P → Ending E A × Scope P)
      → World F
      → Ending E A × World F
  unfolding enter
  write current b id db closure w = enter current b none id db closure w

  unfoldable pub write_locking :
      {A : Type 0}
      → Option Active
      → Backend
      → Lock F
      → ℕ
      → ℕ
      → (Scope P → Ending E A × Scope P)
      → World F
      → Ending E A × World F
  unfolding enter
  write_locking current b lock id db closure w = enter current b (some lock) id db closure w

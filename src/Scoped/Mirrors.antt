-- ===== src/Scoped/Mirrors.antt =====
-- src/scoped.rs, buffered operations in a scope: what they do is what the same operations do on
-- the transaction of the scope.
use sqly.Row.{Row}
use sqly.Shared.{
  Option, ℕ, List, arith, refl, ap, ◌∙◌, ◌≡◌, ◌+◌, none, some, true, false, if◌then◌else◌, Bool,
}
use sqly.Foreign.{Foreign}
use sqly.Error.{ok_or, Error, Result, ok, err}
use sqly.Value.{Value}
use sqly.Sql.{Sql}
use sqly.Lock.{Lock}
use sqly.Query.{convert_first, fetch_optional, fetch_one, execute, Query, in_transaction}
use sqly.Transaction.{Transaction, run}
use sqly.Sqlx.{Io, Mode, Outcome, Server, returned, raised, cancelled, lift, pure, raise, ◌>>=◌}
use sqly.Scoped.Defs.{Poll, Active, OperationOutput, active, available}
use sqly.Scoped.Operate.{
  poll_operate, drop_operate, enqueue, continue_running, poll_fn, end_operation,
}
use sqly.Scoped.Transactions.{Call, transaction_futures}
use sqly.Scoped.Buffered.{TransactionScope, operate, run_inside, inside_scope, lock, require_lock}

module _ {F : Foreign} (S : Server F) (id db : ℕ) where
  -- The scope between two buffered operations: open, and with nothing under way.
  abbrev pub quiet : ℕ → Transaction F → TransactionScope S
  quiet k t = record {
    id = id;
    db = db;
    transaction = some t;
    cursor = none;
    operation = none;
    serial = none;
    closed = false;
    next_token = k;
  }

  -- What the task-local shows in the scope.
  abbrev pub shown : Option Active
  shown = some (record { scope = id; database = db })

  -- On a quiet scope the action does what the other does on the transaction, and the scope is quiet
  -- again.
  pub record Mirrors {R : Type 0} (m : TransactionScope S → R × TransactionScope S)
      (n : Transaction F → R × Transaction F) : Type 0 where
    pub after : ℕ → Transaction F → ℕ
    pub mirrored :
        (k : ℕ) (t : Transaction F) → m (quiet k t) ≡ ((n t).0, quiet (after k t) (n t).1)

module _ {F : Foreign} (S : Server F) (id db : ℕ) where
  abbrev outcome_of : Poll (Result (OperationOutput F)) → Outcome (OperationOutput F)
  outcome_of (Poll.ready (ok output)) = returned output
  outcome_of (Poll.ready (err e)) = raised e
  outcome_of Poll.pending = cancelled

  operate-quiet :
      (c : Call F) (k : ℕ) (t : Transaction F)
      → operate S (shown S id db) c (quiet S id db k t) ≡ (
        outcome_of ((transaction_futures S).poll c t).0,
        quiet S id db (k + 1) ((transaction_futures S).poll c t).2,
      )
  unfolding operate poll_operate drop_operate enqueue continue_running poll_fn end_operation
      available
  operate-quiet c k t = ground arith

  run_inside-Mirrors :
      (sql : Sql) (given : List (Value F)) (mode : Mode)
      → Mirrors S id db (run_inside S db (shown S id db) sql given mode) (run S sql given mode)
  unfolding run_inside active
  run_inside-Mirrors sql given mode = record {
    after = λ k t. k + 1;
    mirrored = λ k t. ground (arith, operate-quiet (Call.run_call sql given mode) k t);
  }

  pub lock-Mirrors :
      (l : Lock F) → Mirrors S id db (lock S db (shown S id db) l) (sqly.Transaction.lock S l)
  unfolding lock active
  lock-Mirrors l = record {
    after = λ k t. k + 1;
    mirrored = λ k t. ground (arith, operate-quiet (Call.lock_call l) k t);
  }

  Mirrors-rest :
      {A B : Type 0} {f : A → Io (TransactionScope S) B} {g : A → Io (Transaction F) B}
      (h : (a : A) → Mirrors S id db (f a) (g a)) (r : Outcome A) (k : ℕ) (t : Transaction F)
      → (j : ℕ) × (((λ u. (r, quiet S id db k t)) >>= f) (quiet S id db k t) ≡ (
        (((λ (u : Transaction F). (r, t)) >>= g) t).0,
        quiet S id db j (((λ (u : Transaction F). (r, t)) >>= g) t).1,
      ))
  Mirrors-rest h (returned a) k t = ((h a).after k t, (h a).mirrored k t)
  Mirrors-rest h (raised e) k t = (k, refl)
  Mirrors-rest h cancelled k t = (k, refl)

  pub Mirrors-bind :
      {A B : Type 0} {m : Io (TransactionScope S) A} {n : Io (Transaction F) A}
      {f : A → Io (TransactionScope S) B} {g : A → Io (Transaction F) B}
      → Mirrors S id db m n
      → ((a : A) → Mirrors S id db (f a) (g a))
      → Mirrors S id db (m >>= f) (n >>= g)
  Mirrors-bind {m} {n} {f} {g} c h = record {
    after = λ k t. (Mirrors-rest h (n t).0 (c.after k t) (n t).1).0;
    mirrored = λ k t.
        ap (λ p. ((λ (u : TransactionScope S). p) >>= f) (quiet S id db k t)) (c.mirrored k t)
        ∙ (Mirrors-rest h (n t).0 (c.after k t) (n t).1).1;
  }

  pub Mirrors-lift : {A : Type 0} (r : Result A) → Mirrors S id db (lift r) (lift r)
  Mirrors-lift (ok a) = record { after = λ k t. k; mirrored = λ k t. refl }
  Mirrors-lift (err e) = record { after = λ k t. k; mirrored = λ k t. refl }

  pub Mirrors-pure : {A : Type 0} (a : A) → Mirrors S id db (pure a) (pure a)
  Mirrors-pure a = record { after = λ k t. k; mirrored = λ k t. refl }

  pub Mirrors-raise : (A : Type 0) (e : Error) → Mirrors S id db {R = Outcome A} (raise e) (raise e)
  Mirrors-raise A e = record { after = λ k t. k; mirrored = λ k t. refl }

  pub Mirrors-if :
      {R : Type 0} (b : Bool) {m m' : TransactionScope S → R × TransactionScope S}
      {n n' : Transaction F → R × Transaction F}
      → Mirrors S id db m n
      → Mirrors S id db m' n'
      → Mirrors S id db (if b then m else m') (if b then n else n')
  Mirrors-if true h k = h
  Mirrors-if false h k = k

  pub require_lock-Mirrors :
      (l : Lock F)
      → Mirrors S id db (require_lock S db (shown S id db) l) (sqly.Transaction.require_lock S l)
  unfolding require_lock sqly.Transaction.require_lock
  require_lock-Mirrors l =
      Mirrors-bind (lock-Mirrors l)
        λ found. Mirrors-if found (Mirrors-pure tt) (Mirrors-raise (Unit {0}) Error.lock_not_found)

  unless_error-Mirrors :
      {A : Type 0} (o : Option Error) {m : Io (TransactionScope S) A} {n : Io (Transaction F) A}
      → Mirrors S id db m n
      → Mirrors S id db {R = Outcome A}
          (elim o [ none ↦ m | some e ↦ raise e ])
          (elim o [ none ↦ n | some e ↦ raise e ])
  unless_error-Mirrors none h = h
  unless_error-Mirrors {A} (some e) h = Mirrors-raise A e

  pub inside_scope-Mirrors :
      (q : Query F) (mode : Mode)
      → Mirrors S id db (inside_scope S db (shown S id db) q mode) (in_transaction S q mode)
  unfolding inside_scope in_transaction
  inside_scope-Mirrors q mode =
      unless_error-Mirrors q.error (run_inside-Mirrors q.sql q.values mode)

  pub fetch_one-Mirrors :
      {T : Type 0} (from_row : Row F → Result T) (q : Query F)
      → Mirrors S id db
          (fetch_one (inside_scope S db (shown S id db) q) from_row)
          (fetch_one (in_transaction S q) from_row)
  unfolding fetch_one fetch_optional
  fetch_one-Mirrors from_row q =
      Mirrors-bind
        (Mirrors-bind (inside_scope-Mirrors q Mode.optional)
          λ output. Mirrors-lift (convert_first from_row output.rows))
        λ found. Mirrors-lift (ok_or Error.row_not_found found)

  pub execute-Mirrors :
      (q : Query F)
      → Mirrors S id db
          (execute (inside_scope S db (shown S id db) q))
          (execute (in_transaction S q))
  unfolding execute
  execute-Mirrors q =
      Mirrors-bind (inside_scope-Mirrors q Mode.execute) λ output. Mirrors-pure output.affected

-- ===== src/Transaction/Poison.antt =====
-- src/transaction.rs: the flag `aborted`. A failed or cancelled operation poisons the transaction,
-- a poisoned transaction does no further work, and it never commits.
use sqly.Lock.Builder.{is_lock_error, build}
use sqly.Sql.{Sql}
use sqly.Value.{Value}
use sqly.Shared.Bytes.{Text}
use sqly.Error.{Result, Error}
use sqly.Foreign.{Foreign}
use sqly.Shared.{◌∷◌, [], refl, not, ◌⊎◌, ◌≡◌, List, Bool, true, false, inl, inr, arith}
use sqly.Sqlx.{lift, Io, Mode, World, Server, Outcome, returned, raised, cancelled, ◌>>=◌}
use sqly.Database.{check_lease}
use sqly.Transaction.Defs.{Transaction}
use sqly.Transaction.Methods.{matched, run_statement, run, batch, lock, is_local_error}

-- An error of a lock behind which the transaction stays live: one of the selector, also where it has
-- matched several rows, or a local one.
abbrev pub is_harmless_error : Error → Bool
is_harmless_error (Error.invalid_lock r) = true
is_harmless_error Error.non_unique_lock = true
is_harmless_error e = is_local_error e

abbrev pub is_local_outcome : {A : Type 0} → Outcome A → Bool
is_local_outcome (returned a) = true
is_local_outcome (raised e) = is_local_error e
is_local_outcome cancelled = false

abbrev pub is_harmless : {A : Type 0} → Outcome A → Bool
is_harmless (returned a) = true
is_harmless (raised e) = is_harmless_error e
is_harmless cancelled = false

module _ {F : Foreign} (S : Server F) where
  pub check_lease-raises :
      (w : World F)
      → ((check_lease S w).0 ≡ returned tt)
        ⊎ ((check_lease S w).0 ≡ raised Error.database_lost)
        ⊎ ((check_lease S w).0 ≡ cancelled)
  unfolding check_lease
  check_lease-raises w = ground arith

  pub run_statement-poisoned :
      (sql : Text) (values : List (Value F)) (mode : Mode) (t : Transaction F)
      → t.aborted ≡ true
      → run_statement S sql values mode t ≡ (raised Error.transaction_aborted, t)
  unfolding run_statement
  run_statement-poisoned sql values mode t h = ground arith

  -- An operation on a live transaction poisons it, unless it returns or fails with a local error:
  -- a wrong number of bindings, or a value that is not encoded. A dropped future poisons it.
  pub run_statement-aborted :
      (sql : Text) (values : List (Value F)) (mode : Mode) (t : Transaction F)
      → t.aborted ≡ false
      → (run_statement S sql values mode t).1.aborted
        ≡ not (is_local_outcome (run_statement S sql values mode t).0)
  unfolding run_statement
  run_statement-aborted sql values mode t h = elim (check_lease-raises t.world) [
    | inl held ↦ ground arith
    | inr (inl lost) ↦ ground arith
    | inr (inr dropped) ↦ ground arith
  ]

-- What the borrower of a transaction can do.
pub data Operation (F : Foreign) : Type 0 where
  statement_of : Sql → List (Value F) → Mode → Operation F
  batch_of : Sql → Operation F
  -- by the table and the keys that the lock is built from
  lock_of : Text → List (Text × Result (Value F)) → Operation F

abbrev discard_result : {A : Type 0} → Outcome A → Outcome (Unit {0})
discard_result (returned a) = returned tt
discard_result (raised e) = raised e
discard_result cancelled = cancelled

abbrev ignoring : {S A : Type 0} → Io S A → Io S (Unit {0})
ignoring m s = let (r, s') = m s in (discard_result r, s')

pub is_lock_error-harmless : (e : Error) → is_lock_error e ≡ true → is_harmless_error e ≡ true
is_lock_error-harmless (Error.invalid_lock r) h = refl
is_lock_error-harmless e h = ground arith

module _ {F : Foreign} (S : Server F) where
  abbrev pub perform : Operation F → Io (Transaction F) (Unit {0})
  perform (Operation.statement_of sql values mode) = ignoring (run S sql values mode)
  perform (Operation.batch_of sql) = ignoring (batch S sql)
  perform (Operation.lock_of table given) = ignoring (lock S (build F table given))

  -- A sequence of operations, whatever the caller makes of their results.
  abbrev pub perform_all : List (Operation F) → Transaction F → Transaction F
  perform_all [] t = t
  perform_all (op ∷ ops) t = perform_all ops (perform op t).1

  pub perform-poisoned :
      (op : Operation F) (t : Transaction F) → t.aborted ≡ true → (perform op t).1 ≡ t
  unfolding run batch lock run_statement
  perform-poisoned (Operation.statement_of sql values mode) t h = ground arith
  perform-poisoned (Operation.batch_of sql) t h = ground arith
  perform-poisoned (Operation.lock_of table given) t h = ground arith

  -- On a poisoned transaction no operation sends anything, or changes its state.
  pub perform_all-poisoned :
      (ops : List (Operation F)) (t : Transaction F) → t.aborted ≡ true → perform_all ops t ≡ t
  perform_all-poisoned [] t h = refl
  perform_all-poisoned (op ∷ ops) t h =
      let same = perform-poisoned op t h in rw same (perform_all-poisoned ops t h)

  unfoldable pub lock_from : Result (Text × List (Value F)) → Io (Transaction F) Bool
  lock_from r = do
    selected ← lift r
    output ← run_statement S selected.0 selected.1 Mode.all
    matched S output.rows

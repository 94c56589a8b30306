-- ===== src/Transaction/Methods.antt =====
-- src/transaction.rs: the methods.
use sqly.Value.{Value}
use sqly.Row.{Row, Backend}
use sqly.Lock.{statement, Lock}
use sqly.Shared.Bytes.{Text}
use sqly.Sql.{text_for, Sql}
use sqly.Foreign.{Foreign}
use sqly.Error.{driver, commit_error, Error, Result, ok, err}
use sqly.Shared.{◌∷◌, List, if◌then◌else◌, Bool, [], true, false}
use sqly.Sqlx.{
  when, raise, Mode, World, pure, lift, modify, attempt, Outcome, Server, Io, raised, ◌>>=◌, ◌>>◌,
}
use sqly.Driver.{Output, sqlite_on, postgres_on}
use sqly.Database.{check_lease}
use sqly.Transaction.Defs.{Transaction, on_world, control, consume, commit_text, rollback_text}

module _ {F : Foreign} where
  abbrev pub set_aborted : Bool → Io (Transaction F) (Unit {0})
  set_aborted b = modify λ t. record t { aborted = b }

  abbrev pub finish : Io (Transaction F) (Unit {0})
  finish = modify λ t. record t { finished = true }

  -- `if self.aborted { return Err(TransactionAborted) }`
  abbrev pub unless_aborted : {A : Type 0} → Io (Transaction F) A → Io (Transaction F) A
  unless_aborted m t = if t.aborted then (raised Error.transaction_aborted, t) else m t

-- `matches!(&result, Err(Error::BindCount { .. } | Error::Encode { .. }))`
abbrev pub is_local_error : Error → Bool
is_local_error (Error.bind_count e a) = true
is_local_error (Error.encode_failed p c) = true
is_local_error e = false

abbrev pub is_local : {A : Type 0} → Result A → Bool
is_local (ok a) = true
is_local (err e) = is_local_error e

module _ {F : Foreign} (S : Server F) where
  abbrev pub execute_on : Text → List (Value F) → Mode → Backend → Io (World F) (Output F)
  execute_on sql values mode Backend.sqlite = sqlite_on S sql values mode
  execute_on sql values mode Backend.postgres = postgres_on S sql values mode

  unfoldable pub run_statement : Text → List (Value F) → Mode → Io (Transaction F) (Output F)
  run_statement sql values mode = unless_aborted do
    set_aborted true
    on_world (check_lease S)
    result ← attempt (λ t. on_world (execute_on sql values mode t.backend) t)
    when (is_local result) (set_aborted false)
    lift result

  unfoldable pub run : Sql → List (Value F) → Mode → Io (Transaction F) (Output F)
  unfolding run_statement
  run sql values mode t = run_statement (text_for t.backend sql) values mode t

  unfoldable pub batch : Sql → Io (Transaction F) (Unit {0})
  batch sql = unless_aborted do
    set_aborted true
    on_world (check_lease S)
    λ t. control S driver (text_for t.backend sql) t
    set_aborted false

  abbrev pub is_postgres : Backend → Bool
  is_postgres Backend.sqlite = false
  is_postgres Backend.postgres = true

  abbrev pub matched : List (Row F) → Io (Transaction F) Bool
  matched [] = pure false
  matched (r ∷ []) = pure true
  matched (r ∷ s ∷ rows) = raise Error.non_unique_lock

  unfoldable pub lock : Lock F → Io (Transaction F) Bool
  unfolding run_statement
  lock l = do
    selected ← λ t. lift (statement F l (is_postgres t.backend)) t
    output ← run_statement selected.0 selected.1 Mode.all
    matched output.rows

  unfoldable pub require_lock : Lock F → Io (Transaction F) (Unit {0})
  unfolding lock
  require_lock l = do found ← lock l; if found then pure tt else raise Error.lock_not_found

  abbrev ended : Io (Transaction F) (Unit {0})
  ended = do
    attempt (control S driver rollback_text) >>= λ ignored. pure tt
    raise Error.transaction_aborted

  abbrev committed : Io (Transaction F) (Unit {0})
  committed = do on_world (check_lease S); control S commit_error commit_text; finish

  unfoldable pub commit : Transaction F → Outcome (Unit {0}) × World F
  unfolding consume
  commit = consume S (λ t. (if t.aborted then ended else committed) t)

  unfoldable pub rollback : Transaction F → Outcome (Unit {0}) × World F
  unfolding consume
  rollback = consume S (control S driver rollback_text >> finish)

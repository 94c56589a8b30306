-- ===== src/Transaction/Defs.antt =====
-- src/transaction.rs: the state, `begin`, `control` and the drop.
use sqly.Error.{Error, driver, SqlxError}
use sqly.Shared.Bytes.{bytes, Text}
use sqly.Foreign.{Foreign}
use sqly.Row.{Backend}
use sqly.Shared.{if◌then◌else◌, Bool, false}
use sqly.Sqlx.{
  modify, Command, Outcome, call, send, World, Server, Io, returned, raised, cancelled, ◌>>◌,
}
use sqly.Driver.{raw_sql}
use sqly.Database.{check}

pub record Transaction (F : Foreign) : Type 0 where
  pub world : World F
  pub backend : Backend
  pub aborted : Bool
  pub finished : Bool

-- An action on the connection and the database, as an action on the transaction.
abbrev pub on_world : {F : Foreign} {A : Type 0} → Io (World F) A → Io (Transaction F) A
on_world m t = let (r, w) = m t.world in (r, record t { world = w })

abbrev pub begin_text : Backend → Text
begin_text Backend.sqlite = bytes "BEGIN IMMEDIATE"
begin_text Backend.postgres = bytes "BEGIN ISOLATION LEVEL READ COMMITTED"

abbrev pub commit_text : Text
commit_text = bytes "COMMIT"

abbrev pub rollback_text : Text
rollback_text = bytes "ROLLBACK"

module _ {F : Foreign} (S : Server F) where
  -- `f` is what the caller maps the driver's error by.
  abbrev pub control_on : (SqlxError → Error) → Text → Backend → Io (World F) (Unit {0})
  control_on f sql Backend.sqlite = do
    call f Command.lock_handle S.acts
    modify λ w. record w { interrupting = false }
    raw_sql S f sql
  control_on f sql Backend.postgres = raw_sql S f sql

  unfoldable pub control : (SqlxError → Error) → Text → Io (Transaction F) (Unit {0})
  control f sql t = on_world (control_on f sql t.backend) t

  -- Dropping an unfinished transaction closes its connection; otherwise the pool gets it back.
  unfoldable pub drop_transaction : Transaction F → World F
  drop_transaction t = send (if t.finished then Command.release else Command.discard) t.world

  -- A method that takes `self`.
  unfoldable pub consume : {A : Type 0} → Io (Transaction F) A → Transaction F → Outcome A × World F
  unfolding drop_transaction
  consume m t = let (r, t') = m t in (r, drop_transaction t')

  abbrev fresh : Backend → World F → Transaction F
  fresh b w = record { world = w; backend = b; aborted = false; finished = false }

  -- On failure the new transaction is dropped.
  abbrev started : Outcome (Unit {0}) × Transaction F → Outcome (Transaction F) × World F
  started (returned a, t) = (returned t, t.world)
  started (raised e, t) = (raised e, drop_transaction t)
  started (cancelled, t) = (cancelled, drop_transaction t)

  unfoldable pub begin : Backend → Io (World F) (Transaction F)
  unfolding control drop_transaction
  begin b = do
    check S
    call driver Command.acquire S.acts
    λ w. started (control driver (begin_text b) (fresh b w))

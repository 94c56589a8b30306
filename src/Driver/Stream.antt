-- ===== src/Driver/Stream.antt =====
-- src/driver.rs: `rows`, `sqlite_rows` and `postgres_rows`, the streams of rows.
--
-- A stream is what it does for a consumer that polls it up to `n` times, as long as each row that
-- it gets pleases it (`wants`), and that then drops it. A consumer that is itself dropped, as it
-- waits, drops the stream too.
use sqly.Value.{Value, Kind}
use sqly.Shared.Bytes.{Text}
use sqly.Row.{Row, Backend}
use sqly.Error.{driver, Error}
use sqly.Foreign.{Foreign}
use sqly.Sql.{Sql}
use sqly.Shared.{
  length, ◌∷◌, if◌then◌else◌, Option, ℕ, List, Bool, [], none, some, true, false, zero, suc,
}
use sqly.Sqlx.{
  cancelled, expect, pure, Command, call, ask, lift, send, raised, World, SqlxRow, returned, Io,
  Server, Outcome, Answer, answered, failed, ◌>>=◌, ◌>>◌,
}
use sqly.Driver.Arguments.{arguments, Arguments}
use sqly.Driver.Prepare.{parameter_count, prepare_with, check_count, postgres_statement}

-- How the polls of a stream end: it has no more rows, it gave an error, or it was dropped before.
pub data Stop : Type 0 where
  ended dropped : Stop
  broke : Error → Stop

pub record Taken (F : Foreign) : Type 0 where
  pub rows : List (Row F)
  pub stop : Stop

abbrev pub is_ended : Stop → Bool
is_ended Stop.ended = true
is_ended s = false

-- `Lease`, without its connection.
pub record Lease : Type 0 where
  pub reusable : Bool

module _ {F : Foreign} where
  abbrev pub nothing : Stop → Taken F
  nothing s = record { rows = []; stop = s }

  abbrev pub refuse : Error → Taken F
  refuse e = nothing (Stop.broke e)

  abbrev pub with_row : {W : Type 0} → Row F → Taken F × W → Taken F × W
  with_row row (taken, w) = (record taken { rows = row ∷ taken.rows }, w)

  -- The code before the first row, in a generator of `try_stream!`.
  abbrev pub started : {W A : Type 0} → (A → W → Taken F × W) → Outcome A × W → Taken F × W
  started k (returned a, w) = k a w
  started k (raised e, w) = (refuse e, w)
  started k (cancelled, w) = (nothing Stop.dropped, w)

  abbrev pub on_answer :
      Backend
      → (Row F → Bool)
      → Outcome (Answer (Option (SqlxRow F)))
      → World F
      → Taken F × World F
      → Taken F × World F
  on_answer b wants (returned (answered (some columns))) w rest =
      let row : Row F = record { backend = b; columns = columns } in
      if wants row then with_row row rest else with_row row (nothing Stop.dropped, w)
  on_answer b wants (returned (answered none)) w rest = (nothing Stop.ended, w)
  on_answer b wants (returned (failed e)) w rest = (refuse (driver e), w)
  on_answer b wants (raised e) w rest = (refuse e, w)
  on_answer b wants cancelled w rest = (nothing Stop.dropped, w)

module _ {F : Foreign} (S : Server F) (wants : Row F → Bool) where
  -- `while let Some(row) = rows.try_next().await.map_err(Error::driver)? { yield row; }`
  unfoldable pub read_rows : Backend → Text → List (Value F) → ℕ → World F → Taken F × World F
  read_rows b sql args zero w = (nothing Stop.dropped, w)
  read_rows b sql args (suc n) w =
      let (r, w') = ask (Command.next sql args) S.fetches_optional w in
      on_answer b wants r w' (read_rows b sql args n w')

  -- The life of a `SqliteCancellation` in the generator.
  abbrev pub guarded_rows : (World F → Taken F × World F) → World F → Taken F × World F
  guarded_rows m w =
      let (taken, w') = m (record w { interrupting = false }) in
      (taken, if is_ended taken.stop then w' else record w' { interrupting = true })

  abbrev pub sqlite_checked : Text → List Kind → Io (World F) (Unit {0})
  sqlite_checked sql types = do
    statement ← prepare_with S sql types
    parameters ← expect driver statement
    check_count S (parameter_count parameters) (length types)

  abbrev pub bound_sqlite : List (Value F) → Io (World F) (Arguments F)
  bound_sqlite values = do
    bound ← lift (arguments F S Backend.sqlite 0 values)
    call driver Command.lock_handle S.acts
    pure bound

  abbrev pub sqlite_body : Text → ℕ → Arguments F → World F → Taken F × World F
  sqlite_body sql n bound =
      guarded_rows
        λ w. started (λ u. read_rows Backend.sqlite sql bound.0 n) (sqlite_checked sql bound.1 w)

  unfoldable pub sqlite_rows : Text → List (Value F) → ℕ → World F → Taken F × World F
  unfolding read_rows
  sqlite_rows sql values zero w = (nothing Stop.dropped, w)
  sqlite_rows sql values (suc n) w = started (sqlite_body sql (suc n)) (bound_sqlite values w)

  abbrev pub bound_postgres : Text → List (Value F) → Bool → Io (World F) (List (Value F))
  bound_postgres sql values in_transaction = do
    bound ← lift (arguments F S Backend.postgres 0 values)
    postgres_statement S sql bound.1 in_transaction
    pure bound.0

  unfoldable pub postgres_rows : Text → List (Value F) → Bool → ℕ → World F → Taken F × World F
  unfolding read_rows
  postgres_rows sql values in_transaction zero w = (nothing Stop.dropped, w)
  postgres_rows sql values in_transaction (suc n) w =
      started (λ args. read_rows Backend.postgres sql args (suc n))
        (bound_postgres sql values in_transaction w)

  abbrev pub drop_lease : Lease → World F → World F
  drop_lease lease w = send (if lease.reusable then Command.release else Command.discard) w

  -- The generator around the stream of a backend: an error leaves the loop by `?`, and a drop leaves
  -- it at a row or as it waits, so that only the end of the rows gets to the assignment behind it.
  abbrev pub behind_loop : Stop → Lease → Lease
  behind_loop Stop.ended lease = record lease { reusable = true }
  behind_loop (Stop.broke e) lease = lease
  behind_loop Stop.dropped lease = lease

  abbrev pub leased : Taken F × World F → Taken F × World F
  leased (taken, w) = (taken, drop_lease (behind_loop taken.stop (record { reusable = false })) w)

  abbrev pub backend_rows : Backend → Sql → List (Value F) → Bool → ℕ → World F → Taken F × World F
  backend_rows Backend.sqlite sql values in_transaction n w = sqlite_rows sql.sqlite values n w
  backend_rows Backend.postgres sql values in_transaction n w =
      postgres_rows sql.postgres values in_transaction n w

  -- On a pooled connection.
  unfoldable pub rows : Backend → Sql → List (Value F) → ℕ → World F → Taken F × World F
  unfolding sqlite_rows postgres_rows
  rows b sql values zero w = (nothing Stop.dropped, w)
  rows b sql values (suc n) w =
      started (λ u v. leased (backend_rows b sql values false (suc n) v))
        (call driver Command.acquire S.acts w)

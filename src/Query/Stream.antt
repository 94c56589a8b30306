-- ===== src/Query/Stream.antt =====
-- src/stream.rs: `database`, `into_cursor` and `RowStream`.
use sqly.Value.{Value}
use sqly.Sql.{Sql}
use sqly.Row.{Row, Backend}
use sqly.Error.{Error, Result, ok, err}
use sqly.Foreign.{Foreign}
use sqly.Shared.{◌∷◌, ℕ, List, Bool, [], none, some, true, false, zero, suc}
use sqly.Sqlx.{Server, World}
use sqly.Database.{check}
use sqly.Driver.{Stop, Taken, refuse, nothing, started}
use sqly.Transaction.{Transaction}
use sqly.Query.Defs.{Query}

abbrev pub is_ok : {A : Type 0} → Result A → Bool
is_ok (ok a) = true
is_ok (err e) = false

module _ {F : Foreign} (S : Server F) (wants : Row F → Bool) where
  unfoldable pub database : Backend → Sql → List (Value F) → ℕ → World F → Taken F × World F
  database b sql values zero w = (nothing Stop.dropped, w)
  database b sql values (suc n) w =
      started (λ u. sqly.Driver.rows S wants b sql values (suc n)) (check S w)

  -- `once(async { Err(error) })`
  abbrev pub once : {W : Type 0} → Error → ℕ → W → Taken F × W
  once e zero w = (nothing Stop.dropped, w)
  once e (suc n) w = (refuse e, w)

  -- `into_cursor` with the target `Database`, and with the target `Transaction`.
  unfoldable pub cursor_on_database : Backend → Query F → ℕ → World F → Taken F × World F
  unfolding database
  cursor_on_database b q = elim q.error [ none ↦ database b q.sql q.values | some e ↦ once e ]

  unfoldable pub cursor_in_transaction : Query F → ℕ → Transaction F → Taken F × Transaction F
  cursor_in_transaction q = elim q.error [
    | none ↦ sqly.Transaction.rows S wants q.sql q.values
    | some e ↦ once e
  ]

pub record Delivered (T : Type 0) : Type 0 where
  pub values : List T
  pub stop : Stop

module _ {F : Foreign} {T : Type 0} (mapper : Row F → Result T) where
  abbrev with_value : Result T → Delivered T → Delivered T
  with_value (ok a) rest = record rest { values = a ∷ rest.values }
  with_value (err e) rest = record { values = []; stop = Stop.broke e }

  -- What `poll_next` gives of the rows and the end of the cursor.
  abbrev pub deliver : List (Row F) → Stop → Delivered T
  deliver [] stop = record { values = []; stop = stop }
  deliver (row ∷ rows) stop = with_value (mapper row) (deliver rows stop)

  -- A `RowStream` that is polled up to `n` times. It drops its cursor with the first row that does
  -- not convert.
  unfoldable pub row_stream :
      {W : Type 0} → ((Row F → Bool) → ℕ → W → Taken F × W) → ℕ → W → Delivered T × W
  row_stream cursor n w =
      let (taken, w') = cursor (λ row. is_ok (mapper row)) n w in
      (deliver taken.rows taken.stop, w')

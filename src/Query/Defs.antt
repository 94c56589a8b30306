-- ===== src/Query/Defs.antt =====
-- src/query.rs.
use sqly.Database.{check}
use sqly.Value.{Value}
use sqly.Sql.{Sql}
use sqly.Sqlx.{◌>>◌, lift, pure, World, ◌>>=◌, raise, Mode, Server, Io}
use sqly.Foreign.{Foreign}
use sqly.Shared.{◌+◌, length, ◌++◌, ℕ, ◌∷◌, Option, List, [], none, some}
use sqly.Error.{map_ok, ok_or, Error, Result, ok, err, at_parameter}
use sqly.Transaction.{Transaction, run}
use sqly.Driver.{Output, sqlite, postgres}
use sqly.Row.{Row, Backend}

pub record Query (F : Foreign) : Type 0 where
  pub sql : Sql
  pub values : List (Value F)
  pub error : Option Error

-- `Result::transpose` of `rows.first().map(T::from_row)`, and `collect` of `rows.iter().map(…)`.
module _ {A T : Type 0} (from_row : A → Result T) where
  abbrev pub convert_first : List A → Result (Option T)
  convert_first [] = ok none
  convert_first (row ∷ rows) = map_ok some (from_row row)

  abbrev pub convert_all : List A → Result (List T)
  convert_all [] = ok []
  convert_all (row ∷ rows) =
      let rest = convert_all rows in
      elim (from_row row) [ ok a ↦ map_ok (◌∷◌ a) rest | err e ↦ err e ]

module _ {F : Foreign} where
  unfoldable pub new_query : Sql → Query F
  new_query sql = record { sql = sql; values = []; error = none }

  abbrev push : Query F → Result (Value F) → Query F
  push q (ok v) = record q { values = q.values ++ v ∷ [] }
  push q (err e) = record q { error = some (at_parameter (length q.values + 1) e) }

  -- `encoded` is `value.encode().and_then(Representation::into_value)`.
  unfoldable pub bind : Query F → Result (Value F) → Query F
  bind q encoded = elim q.error [ none ↦ push q encoded | some e ↦ q ]

  -- `query.bind(a).bind(b)…`
  abbrev pub bind_all : Query F → List (Result (Value F)) → Query F
  bind_all q [] = q
  bind_all q (encoded ∷ rest) = bind_all (bind q encoded) rest

  -- `if let Some(error) = self.error { return Err(error); }`
  abbrev pub unless_error : {S A : Type 0} → Query F → Io S A → Io S A
  unless_error q m = elim q.error [ none ↦ m | some e ↦ raise e ]

  module _ {S : Type 0} (target : Mode → Io S (Output F)) {T : Type 0}
      (from_row : Row F → Result T) where
    unfoldable pub fetch_optional : Io S (Option T)
    fetch_optional = do output ← target Mode.optional; lift (convert_first from_row output.rows)

    unfoldable pub fetch_one : Io S T
    unfolding fetch_optional
    fetch_one = do found ← fetch_optional; lift (ok_or Error.row_not_found found)

    unfoldable pub fetch_all : Io S (List T)
    fetch_all = do output ← target Mode.all; lift (convert_all from_row output.rows)

  -- The affected rows are all that `ExecuteResult` has.
  unfoldable pub execute : {S : Type 0} → (Mode → Io S (Output F)) → Io S ℕ
  execute target = do output ← target Mode.execute; pure output.affected

module _ {F : Foreign} (S : Server F) where
  abbrev pub on_pool : Sql → List (Value F) → Mode → Backend → Io (World F) (Output F)
  on_pool sql values mode Backend.sqlite = sqlite S sql.sqlite values mode
  on_pool sql values mode Backend.postgres = postgres S sql.postgres values mode

  -- `Query::run` with the target `Database`, and with the target `Transaction`.
  unfoldable pub on_database : Backend → Query F → Mode → Io (World F) (Output F)
  on_database b q mode = unless_error q (check S >> on_pool q.sql q.values mode b)

  unfoldable pub in_transaction : Query F → Mode → Io (Transaction F) (Output F)
  in_transaction q mode = unless_error q (run S q.sql q.values mode)

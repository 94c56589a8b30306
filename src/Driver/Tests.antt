-- ===== src/Driver/Tests.antt =====
-- The theorems on the driver at concrete inputs.
use sqly.Shared.Bytes.{Text, bytes}
use sqly.Sqlx.{World, Server, Answer, Command, answered, failed, raised}
use sqly.Shared.{
  Bool, first, ◌⊎◌, ◌≢◌, if◌then◌else◌, none, Option, ◌≤◌, ◌<◌, zero, suc, inr, arith, ◌+◌, take,
  ◌∷◌, ℕ, List, ◌≡◌, [], some, true, refl,
}
use sqly.Sample.{libraries, server, indeterminate, idle}
use sqly.Driver.Arguments.{arguments, sqlite_argument}
use sqly.Driver.Prepare.{
  indeterminate_parameter, parameter_resolution_error, postgres_prepare, postgres_statement,
}
use sqly.Driver.Probes.{IsPostgres, postgres_prepare_lem}
use sqly.Driver.Savepoints.{open_savepoints, postgres_statement-savepoints}
use sqly.Driver.Rounds.{prepares, postgres_prepare-prepares}
use sqly.Value.{Kind, Value}
use sqly.Row.{Row, Backend}
use sqly.Sql.{Sql}
use sqly.Driver.Stream.{rows, nothing, Stop, Taken}
use sqly.Driver.Leases.{Kept, Closed, rows-lease}
use sqly.Error.{driver, SqlxError, Error}

abbrev refused_second : List (Value libraries)
refused_second = Value.text (bytes "a") ∷ Value.bool true ∷ []

abbrev one_parameter : Text
one_parameter = bytes "SELECT $1"

abbrev two_hints : List Kind
two_hints = Kind.text ∷ Kind.i64 ∷ []

server-hinted :
    (h : ℕ) (log : List (Command libraries))
    → 1 ≤ h
    → h < 2
    → server.prepares (Command.prepare one_parameter (take h two_hints) ∷ log)
      ≡ some (answered (some h))
server-hinted zero log low high = absurd (omega arith)
server-hinted (suc zero) log low high = refl
server-hinted (suc (suc h)) log low high = absurd (omega arith)

abbrev prepares_without : ℕ → List (Command libraries) → Option (Answer (Option ℕ))
prepares_without h log = server.prepares (Command.prepare one_parameter (take h two_hints) ∷ log)

server-unhinted :
    (h : ℕ) (log : List (Command libraries))
    → h < 1
    → h < 2
    → (prepares_without h log ≡ some (answered (some 1)))
      ⊎ ((e : SqlxError) × (prepares_without h log ≡ some (failed e))
          × (parameter_resolution_error e ≡ true))
unfolding parameter_resolution_error
server-unhinted zero log high few = inr (indeterminate, refl, refl)
server-unhinted (suc h) log high few = absurd (omega arith)

server-IsPostgres : IsPostgres server one_parameter two_hints 1
server-IsPostgres = record {
  full = λ log enough. refl;
  short = λ log few. absurd (omega (arith, few));
  hinted = server-hinted;
  unhinted = server-unhinted;
  restored = λ log. refl;
}

-- A binding too many is found out, although the server counts the surplus hint as a parameter.
postgres_prepare_lem_example :
    ((postgres_prepare server one_parameter two_hints true idle).0
      ≡ raised (Error.bind_count (some 1) 2))
    ⊎ ((2 < 1)
        × (e : SqlxError) × (server.prepares (Command.prepare one_parameter two_hints ∷ [])
            ≡ some (failed e))
        × (parameter_resolution_error e ≡ true)
        × ((postgres_prepare server one_parameter two_hints true idle).0
            ≡ raised (if indeterminate_parameter e then Error.bind_count none 2 else driver e)))
postgres_prepare_lem_example =
    postgres_prepare_lem server one_parameter two_hints 1 true server-IsPostgres idle

-- Where the server cannot infer the type of a missing parameter, their number is unknown.
missing_binding :
    (postgres_prepare server one_parameter [] true idle).0 ≡ raised (Error.bind_count none 0)
unfolding postgres_prepare indeterminate_parameter
missing_binding = refl

postgres_statement-savepoints_example :
    open_savepoints (postgres_statement server one_parameter two_hints true idle).1.log
    ≡ open_savepoints idle.log
unfolding postgres_statement sqly.Driver.Prepare.raw_sql postgres_prepare
    sqly.Driver.Prepare.postgres_probe sqly.Driver.Prepare.parameter_resolution_error
postgres_statement-savepoints_example =
    postgres_statement-savepoints server one_parameter two_hints true idle refl

abbrev all_rows : Row libraries → Bool
all_rows row = true

abbrev one_sql : Sql
one_sql = record { sqlite = bytes "SELECT $1"; postgres = bytes "SELECT $1" }

abbrev one_value : List (Value libraries)
one_value = Value.text (bytes "a") ∷ []

-- A server that finds no rows.
abbrev empty_server : Server libraries
empty_server = record server { fetches_optional = λ log. some (answered none) }

abbrev polled_twice : Server libraries → Taken libraries × World libraries
polled_twice s = rows s all_rows Backend.sqlite one_sql one_value 2 idle

rows-lease_example :
    (Kept empty_server (bytes "SELECT $1") (polled_twice empty_server)
      ⊎ Closed empty_server (polled_twice empty_server)
      ⊎ ((empty_server.acts (Command.acquire ∷ []) ≢ some (answered tt))
          × ((polled_twice empty_server).0.stop ≢ Stop.ended)
          × ((polled_twice empty_server).1.log ≡ Command.acquire ∷ [])))
    × (rows empty_server all_rows Backend.sqlite one_sql one_value 0 idle
        ≡ (nothing Stop.dropped, idle))
rows-lease_example = rows-lease empty_server all_rows Backend.sqlite one_sql one_value 1 idle

-- The stream without rows is at its end; where there are rows, the consumer has dropped it behind
-- the second one.
polled_twice-ends :
    (first (polled_twice empty_server).1.log ≡ some Command.release)
    × (first (polled_twice server).1.log ≡ some Command.discard)
unfolding rows arguments sqlite_argument
polled_twice-ends = (refl, refl)

postgres_prepare-prepares_example :
    prepares (postgres_prepare server (bytes "SELECT $1") (Kind.text ∷ []) true idle).1.log
    ≤ 0 + (1 + 1)
postgres_prepare-prepares_example =
    postgres_prepare-prepares server (bytes "SELECT $1") (Kind.text ∷ []) true idle

-- ===== src/Lock/Tests.antt =====
-- The theorems on locks at concrete inputs.
use sqly.Shared.Bytes.{Text, bytes}
use sqly.Shared.Int.{pos}
use sqly.Shared.{◌∷◌, ◌++◌, ◌≡◌, List, [], true, false, refl}
use sqly.Sample.{libraries}
use sqly.Lock.Defs.{Lock, statement, new_row, identifier_reason}
use sqly.Lock.Builder.{build, given_keys, IsWellFormed, build-IsWellFormed}
use sqly.Lock.Quoting.{quoted, columns, values, for_update, statement_lem}
use sqly.Value.{Value}
use sqly.Error.{Result, ok}

abbrev two_keys : List (Text × Result (Value libraries))
two_keys = (bytes "tenant", ok (Value.i64 (pos 3))) ∷ (bytes "id", ok (Value.text (bytes "a"))) ∷ []

abbrev account : Lock libraries
account = build libraries (bytes "account") two_keys

build-IsWellFormed_example :
    IsWellFormed libraries account
    × (given_keys libraries account.keys ≡ two_keys)
    × (account.table ≡ bytes "account")
unfolding new_row sqly.Lock.Defs.key
build-IsWellFormed_example = build-IsWellFormed libraries (bytes "account") two_keys refl

statement_lem_example :
    (sql : Text) × (statement libraries account false ≡ ok (sql, values libraries account.keys))
    × (statement libraries account true
        ≡ ok (sql ++ for_update libraries, values libraries account.keys))
    × (quoted sql ≡ account.table ∷ columns libraries account.keys)
    × (quoted (sql ++ for_update libraries) ≡ account.table ∷ columns libraries account.keys)
unfolding sqly.Lock.Defs.key new_row
statement_lem_example =
    statement_lem libraries account (bytes "tenant", Value.i64 (pos 3))
      ((bytes "id", Value.text (bytes "a")) ∷ []) refl refl
      (build-IsWellFormed libraries (bytes "account") two_keys refl).0

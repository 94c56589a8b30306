-- ===== src/Row/Tests.antt =====
-- The theorems on rows at concrete inputs.
use sqly.Shared.Bytes.{Text, bytes}
use sqly.Shared.Int.{pos}
use sqly.Shared.{◌∷◌, ◌≡◌, List, [], refl}
use sqly.Sample.{libraries, one_row}
use sqly.Row.Defs.{value, try_get, cell_at, names, unique_column}
use sqly.Row.Decoding.{IsInRange, value-kind_of}
use sqly.Value.{Kind, Value, kind_of}

abbrev two_names : List Text
two_names = bytes "id" ∷ bytes "note" ∷ bytes "id" ∷ []

value-kind_of_example :
    (kind_of libraries (Value.i32 (pos 7)) ≡ Kind.i32) × IsInRange libraries (Value.i32 (pos 7))
unfolding value unique_column sqly.Row.Defs.postgres_value
value-kind_of_example =
    value-kind_of libraries one_row (bytes "id") Kind.i32 (Value.i32 (pos 7)) refl

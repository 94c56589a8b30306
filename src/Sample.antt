-- ===== src/Sample.antt =====
-- Concrete libraries, a concrete server and concrete states, for the tests.
use sqly.Value.{Value}
use sqly.Shared.Bytes.{Text, bytes}
use sqly.Sqlx.{Answer, Command, World, Server, SqlxRow, answered, failed}
use sqly.Shared.Int.{ℤ, pos}
use sqly.Shared.{length, Bool, ◌==◌, ◌∷◌, not, List, Option, ℕ, [], none, some, suc, true, false}
use sqly.Foreign.{Foreign, Utc, Fetched, got, refused}
use sqly.Error.{SqlxError, Cause, DriverErrorKind}
use sqly.Transaction.{Transaction}
use sqly.Row.{Backend, Row}

abbrev integer_of : Option ℤ → Fetched ℤ
integer_of none = refused (Cause.foreign 1)
integer_of (some n) = got n

abbrev is_absent : Option ℤ → Bool
is_absent none = true
is_absent (some n) = false

-- Floats are numbers of which 0 is not finite, and cells are 64-bit integers or NULL.
abbrev pub libraries : Foreign
libraries = record {
  Float = ℕ;
  is_finite = λ n. not (n == 0);
  Uuid = Text;
  Time = Utc;
  checked_to_utc = λ u. some u;
  to_utc = λ u. u;
  checked_in_utc = λ u. some u;
  in_utc = λ u. u;
  Json = Text;
  uuid_text = λ t. t;
  json_text = λ t. t;
  parse_uuid = λ t. got t;
  parse_json = λ t. got t;
  parse_time = λ t. refused (Cause.foreign 2);
  Cell = Option ℤ;
  raw_is_null = is_absent;
  type_name = λ c. bytes "INT8";
  get_i16 = integer_of;
  get_i32 = integer_of;
  get_i64 = integer_of;
  get_text = λ c. got [];
  get_bytes = λ c. got [];
  get_float = λ c. got 1;
  get_bool = λ c. got true;
  get_uuid = λ c. got [];
  get_json = λ c. got [];
  get_time = λ c. refused (Cause.foreign 2);
}

abbrev pub indeterminate : SqlxError
indeterminate =
    SqlxError.database
      (record { kind = DriverErrorKind.other_kind; code = some (bytes "42P18"); constraint = none })

-- A statement of one parameter: without a hint it cannot be resolved, and a surplus hint counts.
abbrev hinted_count : List (Command libraries) → Option (Answer (Option ℕ))
hinted_count (Command.prepare sql [] ∷ log) = some (failed indeterminate)
hinted_count (Command.prepare sql (k ∷ types) ∷ log) = some (answered (some (suc (length types))))
hinted_count log = some (answered none)

abbrev refused_value : Value libraries → Option Cause
refused_value (Value.bool b) = some (Cause.foreign 9)
refused_value v = none

abbrev pub sample_row : SqlxRow libraries
sample_row = (bytes "id", some (pos 7)) ∷ (bytes "note", none) ∷ []

abbrev pub server : Server libraries
server = record {
  waits = λ log. true;
  acts = λ log. some (answered tt);
  prepares = hinted_count;
  executes = λ log. some (answered 3);
  fetches_optional = λ log. some (answered (some sample_row));
  fetches_all = λ log. some (answered (sample_row ∷ []));
  refuses = refused_value;
}

abbrev pub idle : World libraries
idle = record { log = []; interrupting = false; keeper = none; closed = false }

-- A transaction that has just begun.
abbrev pub begun : Backend → Transaction libraries
begun b = record { world = idle; backend = b; aborted = false; finished = false }

abbrev pub poisoned : Transaction libraries
poisoned = record { world = idle; backend = Backend.sqlite; aborted = true; finished = false }

abbrev pub one_row : Row libraries
one_row = record { backend = Backend.postgres; columns = sample_row }

-- ===== src/Query/Tests.antt =====
-- The theorems on queries at concrete inputs.
use sqly.Shared.Bytes.{bytes}
use sqly.Sqlx.{Command, Server, SqlxRow, Answer, answered}
use sqly.Shared.Int.{ℤ, pos}
use sqly.Shared.{◌∷◌, ◌≡◌, List, [], none, some, true, false, refl, ℕ, Option, length}
use sqly.Sample.{sample_row, libraries, server, begun}
use sqly.Query.Defs.{Query}
use sqly.Query.Stream.{Delivered}
use sqly.Query.Streaming.{streamed, streamed-aborted}
use sqly.Transaction.{Transaction, is_clean}
use sqly.Driver.{Output, Stop}
use sqly.Row.{Backend, Row}
use sqly.Value.{Value}
use sqly.Error.{Error, Result, ok, err}
use sqly.Sql.{Sql, from_text}

abbrev select_sql : Sql
select_sql = from_text (bytes "SELECT id FROM account")

abbrev lacking : Row libraries → Result ℤ
lacking row = err Error.row_not_found

abbrev plain_query : Query libraries
plain_query = record { sql = select_sql; values = Value.i64 (pos 7) ∷ []; error = none }

abbrev fetched_rows : Output libraries
fetched_rows = record {
  rows = record { backend = Backend.sqlite; columns = sample_row } ∷ [];
  affected = 0;
}

-- The conversion fails, and the transaction stays live.

-- A stream of two rows.
abbrev two_rows : List (Command libraries) → Option (Answer (Option (SqlxRow libraries)))
two_rows (Command.next s a ∷ Command.next s' a' ∷ Command.next s'' a'' ∷ log) = some (answered none)
two_rows log = some (answered (some sample_row))

abbrev streaming_server : Server libraries
streaming_server = record server { fetches_optional = two_rows }

abbrev whole : Row libraries → Result ℕ
whole row = ok (length row.columns)

abbrev streamed_at : ℕ → Delivered ℕ × Transaction libraries
streamed_at n = streamed streaming_server whole plain_query n (begun Backend.sqlite)

streamed_at-three : (streamed_at 3).0 ≡ record { values = 2 ∷ 2 ∷ []; stop = Stop.ended }
unfolding sqly.Query.Stream.row_stream sqly.Query.Stream.cursor_in_transaction sqly.Transaction.rows
    sqly.Database.check_lease sqly.Driver.sqlite_rows sqly.Driver.arguments
    sqly.Driver.sqlite_argument
streamed_at-three = refl

streamed-aborted_example :
    ((streamed_at 2).0.stop ≡ Stop.ended → (streamed_at 2).1.aborted ≡ false)
    × (is_clean (streamed_at 2).0.stop ≡ false → (streamed_at 2).1.aborted ≡ true)
streamed-aborted_example =
    streamed-aborted streaming_server whole plain_query 1 (begun Backend.sqlite) refl refl

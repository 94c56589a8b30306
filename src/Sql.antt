-- ===== src/Sql.antt =====
-- src/sql.rs: static SQL, in the dialect of each backend.
use sqly.Shared.Bytes.{Text}
use sqly.Row.{Backend}

pub record Sql : Type 0 where
  pub sqlite : Text
  pub postgres : Text

-- `Sql::dialects`, and `From<&'static str>`.
abbrev pub dialects : Text → Text → Sql
dialects sqlite postgres = record { sqlite = sqlite; postgres = postgres }

abbrev pub from_text : Text → Sql
from_text sql = dialects sql sql

-- The text that the code takes on a connection of the backend.
abbrev pub text_for : Backend → Sql → Text
text_for Backend.sqlite sql = sql.sqlite
text_for Backend.postgres sql = sql.postgres

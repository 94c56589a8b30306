-- ===== src/Database/Handle.antt =====
-- src/database.rs: the setters of `DatabaseBuilder`, and the constructors of `Database`.
use sqly.Shared.{Option, ℕ, some}
use sqly.Error.{Result}
use sqly.Row.{Backend}
use sqly.Sqlx.{Io, Keeper}
use sqly.Options.{ConnectOptions}
use sqly.Database.Builder.{DatabaseBuilder, Platform, Opening, default_builder, connect}

unfoldable pub max_connections : DatabaseBuilder → ℕ → DatabaseBuilder
max_connections b count = record b { max_connections = some count }

unfoldable pub acquire_timeout : DatabaseBuilder → ℕ → DatabaseBuilder
acquire_timeout b timeout = record b { acquire_timeout = timeout }

unfoldable pub builder : DatabaseBuilder
unfolding default_builder
builder = default_builder

-- `Database::connect`
unfoldable pub connect_default :
    Platform → Result ConnectOptions → Io Opening (Backend × Option Keeper)
unfolding builder connect
connect_default platform options = connect platform builder options

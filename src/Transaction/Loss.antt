-- ===== src/Transaction/Loss.antt =====
-- src/database.rs, `Keeper::check`, and src/transaction.rs, `begin`: the loss of an in-memory
-- database.
use sqly.Error.{Error}
use sqly.Row.{Backend}
use sqly.Foreign.{Foreign}
use sqly.Sqlx.{World, Server, raised}
use sqly.Shared.{◌≡◌, arith}
use sqly.Transaction.Defs.{begin}
use sqly.Database.{check, check_lease}

module _ {F : Foreign} (S : Server F) where
  -- If a check reports the database as lost, then in the world that it leaves every check reports it
  -- as lost, at once and without a change, and no transaction begins.
  pub check-lost :
      (b : Backend) (w : World F)
      → (check S w).0 ≡ raised Error.database_lost
      → (check S (check S w).1 ≡ (raised Error.database_lost, (check S w).1))
        × (check_lease S (check S w).1 ≡ (raised Error.database_lost, (check S w).1))
        × (begin S b (check S w).1 ≡ (raised Error.database_lost, (check S w).1))
  unfolding check check_lease begin
  check-lost b w h = ground arith

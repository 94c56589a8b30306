-- ===== src/Database/Defs.antt =====
-- src/database.rs, `Keeper::check`, `check_lease`, `check` and `close`.
use sqly.Error.{Error}
use sqly.Foreign.{Foreign}
use sqly.Shared.{if◌then◌else◌, Option, Bool, none, some, true, false}
use sqly.Sqlx.{
  Command, ask, wait, raise, pure, modify, Answer, World, Keeper, Io, Server, cancelled, answered,
  failed, ◌>>=◌, ◌>>◌,
}

module _ {F : Foreign} (S : Server F) where
  abbrev lose : Keeper → Io (World F) (Unit {0})
  lose k = modify λ w. record w { keeper = some (record k { lost = true }) }

  abbrev pinged : Keeper → Answer (Unit {0}) → Io (World F) (Unit {0})
  pinged k (answered a) = pure tt
  pinged k (failed e) = lose k >> raise Error.database_lost

  unfoldable pub keeper_check : Keeper → Io (World F) (Unit {0})
  keeper_check k =
      if k.lost
      then raise Error.database_lost
      else wait S.waits
        >> (if k.connected
            then ask Command.ping S.acts >>= pinged k
            else lose k >> raise Error.database_lost)

  abbrev of_keeper : Option Keeper → Io (World F) (Unit {0})
  of_keeper none = pure tt
  of_keeper (some k) = keeper_check k

  unfoldable pub check_lease : Io (World F) (Unit {0})
  unfolding keeper_check
  check_lease w = of_keeper w.keeper w

  abbrev open_keeper : Bool → Option Keeper → Io (World F) (Unit {0})
  open_keeper closed none = pure tt
  open_keeper closed (some k) =
      if k.lost
      then raise Error.database_lost
      else if closed
      then raise Error.pool_closed
      else keeper_check k

  unfoldable pub check : Io (World F) (Unit {0})
  unfolding keeper_check
  check w = open_keeper w.closed w.keeper w

  abbrev taken : Option Keeper → Option Keeper
  taken none = none
  taken (some k) = some (record k { connected = false })

  abbrev close_keeper : Option Keeper → Io (World F) (Unit {0})
  close_keeper none = pure tt
  close_keeper (some k) = wait S.waits >> modify λ w. record w { keeper = taken w.keeper }

  -- `pool.close().await` ends when every lease is back; the model's pool has at most the lease that
  -- `drained` tells of. The pool counts as closed from the start.
  unfoldable pub close : Bool → Io (World F) (Unit {0})
  close drained w =
      let closed = record w { closed = true } in
      if drained then close_keeper w.keeper closed else (cancelled, closed)

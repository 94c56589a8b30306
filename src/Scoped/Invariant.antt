-- ===== src/Scoped/Invariant.antt =====
-- src/scoped.rs: the invariant of a scope, along every sequence of steps.
use sqly.Foreign.{Foreign}
use sqly.Scoped.Defs.{Futures, Scope}
use sqly.Scoped.Schedule.{Step, Reaches, IsLawful, IsSound}
use sqly.Scoped.Operations.{poll_operate-IsSound, drop_operate-IsSound}
use sqly.Scoped.Streams.{poll_next-IsSound, drop_rows-IsSound}

module _ {F : Foreign} {P : Futures F} (L : IsLawful P) where
  Step-IsSound : {s t : Scope P} → Step P s t → IsSound s → IsSound t
  Step-IsSound (Step.polls current turn o s) i = poll_operate-IsSound L current turn o s i
  Step-IsSound (Step.drops o s) i = drop_operate-IsSound L o s i
  Step-IsSound (Step.polls_rows current rows s) i = poll_next-IsSound L current rows s i
  Step-IsSound (Step.drops_rows rows s) i = drop_rows-IsSound L rows s i

  -- If the futures of a transaction leave it aborted between their polls and never finish it, then
  -- every sequence of polls and drops, of any operations and streams, keeps the invariant: the
  -- operation in the scope holds the mutex, at most one future holds the lock of the transaction,
  -- and the transaction counts as aborted as long as one does; a closed scope is empty, and an open
  -- one has an unfinished transaction.
  pub Reaches-IsSound : {s t : Scope P} → Reaches P s t → IsSound s → IsSound t
  Reaches-IsSound (Reaches.here s) i = i
  Reaches-IsSound (Reaches.step r e) i = Step-IsSound e (Reaches-IsSound r i)

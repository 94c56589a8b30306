-- ===== src/Scoped/Entering.antt =====
-- src/scoped.rs, `enter`: whether application work is started, and scopes that are only rolled back.
use sqly.Shared.{Option, ℕ, arith, ◌≡◌, ◌⊎◌, none, some, true, false}
use sqly.Foreign.{Foreign}
use sqly.Error.{Error}
use sqly.Lock.{Lock}
use sqly.Row.{Backend}
use sqly.Sqlx.{World, Server, Command, Outcome, returned}
use sqly.Transaction.{Transaction, begin, require_lock}
use sqly.Transaction.Ending.{commits, newest, commit-poisoned}
use sqly.Scoped.Defs.{Futures, Scope, Active, is_some}
use sqly.Scoped.Schedule.{Reaches, IsLawful}
use sqly.Scoped.Invariant.{Reaches-IsSound}
use sqly.Scoped.Enter.{Ending, enter, conclude}
use sqly.Scoped.Writes.{left, outcome, run_in_scope-some, new_scope-IsSound}

module _ {F : Foreign} (S : Server F) where
  abbrev pub unlocked : Outcome (Unit {0}) × Transaction F → Option (Transaction F)
  unlocked (returned u, t) = some t
  unlocked (r, t) = none

  abbrev pub with_lock : Option (Lock F) → Transaction F → Option (Transaction F)
  with_lock none t = some t
  with_lock (some l) t = unlocked (require_lock S l t)

  abbrev with_begin : Option (Lock F) → Outcome (Transaction F) × World F → Option (Transaction F)
  with_begin lock (returned t, w) = with_lock lock t
  with_begin lock (r, w) = none

  -- The transaction that application work gets: outside of every scope, begun, and with the row of
  -- the lock.
  abbrev pub opened : Option Active → Backend → Option (Lock F) → World F → Option (Transaction F)
  opened none b lock w = with_begin lock (begin S b w)
  opened (some a) b lock w = none

module _ {F : Foreign} (S : Server F) (P : Futures F) {E : Type 0} (from : Error → E)
    {A : Type 0} where
  conclude-poisoned :
      (a : A) (u : Transaction F)
      → u.aborted ≡ true
      → u.finished ≡ false
      → (((conclude S from (Ending.succeeded a) false u).0
            ≡ Ending.failed (from Error.transaction_aborted))
          ⊎ ((conclude S from (Ending.succeeded a) false u).0 ≡ Ending.cut))
        × (commits (conclude S from (Ending.succeeded a) false u).1.log ≡ commits u.world.log)
        × (newest (conclude S from (Ending.succeeded a) false u).1.log ≡ some Command.discard)
  unfolding conclude
  conclude-poisoned a u h f = ground (arith, commit-poisoned S u h f)

  -- If application work, any sequence of polls and drops, succeeds without a stream but leaves the
  -- transaction poisoned, then the write fails as aborted, or is dropped; COMMIT is not asked for,
  -- and the connection is closed.
  pub run_in_scope-poisoned :
      (id db : ℕ) (closure : Scope P → Ending E A × Scope P) (t u : Transaction F) (a : A)
      → IsLawful P
      → ((s : Scope P) → Reaches P s (closure s).1)
      → t.finished ≡ false
      → (left S P from id db closure t).0 ≡ Ending.succeeded a
      → (left S P from id db closure t).1.cursor ≡ none
      → (left S P from id db closure t).1.transaction ≡ some u
      → u.aborted ≡ true
      → (((outcome S P from id db closure t).0 ≡ Ending.failed (from Error.transaction_aborted))
          ⊎ ((outcome S P from id db closure t).0 ≡ Ending.cut))
        × (commits (outcome S P from id db closure t).1.log ≡ commits u.world.log)
        × (newest (outcome S P from id db closure t).1.log ≡ some Command.discard)
  run_in_scope-poisoned id db closure t u a L runs f done quiet e h =
      let i = Reaches-IsSound L (runs _) (new_scope-IsSound id db t f) in
      rw (run_in_scope-some S P from id db closure t u e, done, quiet)
        (conclude-poisoned a u h (ground (arith, i.unfinished)))

  -- A write runs its work on a transaction if it is not nested, the transaction begins, and the row
  -- to be locked is found; and otherwise its result and the world behind it do not depend on the
  -- work, which is not started. A nested write fails as such and sends nothing.
  pub enter_lem :
      (current : Option Active) (b : Backend) (lock : Option (Lock F)) (id db : ℕ)
      (closure : Scope P → Ending E A × Scope P) (w : World F)
      → ((t : Transaction F)
          → opened S current b lock w ≡ some t
          → enter S P from current b lock id db closure w ≡ outcome S P from id db closure t)
        × ((other : Scope P → Ending E A × Scope P)
            → opened S current b lock w ≡ none
            → enter S P from current b lock id db closure w
              ≡ enter S P from current b lock id db other w)
        × (is_some current ≡ true
            → enter S P from current b lock id db closure w
              ≡ (Ending.failed (from Error.nested_write_scope), w))
  unfolding enter
  enter_lem current b lock id db closure w =
      (λ t h. ground arith, λ other h. ground arith, λ h. ground arith)

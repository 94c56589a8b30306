-- ===== src/Database/Concurrent.antt =====
-- src/database.rs: tasks that check the keeper of an in-memory database and close the pool at the
-- same time, as steps in any order.
--
-- A step is what a task does between two points at which others can run: each atomic flag is read or
-- written in a step of its own. Of the pool the steps use that a closed pool gives no connections, and
-- that its `close` ends when every connection is back.
use sqly.Shared.{ℕ, Bool, ◌≡◌, ◌==◌, if◌then◌else◌, true, false}

pub data Verdict : Type 0 where
  healthy database_lost pool_closed : Verdict

-- Where a task stands: in `Database::check` before it reads `lost`, and then `is_closed`; in
-- `Keeper::check` before it reads `lost`, at the mutex, and at the ping; in `close` at the pool's
-- `close`, at the mutex, and at the close of the keeper's connection; or with a result of a check.
pub data Phase : Type 0 where
  idle checking unlost keeping waiting pinging draining locking emptying : Phase
  checked : Verdict → Phase

pub record Task : Type 0 where
  pub phase : Phase
  pub leased : Bool

-- `held` is the keeper's mutex, and `broken` tells that a ping has failed.
pub record System : Type 0 where
  pub tasks : ℕ → Task
  pub connected : Bool
  pub lost : Bool
  pub closed : Bool
  pub held : Bool
  pub broken : Bool

unfoldable pub enter : ℕ → Phase → System → System
enter i p s = record s {
  tasks = λ j. if j == i then record (s.tasks i) { phase = p } else s.tasks j;
}

unfoldable pub lease : ℕ → Bool → System → System
lease i b s = record s {
  tasks = λ j. if j == i then record (s.tasks i) { leased = b } else s.tasks j;
}

-- Whether a task in this phase has the mutex.
abbrev pub holds : Phase → Bool
holds Phase.pinging = true
holds Phase.emptying = true
holds p = false

pub data Step : System → System → Type 0 where
  -- the pool
  acquires : (i : ℕ) (s : System) → s.closed ≡ false → Step s (lease i true s)
  releases : (i : ℕ) (s : System) → Step s (lease i false s)
  -- `Database::check`, and `check_lease` of a task with a connection
  checks : (i : ℕ) (s : System) → (s.tasks i).phase ≡ Phase.idle → Step s (enter i Phase.checking s)
  checks_lease :
      (i : ℕ) (s : System)
      → (s.tasks i).phase ≡ Phase.idle
      → (s.tasks i).leased ≡ true
      → Step s (enter i Phase.keeping s)
  reads_lost :
      (i : ℕ) (s : System)
      → (s.tasks i).phase ≡ Phase.checking
      → Step s (enter i (if s.lost then Phase.checked Verdict.database_lost else Phase.unlost) s)
  reads_closed :
      (i : ℕ) (s : System)
      → (s.tasks i).phase ≡ Phase.unlost
      → Step s (enter i (if s.closed then Phase.checked Verdict.pool_closed else Phase.keeping) s)
  -- `Keeper::check`
  reads_lost_again :
      (i : ℕ) (s : System)
      → (s.tasks i).phase ≡ Phase.keeping
      → Step s (enter i (if s.lost then Phase.checked Verdict.database_lost else Phase.waiting) s)
  locks :
      (i : ℕ) (s : System)
      → (s.tasks i).phase ≡ Phase.waiting
      → s.held ≡ false
      → s.connected ≡ true
      → Step s (enter i Phase.pinging (record s { held = true }))
  misses :
      (i : ℕ) (s : System)
      → (s.tasks i).phase ≡ Phase.waiting
      → s.held ≡ false
      → s.connected ≡ false
      → Step s (enter i (Phase.checked Verdict.database_lost) (record s { lost = true }))
  answers :
      (i : ℕ) (s : System)
      → (s.tasks i).phase ≡ Phase.pinging
      → Step s (enter i (Phase.checked Verdict.healthy) (record s { held = false }))
  fails :
      (i : ℕ) (s : System)
      → (s.tasks i).phase ≡ Phase.pinging
      → Step s (
          enter i
            (Phase.checked Verdict.database_lost)
            (record s { held = false; lost = true; broken = true }))
  -- `Database::close`
  closes :
      (i : ℕ) (s : System)
      → (s.tasks i).phase ≡ Phase.idle
      → Step s (enter i Phase.draining (record s { closed = true }))
  drains :
      (i : ℕ) (s : System)
      → (s.tasks i).phase ≡ Phase.draining
      → ((j : ℕ) → (s.tasks j).leased ≡ false)
      → Step s (enter i Phase.locking s)
  takes :
      (i : ℕ) (s : System)
      → (s.tasks i).phase ≡ Phase.locking
      → s.held ≡ false
      → Step s (enter i Phase.emptying (record s { held = true; connected = false }))
  ends :
      (i : ℕ) (s : System)
      → (s.tasks i).phase ≡ Phase.emptying
      → Step s (enter i Phase.idle (record s { held = false }))
  -- a result is taken, or the task is dropped at any await
  returns :
      (i : ℕ) (s : System)
      → Step s (
          enter i Phase.idle
            (record s { held = if holds (s.tasks i).phase then false else s.held }))

pub data Reaches : System → System → Type 0 where
  here : (s : System) → Reaches s s
  step : {s t u : System} → Reaches s t → Step t u → Reaches s u

-- A new database: no task, with the keeper's connection.
abbrev pub opened : System
opened = record {
  tasks = λ i. record { phase = Phase.idle; leased = false };
  connected = true;
  lost = false;
  closed = false;
  held = false;
  broken = false;
}

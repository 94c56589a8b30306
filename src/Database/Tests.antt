-- ===== src/Database/Tests.antt =====
-- The theorems on the builder of a database at concrete inputs.
use sqly.Database.Concurrent.{Verdict, Phase, System}
use sqly.Shared.Bytes.{eq_text}
use sqly.Shared.{ℕ, arith, All, refl, ◌≡◌, [], some, true, false}
use sqly.Error.{Result, ok}
use sqly.Row.{Backend}
use sqly.Sqlx.{returned, answered}
use sqly.Options.{ConnectOptions, in_memory, config}
use sqly.Database.Concurrent.{System, Phase, Verdict, Step, Reaches, enter, opened}
use sqly.Database.Reached.{reached_lem}
use sqly.Database.Builder.{DatabaseBuilder, Platform, Opening, connect, default_builder}
use sqly.Database.Opened.{IsSafe, connect-IsSafe}

abbrev platform : Platform
platform = record {
  checked_add = λ n. true;
  var_os = λ name. false;
  same_path = eq_text;
  process_id = 12;
  connect_with = λ log. some (answered tt);
}

abbrev start : Opening
start = record { opened = []; next_id = 1 }

abbrev in_memory_options : Result ConnectOptions
in_memory_options = ok (ConnectOptions.sqlite_options in_memory)

connect-in_memory :
    (connect platform default_builder in_memory_options start).0
    ≡ returned (Backend.sqlite, some (record { connected = true; lost = false }))
unfolding connect default_builder sqly.Options.validate_sqlite in_memory
connect-in_memory = refl

connect-IsSafe_example :
    All IsSafe (connect platform default_builder in_memory_options start).1.opened
connect-IsSafe_example = connect-IsSafe platform default_builder in_memory_options start tt

abbrev two_connections : DatabaseBuilder
two_connections = record default_builder { max_connections = some 2 }

-- Task 0 checks and has seen the pool open; task 1 closes it; and then task 0 gets the keeper's mutex.
abbrev waiting : System
waiting =
    enter 0 Phase.waiting
      (enter 0 Phase.keeping (enter 0 Phase.unlost (enter 0 Phase.checking opened)))

waiting-reached : Reaches opened waiting
unfolding enter
waiting-reached =
    Reaches.step
      (Reaches.step
        (Reaches.step (Reaches.step (Reaches.here opened) (Step.checks 0 opened refl))
          (Step.reads_lost 0 (enter 0 Phase.checking opened) refl))
        (Step.reads_closed 0 (enter 0 Phase.unlost (enter 0 Phase.checking opened)) refl))
      (Step.reads_lost_again 0
        (enter 0 Phase.keeping (enter 0 Phase.unlost (enter 0 Phase.checking opened))) refl)

abbrev closing : System
closing = enter 1 Phase.locking (enter 1 Phase.draining (record waiting { closed = true }))

abbrev closed : System
closed =
    enter 1 Phase.idle
      (record (enter 1 Phase.emptying (record closing { held = true; connected = false })) {
        held = false;
      })

closed-reached : Reaches opened closed
unfolding enter
closed-reached =
    Reaches.step
      (Reaches.step
        (Reaches.step (Reaches.step waiting-reached (Step.closes 1 waiting refl)) (
          Step.drains 1 (enter 1 Phase.draining (record waiting { closed = true })) refl
            (λ j. ground arith)))
        (Step.takes 1 closing refl refl))
      (Step.ends 1 (enter 1 Phase.emptying (record closing { held = true; connected = false }))
        refl)

raced-reached :
    Reaches opened (enter 0 (Phase.checked Verdict.database_lost) (record closed { lost = true }))
unfolding enter
raced-reached = Reaches.step closed-reached (Step.misses 0 closed refl refl refl)

reached_lem_example :
    ((i : ℕ)
      → (closed.tasks i).leased ≡ true
      → (closed.connected ≡ true) × (closed.broken ≡ false → closed.lost ≡ false))
    × (closed.connected ≡ false → closed.closed ≡ true)
reached_lem_example = reached_lem closed closed-reached

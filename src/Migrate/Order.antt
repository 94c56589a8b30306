-- ===== src/Migrate/Order.antt =====
-- src/migrate.rs, `Migrator::try_new` and `with_compatibility`: what a runner is made of.
use sqly.Shared.Bytes.{Text}
use sqly.Shared.Int.{◌<ℤ◌, ℤ, pos}
use sqly.Shared.{◌≤◌, All, length, ◌<◌, any, ◌∷◌, ◌≡◌, List, [], none, false, arith}
use sqly.Migrate.Defs.{
  last_version, Migration, Migrator, done, not_positive, out_of_order, try_new, contains_nul,
}

-- Strictly increasing versions above a bound.
abbrev pub Ascends : ℤ → List Migration → Type 0
Ascends v [] = Unit
Ascends v (m ∷ ms) = (v <ℤ m.version) × Ascends m.version ms

ordered-Ascends :
    (v : ℤ) (m : Migration) (ms : List Migration)
    → v <ℤ m.version
    → out_of_order (m ∷ ms) ≡ false
    → Ascends v (m ∷ ms)
ordered-Ascends v m [] p h = (p, tt)
ordered-Ascends v m (n ∷ ms) p h = (p, ordered-Ascends m.version n ms (ground arith) (ground arith))

abbrev pub LacksNul : Migration → Type 0
LacksNul m = contains_nul m.description ≡ false

lacks-All :
    (ms : List Migration) → any (λ m. contains_nul m.description) ms ≡ false → All LacksNul ms
lacks-All [] h = tt
lacks-All (m ∷ ms) h = ground (arith, lacks-All ms)

list-Ascends :
    (ms : List Migration) → not_positive ms ≡ false → out_of_order ms ≡ false → Ascends (pos 0) ms
list-Ascends [] p h = tt
list-Ascends (m ∷ ms) p h = ordered-Ascends (pos 0) m ms (ground arith) h

-- A runner has the namespace and the migrations that it was given; the namespace is 1 to 255 bytes
-- long and without NUL, the versions are positive and strictly increasing, no description has a
-- NUL; the target is the last version, no history is too old, and no legacy ledger is adopted.
pub try_new_lem :
    (namespace : Text) (migrations : List Migration) (m : Migrator)
    → try_new namespace migrations ≡ done m
    → (m.namespace ≡ namespace)
      × (m.migrations ≡ migrations)
      × (0 < length namespace)
      × (length namespace ≤ 255)
      × (contains_nul namespace ≡ false)
      × Ascends (pos 0) migrations
      × All LacksNul migrations
      × (m.target ≡ last_version migrations)
      × (m.minimum ≡ pos 0)
      × (m.legacy ≡ none)
unfolding try_new
try_new_lem namespace migrations m h = ground (arith, list-Ascends migrations, lacks-All migrations)

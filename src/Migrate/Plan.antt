-- ===== src/Migrate/Plan.antt =====
-- src/migrate.rs, `validate` and `pending`: the ledger is a prefix of the migrations, and what is
-- applied completes it.
use mathlib.Core.List.{map-append}
use sqly.Shared.Bytes.{eq_text_iff, Text}
use sqly.Shared.Int.{ltb_ℤ, leb_ℤ, ◌≤ℤ◌, pos, eqb_ℤ_iff, ℤ}
use sqly.Migrate.Defs.{
  Migrator, applied_version, take_while, last_version, done, check_rows, check_row, Migration,
  LedgerRow,
}
use sqly.Shared.{
  sym, ap, ◌∙◌, drop, Bool-cases, ◌↔◌, ◌++◌, ℕ, if◌then◌else◌, zero, suc, false, inl, inr, ◌∷◌, All,
  take, ◌≡◌, length, ◌<◌, map, List, [], refl, arith,
}
use sqly.Migrate.Defs.{validate, pending}
use sqly.Migrate.Order.{Ascends}

-- What the ledger records of a migration.
abbrev pub Entry : Type 0
Entry = ℤ × Text × Text

abbrev pub entries : List LedgerRow → List Entry
entries = map (λ (r : LedgerRow). (r.version, r.description, r.checksum))

abbrev pub recorded : List Migration → List Entry
recorded = map (λ (m : Migration). (m.version, m.description, m.checksum))

abbrev pub IsDated : LedgerRow → Type 0
IsDated r = 0 < length r.applied_at

done-check_row :
    (r : LedgerRow) (m : Migration)
    → check_row r m ≡ done tt
    → (r.version ≡ m.version)
      × (r.description ≡ m.description)
      × (r.checksum ≡ m.checksum)
      × IsDated r
done-check_row r m h = grind (
  arith,
  eqb_ℤ_iff r.version m.version,
  eq_text_iff r.description m.description,
  eq_text_iff r.checksum m.checksum,
)

check_rows-entries :
    (rows : List LedgerRow) (ms : List Migration)
    → check_rows rows ms ≡ done tt
    → (entries rows ≡ recorded (take (length rows) ms)) × All IsDated rows
check_rows-entries [] ms h = (refl, tt)
check_rows-entries (r ∷ rows) [] h = cc
check_rows-entries (r ∷ rows) (m ∷ ms) h =
    let head : check_row r m ≡ done tt = ground arith in
    let same = done-check_row r m head in
    let rest = check_rows-entries rows ms (rw head at h) in
    (cc (same.0, same.1, same.2, rest.0), (same.3, rest.1))

check_row-done :
    (r : LedgerRow) (m : Migration)
    → r.version ≡ m.version
    → r.description ≡ m.description
    → r.checksum ≡ m.checksum
    → IsDated r
    → check_row r m ≡ done tt
check_row-done r m v d c t = grind (
  arith,
  eqb_ℤ_iff r.version m.version,
  eq_text_iff r.description m.description,
  eq_text_iff r.checksum m.checksum,
)

entries-check_rows :
    (rows : List LedgerRow) (ms : List Migration)
    → entries rows ≡ recorded (take (length rows) ms)
    → All IsDated rows
    → check_rows rows ms ≡ done tt
entries-check_rows [] ms e d = refl
entries-check_rows (r ∷ rows) [] e d = cc
entries-check_rows (r ∷ rows) (m ∷ ms) e d =
    let tail : entries rows ≡ recorded (take (length rows) ms) = ground arith in
    let rest = entries-check_rows rows ms tail d.1 in
    let head = check_row-done r m (ground arith) (ground arith) (ground arith) d.0 in
    ground (arith, head, rest)

abbrev last_entry : List Entry → ℤ
last_entry [] = pos 0
last_entry (e ∷ []) = e.0
last_entry (e ∷ f ∷ es) = last_entry (f ∷ es)

applied-last_entry : (rows : List LedgerRow) → applied_version rows ≡ last_entry (entries rows)
applied-last_entry [] = refl
applied-last_entry (r ∷ []) = refl
applied-last_entry (r ∷ s ∷ rows) = applied-last_entry (s ∷ rows)

recorded-last_entry : (ms : List Migration) → last_version ms ≡ last_entry (recorded ms)
recorded-last_entry [] = refl
recorded-last_entry (m ∷ []) = refl
recorded-last_entry (m ∷ n ∷ ms) = recorded-last_entry (n ∷ ms)

-- A ledger is accepted exactly if its rows record the first migrations, as many as there are rows,
-- each with the time when it was applied, and its last version is not above the target.
pub validate_iff :
    (m : Migrator) (rows : List LedgerRow)
    → (validate m rows ≡ done tt) ↔ (
        (entries rows ≡ recorded (take (length rows) m.migrations))
        × All IsDated rows
        × (applied_version rows ≤ℤ m.target))
unfolding validate
validate_iff m rows = (
  λ h.
      let low : ltb_ℤ m.target (applied_version rows) ≡ false = ground arith in
      let c = check_rows-entries rows m.migrations (rw low at h) in (c.0, c.1, ground arith),
  λ h. let c = entries-check_rows rows m.migrations h.0 h.1 in ground (arith, c),
)

-- The migrations that a target asks for.
abbrev pub up_to : ℤ → List Migration → List Migration
up_to t [] = []
up_to t (m ∷ ms) = let rest = up_to t ms in if leb_ℤ m.version t then m ∷ rest else rest

up_to-above : (t v : ℤ) (ms : List Migration) → Ascends v ms → t ≤ℤ v → up_to t ms ≡ []
up_to-above t v [] a h = refl
up_to-above t v (m ∷ ms) a h = ground (arith, up_to-above t m.version ms a.1 (ground arith))

take_while-up_to :
    (t v : ℤ) (ms : List Migration)
    → Ascends v ms
    → take_while (λ n. leb_ℤ n.version t) ms ≡ up_to t ms
take_while-up_to t v [] a = refl
take_while-up_to t v (m ∷ ms) a = elim (Bool-cases (leb_ℤ m.version t)) [
  | inl low ↦ ground (arith, low, take_while-up_to t m.version ms a.1)
  | inr high ↦ ground (arith, high, up_to-above t m.version ms a.1 (ground arith))
]

last_version-above :
    (m : Migration) (ms : List Migration)
    → Ascends m.version ms
    → m.version ≤ℤ last_version (m ∷ ms)
last_version-above m [] a = ground arith
last_version-above m (n ∷ ms) a = ground (arith, last_version-above n ms a.1)

take-Ascends : (v : ℤ) (k : ℕ) (ms : List Migration) → Ascends v ms → Ascends v (take k ms)
take-Ascends v zero ms a = tt
take-Ascends v (suc k) [] a = tt
take-Ascends v (suc k) (m ∷ ms) a = (a.0, take-Ascends m.version k ms a.1)

last_version-tail :
    (t : ℤ) (m : Migration) (ms : List Migration)
    → pos 0 ≤ℤ t
    → last_version (m ∷ ms) ≤ℤ t
    → last_version ms ≤ℤ t
last_version-tail t m [] n h = n
last_version-tail t m (k ∷ ms) n h = h

prefix-up_to :
    (t v : ℤ) (k : ℕ) (ms : List Migration)
    → pos 0 ≤ℤ t
    → Ascends v ms
    → last_version (take k ms) ≤ℤ t
    → take k ms ++ take_while (λ n. leb_ℤ n.version t) (drop k ms) ≡ up_to t ms
prefix-up_to t v zero ms z a h = take_while-up_to t v ms a
prefix-up_to t v (suc k) [] z a h = refl
prefix-up_to t v (suc k) (m ∷ ms) z a h =
    let low = last_version-above m (take k ms) (take-Ascends m.version k ms a.1) in
    ground
      (arith, low, h, prefix-up_to t m.version k ms z a.1 (last_version-tail t m (take k ms) z h))

-- For migrations in order, a target that is not negative and an accepted ledger, what is recorded
-- and what is pending are together the migrations up to the target, in their order.
pub pending_lem :
    (m : Migrator) (rows : List LedgerRow)
    → Ascends (pos 0) m.migrations
    → pos 0 ≤ℤ m.target
    → validate m rows ≡ done tt
    → take (length rows) m.migrations ++ pending m (length rows) ≡ up_to m.target m.migrations
unfolding pending
pending_lem m rows a z h =
    let v = (validate_iff m rows).0 h in
    let same =
      applied-last_entry rows
      ∙ ap last_entry v.0
      ∙ sym (recorded-last_entry (take (length rows) m.migrations)) in
    prefix-up_to m.target (pos 0) (length rows) m.migrations z a (rw same at (v.2))

up_to-prefix :
    (t v : ℤ) (ms : List Migration)
    → Ascends v ms
    → (take (length (up_to t ms)) ms ≡ up_to t ms)
      × (take_while (λ n. leb_ℤ n.version t) (drop (length (up_to t ms)) ms) ≡ [])
up_to-prefix t v [] a = (refl, refl)
up_to-prefix t v (m ∷ ms) a = elim (Bool-cases (leb_ℤ m.version t)) [
  | inl low ↦ ground (arith, low, up_to-prefix t m.version ms a.1)
  | inr high ↦ ground (arith, high, up_to-above t m.version ms a.1 (ground arith))
]

last_version-cons :
    (t : ℤ) (m : Migration) (ms : List Migration)
    → m.version ≤ℤ t
    → last_version ms ≤ℤ t
    → last_version (m ∷ ms) ≤ℤ t
last_version-cons t m [] h k = h
last_version-cons t m (n ∷ ms) h k = k

last_version-up_to : (t : ℤ) (ms : List Migration) → pos 0 ≤ℤ t → last_version (up_to t ms) ≤ℤ t
last_version-up_to t [] z = z
last_version-up_to t (m ∷ ms) z =
    ground (arith, last_version-up_to t ms z, last_version-cons t m (up_to t ms))

length-entries : (rows : List LedgerRow) → length (entries rows) ≡ length rows
length-entries [] = refl
length-entries (r ∷ rows) = omega (arith, length-entries rows)

length-recorded : (ms : List Migration) → length (recorded ms) ≡ length ms
length-recorded [] = refl
length-recorded (r ∷ rows) = omega (arith, length-recorded rows)

-- For migrations in order and a target that is not negative: a ledger with the entries of the pending
-- migrations behind those of an accepted one, each dated, is accepted in its turn, and nothing is
-- pending for it.
pub pending-again :
    (m : Migrator) (rows rows' : List LedgerRow)
    → Ascends (pos 0) m.migrations
    → pos 0 ≤ℤ m.target
    → validate m rows ≡ done tt
    → entries rows' ≡ entries rows ++ recorded (pending m (length rows))
    → All IsDated rows'
    → (validate m rows' ≡ done tt) × (pending m (length rows') ≡ [])
unfolding pending
pending-again m rows rows' a z h e d =
    let v = (validate_iff m rows).0 h in
    let all = up_to m.target m.migrations in
    let whole : entries rows' ≡ recorded all =
      e
      ∙ ap (λ (l : List Entry). l ++ recorded (pending m (length rows))) v.0
      ∙ sym (map-append _ (take (length rows) m.migrations) (pending m (length rows)))
      ∙ ap recorded (pending_lem m rows a z h) in
    let n : length rows' ≡ length all =
      sym (length-entries rows') ∙ ap length whole ∙ length-recorded all in
    let prefix = up_to-prefix m.target (pos 0) m.migrations a in
    let same = applied-last_entry rows' ∙ ap last_entry whole ∙ sym (recorded-last_entry all) in
    (
      (validate_iff m rows').1
          (rw (n, prefix.0) whole, d, rw same (last_version-up_to m.target m.migrations z)),
      rw n prefix.1,
    )

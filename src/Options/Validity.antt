-- ===== src/Options/Validity.antt =====
-- src/options.rs, `validate`: what it accepts.
use sqly.Shared.Bytes.{bytes, starts_with, Text}
use sqly.Shared.{Bool-cases, inl, inr, arith, ◌≤◌, ◌↔◌, length, ◌<◌, ◌≡◌, Bool, true, false}
use sqly.Error.{ok}
use sqly.Options.Defs.{SqliteOptions, validate_sqlite, memory_name, max_millis, as_millis}

-- A usable SQLite configuration: a file that is named and not spelled like a memory database or a
-- URI, or a memory database without file settings; one that is read only creates nothing.
pub record IsUsable (same_path : Text → Text → Bool) (o : SqliteOptions) : Type 0 where
  pub named : 0 < length o.filename
  pub plain :
      o.memory ≡ false
      → (same_path o.filename memory_name ≡ false)
        × (starts_with (bytes "file:") o.filename ≡ false)
  pub bare : o.memory ≡ true → (o.read_only ≡ false) × (o.wal ≡ false) × (o.create ≡ false)
  pub frozen : o.read_only ≡ true → (o.create ≡ false) × (o.wal ≡ false)
  pub patient : as_millis o.busy_timeout ≤ max_millis

module _ {same_path : Text → Text → Bool} {o : SqliteOptions} where
  accepted : IsUsable same_path o → validate_sqlite same_path o ≡ ok tt
  unfolding validate_sqlite
  accepted u = elim (Bool-cases o.memory) [
    | inl m ↦ ground (arith, m, u.named, u.bare m, u.patient)
    | inr m ↦ elim (Bool-cases o.read_only) [
      | inl r ↦ ground (arith, m, r, u.named, u.plain m, u.frozen r, u.patient)
      | inr r ↦ ground (arith, m, r, u.named, u.plain m, u.patient)
    ]
  ]

-- A SQLite configuration is accepted exactly if it is usable.
pub validate_sqlite_iff :
    (same_path : Text → Text → Bool) (o : SqliteOptions)
    → (validate_sqlite same_path o ≡ ok tt) ↔ IsUsable same_path o
unfolding validate_sqlite
validate_sqlite_iff same_path o = (
  λ h. record {
    named = ground arith;
    plain = λ file. (ground arith, ground arith);
    bare = λ memory. (ground arith, ground arith, ground arith);
    frozen = λ fixed. (ground arith, ground arith);
    patient = ground arith;
  },
  λ u. accepted u,
)

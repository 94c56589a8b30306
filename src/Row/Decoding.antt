-- ===== src/Row/Decoding.antt =====
-- src/row.rs, `value` and `try_get`: what a decoded column is, and what its errors say.
use sqly.Shared.Bytes.{Text}
use sqly.Shared.Int.{◌≤ℤ◌, ℤ}
use sqly.Value.{
  native, optional, Native, option_decode, from_value, Representation, option_from_value, kind_of,
  Value, Kind,
}
use sqly.Foreign.{got, Foreign}
use sqly.Error.{
  ◌>>=◌, Cause, invalid, CauseOption, map_err, DecodeKind, Error, at_column, Result, >>=-eq-ok, err,
  ok,
}
use sqly.Shared.{ℕ, Bool-cases, subst, if◌then◌else◌, none, some, true, inl, inr, refl, ◌≡◌, arith}
use sqly.Row.Defs.{
  cell_at, names, unique_column, backend_value, driven, Backend, i32_max, i32_min, Row, narrow,
  sqlite_value, postgres_integer, postgres_value, value, try_get,
}

narrow_range : (a n : ℤ) → narrow a ≡ ok n → (i32_min ≤ℤ n) × (n ≤ℤ i32_max)
unfolding narrow
narrow_range a n h = ground arith

module _ (F : Foreign) where
  -- What a value of its kind satisfies beside its type: a 32-bit integer is in range.
  abbrev pub IsInRange : Value F → Type 0
  IsInRange (Value.i32 n) = (i32_min ≤ℤ n) × (n ≤ℤ i32_max)
  IsInRange v = Unit

  abbrev Has : Kind → Value F → Type 0
  Has k v = (kind_of F v ≡ k) × IsInRange v

  narrowed : Result ℤ → Result (Value F)
  narrowed m = do a ← m; n ← narrow a; ok (Value.i32 n)

  narrow-Has : (m : Result ℤ) (v : Value F) → narrowed m ≡ ok v → Has Kind.i32 v
  unfolding narrowed
  narrow-Has (ok a) v h = let n = >>=-eq-ok (narrow a) _ h in ground (arith, narrow_range a n.0 n.1)
  narrow-Has (err e) v h = cc

  sqlite_value-Has : (k : Kind) (c : F.Cell) (v : Value F) → sqlite_value F k c ≡ ok v → Has k v
  unfolding sqlite_value narrowed
  sqlite_value-Has Kind.i32 c v h = narrow-Has (driven (F.get_i64 c)) v h
  sqlite_value-Has k c v h = ground arith

  postgres_value-Has : (k : Kind) (c : F.Cell) (v : Value F) → postgres_value F k c ≡ ok v → Has k v
  unfolding postgres_value narrowed
  postgres_value-Has Kind.i32 c v h = narrow-Has (postgres_integer F c) v h
  postgres_value-Has k c v h = ground arith

  backend_value-Has :
      (b : Backend) (k : Kind) (c : F.Cell) (v : Value F) → backend_value F b k c ≡ ok v → Has k v
  backend_value-Has Backend.sqlite = sqlite_value-Has
  backend_value-Has Backend.postgres = postgres_value-Has

  cell-Has :
      (b : Backend) (k : Kind) (c : F.Cell) (v : Value F)
      → (if F.raw_is_null c then ok (Value.null k) else backend_value F b k c) ≡ ok v
      → Has k v
  cell-Has b k c v h = elim (Bool-cases (F.raw_is_null c)) [
    | inl missing ↦ ground arith
    | inr present ↦ backend_value-Has b k c v (rw present at h)
  ]

  -- A decoded column has the kind that was asked for, on either backend, also where it is NULL; a
  -- 32-bit integer is in range, whatever the width of the column.
  pub value-kind_of :
      (row : Row F) (column : Text) (k : Kind) (v : Value F)
      → value F row column k ≡ ok v
      → (kind_of F v ≡ k) × IsInRange v
  unfolding value
  value-kind_of row column k v h =
      let index = >>=-eq-ok (unique_column (names F row) column) _ h in
      let cell = >>=-eq-ok (driven (cell_at F row.columns index.0)) _ index.2 in
      cell-Has row.backend k cell.0 v cell.2

  abbrev IsAtColumn : Text → Error → Type 0
  IsAtColumn column e =
      (kind : DecodeKind) × (c : CauseOption) × (e ≡ Error.decode_failed (some column) kind c)

  at_column-IsAtColumn : (column : Text) (e : Error) → IsAtColumn column (at_column column e)
  unfolding at_column
  at_column-IsAtColumn column (Error.decode_failed d kind c) = (kind, c, refl)
  at_column-IsAtColumn column e =
      (DecodeKind.invalid_value, CauseOption.with_cause (Cause.crate_error e), refl)

  map_err-IsAtColumn :
      {T : Type 0} (column : Text) (r : Result T) (e : Error)
      → map_err (at_column column) r ≡ err e
      → IsAtColumn column e
  map_err-IsAtColumn column (ok a) e h = cc
  map_err-IsAtColumn column (err d) e h =
      subst (IsAtColumn column) (ground arith) (at_column-IsAtColumn column d)

  -- Every failure of `try_get` is a decoding error at the column that was asked for, also where the
  -- application's own `decode` failed with another error.
  pub try_get-error :
      {A T : Type 0} (r : Representation F A) (decode : A → Result T) (row : Row F) (column : Text)
      (e : Error)
      → try_get F r decode row column ≡ err e
      → (kind : DecodeKind) × (c : CauseOption) × (e ≡ Error.decode_failed (some column) kind c)
  unfolding try_get
  try_get-error r decode row column e h = map_err-IsAtColumn column _ e h

  -- A NULL in the one column of the name is `None` for an optional type, and an unexpected NULL at
  -- that column for the type itself.
  pub try_get-null :
      {T : Type 0} (k : Kind) (decode : Native F k → Result T) (row : Row F) (column : Text) (i : ℕ)
      (c : F.Cell)
      → unique_column (names F row) column ≡ ok i
      → cell_at F row.columns i ≡ got c
      → F.raw_is_null c ≡ true
      → (try_get F (optional F (native F k)) (option_decode decode) row column ≡ ok none)
        × (try_get F (native F k) decode row column
            ≡ err
                (Error.decode_failed (some column) DecodeKind.unexpected_null CauseOption.no_cause))
  unfolding try_get value option_from_value from_value option_decode at_column invalid
  try_get-null k decode row column i c unique cell missing =
      (rw (unique, cell, missing), rw (unique, cell, missing))

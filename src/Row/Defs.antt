-- ===== src/Row/Defs.antt =====
-- src/row.rs.
use sqly.Shared.Bytes.{bytes, eq_text, Text}
use sqly.Value.{Value, Representation, Kind}
use sqly.Shared.Int.{eqb_ℤ, leb_ℤ, negsuc, pos, ℤ}
use sqly.Shared.{[], zero, true, ◌&&◌, false, suc, none, ◌∷◌, Bool, if◌then◌else◌, map, ℕ, List}
use sqly.Foreign.{refused, got, Fetched, Foreign}
use sqly.Error.{
  decode_value, ◌>>=◌, CauseOption, ok, SqlxError, ok_or, at_column, invalid, DecodeKind, err,
  map_err, Error, Result, Cause,
}

pub data Backend : Type 0 where
  sqlite postgres : Backend

pub record Row (F : Foreign) : Type 0 where
  pub backend : Backend
  pub columns : List (Text × F.Cell)

-- The positions, from `i` on, at which the name stands.
abbrev pub positions : ℕ → Text → List Text → List ℕ
positions i name [] = []
positions i name (n ∷ names) =
    let rest = positions (suc i) name names in if eq_text n name then i ∷ rest else rest

abbrev pub only : List ℕ → Result ℕ
only [] = err (invalid DecodeKind.missing_column)
only (i ∷ []) = ok i
only (i ∷ j ∷ rest) = err (invalid DecodeKind.duplicate_column)

unfoldable pub unique_column : List Text → Text → Result ℕ
unique_column names name = only (positions 0 name names)

unfoldable pub decode_driver : Cause → Error
decode_driver source =
    Error.decode_failed none DecodeKind.type_mismatch (CauseOption.with_cause source)

abbrev pub fetched : {A : Type 0} → (Cause → Error) → Fetched A → Result A
fetched f (got a) = ok a
fetched f (refused c) = err (f c)

-- `.map_err(decode_driver)?`
abbrev pub driven : {A : Type 0} → Fetched A → Result A
driven = fetched decode_driver

abbrev pub i32_min : ℤ
i32_min = negsuc 2147483647

abbrev pub i32_max : ℤ
i32_max = pos 2147483647

-- `i32::try_from`.
unfoldable pub narrow : ℤ → Result ℤ
narrow v =
    if leb_ℤ i32_min v && leb_ℤ v i32_max then ok v else err (invalid DecodeKind.out_of_range)

abbrev pub bool_of : ℤ → Result Bool
bool_of v =
    if eqb_ℤ v (pos 0)
    then ok false
    else (if eqb_ℤ v (pos 1) then ok true else err (invalid DecodeKind.invalid_value))

module _ (F : Foreign) where
  abbrev pub in_utc : F.Time → Result (Value F)
  in_utc t = ok_or (invalid DecodeKind.out_of_range) (F.checked_in_utc t) >>= λ u. ok (Value.time u)

  -- The match on the kind, for a cell that is not NULL.
  unfoldable pub sqlite_value : Kind → F.Cell → Result (Value F)
  unfolding narrow
  sqlite_value Kind.i64 c = do v ← driven (F.get_i64 c); ok (Value.i64 v)
  sqlite_value Kind.i32 c = do v ← driven (F.get_i64 c); n ← narrow v; ok (Value.i32 n)
  sqlite_value Kind.text c = do v ← driven (F.get_text c); ok (Value.text v)
  sqlite_value Kind.bytes c = do v ← driven (F.get_bytes c); ok (Value.bytes v)
  sqlite_value Kind.float c = do v ← driven (F.get_float c); ok (Value.float v)
  sqlite_value Kind.bool c = do v ← driven (F.get_i64 c); b ← bool_of v; ok (Value.bool b)
  sqlite_value Kind.uuid c = do
    v ← driven (F.get_text c)
    u ← fetched decode_value (F.parse_uuid v)
    ok (Value.uuid u)
  sqlite_value Kind.json c = do
    v ← driven (F.get_text c)
    j ← fetched decode_value (F.parse_json v)
    ok (Value.json j)
  sqlite_value Kind.time c = do
    v ← driven (F.get_text c)
    t ← fetched decode_value (F.parse_time v)
    in_utc t

  -- `INT2`, `INT4` and `INT8` columns, widened to 64 bits.
  unfoldable pub postgres_integer : F.Cell → Result ℤ
  postgres_integer c =
      if eq_text (F.type_name c) (bytes "INT2")
      then driven (F.get_i16 c)
      else if eq_text (F.type_name c) (bytes "INT4")
      then driven (F.get_i32 c)
      else if eq_text (F.type_name c) (bytes "INT8")
      then driven (F.get_i64 c)
      else err (invalid DecodeKind.type_mismatch)

  unfoldable pub postgres_value : Kind → F.Cell → Result (Value F)
  unfolding postgres_integer narrow
  postgres_value Kind.i32 c = do v ← postgres_integer c; n ← narrow v; ok (Value.i32 n)
  postgres_value Kind.i64 c = do v ← postgres_integer c; ok (Value.i64 v)
  postgres_value Kind.text c = do v ← driven (F.get_text c); ok (Value.text v)
  postgres_value Kind.bytes c = do v ← driven (F.get_bytes c); ok (Value.bytes v)
  postgres_value Kind.float c = do v ← driven (F.get_float c); ok (Value.float v)
  postgres_value Kind.bool c = do v ← driven (F.get_bool c); ok (Value.bool v)
  postgres_value Kind.uuid c = do v ← driven (F.get_uuid c); ok (Value.uuid v)
  postgres_value Kind.json c = do v ← driven (F.get_json c); ok (Value.json v)
  postgres_value Kind.time c = do t ← driven (F.get_time c); in_utc t

  abbrev pub backend_value : Backend → Kind → F.Cell → Result (Value F)
  backend_value Backend.sqlite = sqlite_value
  backend_value Backend.postgres = postgres_value

  -- SQLx refuses an index out of range; `unique_column` gives none.
  abbrev pub cell_at : List (Text × F.Cell) → ℕ → Fetched F.Cell
  cell_at [] i = refused (Cause.sqlx (SqlxError.other 0))
  cell_at (c ∷ cs) zero = got c.1
  cell_at (c ∷ cs) (suc i) = cell_at cs i

  abbrev pub names : Row F → List Text
  names row = map (λ (c : Text × F.Cell). c.0) row.columns

  unfoldable pub value : Row F → Text → Kind → Result (Value F)
  value row column kind = do
    index ← unique_column (names row) column
    cell ← driven (cell_at row.columns index)
    if F.raw_is_null cell then ok (Value.null kind) else backend_value row.backend kind cell

  -- `T::Repr` is `r`, and `decode` the application's `Decode` of `T`.
  unfoldable pub try_get :
      {A T : Type 0} → Representation F A → (A → Result T) → Row F → Text → Result T
  try_get r decode row column =
      map_err (at_column column) ((value row column r.kind >>= r.from) >>= decode)

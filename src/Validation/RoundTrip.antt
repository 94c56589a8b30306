-- ===== src/Validation/RoundTrip.antt =====
-- .ai/validation/src/lib.rs, `round_trip` at every type that can be bound.
use sqly.Shared.{
  List, [], ◌∷◌, ◌∙◌, Option, none, some, ◌≡◌, refl, Bool, true, false, if◌then◌else◌, arith, ap,
  Bool-cases, inl, inr,
}
use sqly.Shared.Bytes.{Text}
use sqly.Validation.Defs.{
  Error, Query, bind, bind_all, Repr, optional, SqlValue, Result, Value, Native, repr, encoder,
  decoder, round_trip, option_into_value, option_from_value, ◌>>=◌,
}

module _ (Uuid : Type 0) where
  -- Whether a value is absent at some level of its options.
  abbrev pub is_absent : (t : SqlValue) → Native Uuid t → Bool
  is_absent (SqlValue.option t) none = true
  is_absent (SqlValue.option t) (some a) = is_absent t a
  is_absent t a = false

  -- The outermost option is absent where any is.
  abbrev pub flattened : (t : SqlValue) → Native Uuid t → Native Uuid t
  flattened (SqlValue.option t) a = if is_absent (SqlValue.option t) a then none else a
  flattened t a = a

  encode_lem : (t : SqlValue) (a : Native Uuid t) → (encoder Uuid t).encode a ≡ Result.ok a
  encode_lem (SqlValue.option t) none = refl
  encode_lem (SqlValue.option t) (some a) = rw (encode_lem t a) refl
  encode_lem t a = refl

  decode_lem : (t : SqlValue) (a : Native Uuid t) → (decoder Uuid t).decode a ≡ Result.ok a
  decode_lem (SqlValue.option t) none = refl
  decode_lem (SqlValue.option t) (some a) = rw (decode_lem t a) refl
  decode_lem t a = refl

  -- Where a value is absent it is stored as NULL, and elsewhere as something else, which gives it back.
  into_value-absent :
      (t : SqlValue) (a : Native Uuid t)
      → is_absent t a ≡ true
      → (repr Uuid t).into_value a ≡ Value.null
  unfolding option_into_value
  into_value-absent (SqlValue.option t) none h = refl
  into_value-absent (SqlValue.option t) (some a) h = into_value-absent t a h
  into_value-absent SqlValue.uuid a h = cc
  into_value-absent SqlValue.integer a h = cc
  into_value-absent SqlValue.string a h = cc

  -- What is read as present is read as present through one more option.
  option_from_value-some :
      {A : Type 0} (r : Repr Uuid A) (v : Value Uuid) (a : A)
      → option_from_value Uuid r v ≡ Result.ok (some a)
      → option_from_value Uuid (optional Uuid r) v ≡ Result.ok (some (some a))
  unfolding option_from_value
  option_from_value-some r Value.null a h = cc
  option_from_value-some {A} r v a h =
      ap (λ (b : Result (Option A)). b >>= λ c. Result.ok (some c)) h

  from_value-present :
      (t : SqlValue) (a : Native Uuid t)
      → is_absent t a ≡ false
      → ((repr Uuid t).from_value ((repr Uuid t).into_value a) ≡ Result.ok a)
        × (option_from_value Uuid (repr Uuid t) ((repr Uuid t).into_value a) ≡ Result.ok (some a))
  unfolding option_into_value option_from_value
  from_value-present (SqlValue.option t) none h = cc
  from_value-present (SqlValue.option t) (some a) h =
      let (inner, outer) = from_value-present t a h in
      (outer, option_from_value-some (repr Uuid t) ((repr Uuid t).into_value a) a outer)
  from_value-present SqlValue.uuid a h = (refl, refl)
  from_value-present SqlValue.integer a h = (refl, refl)
  from_value-present SqlValue.string a h = (refl, refl)

  from_value_lem :
      (t : SqlValue) (a : Native Uuid t)
      → (repr Uuid t).from_value ((repr Uuid t).into_value a) ≡ Result.ok (flattened t a)
  unfolding option_from_value
  from_value_lem (SqlValue.option t) a = elim (Bool-cases (is_absent (SqlValue.option t) a)) [
    | inl e ↦ rw (into_value-absent (SqlValue.option t) a e, e) refl
    | inr e ↦ rw e ((from_value-present (SqlValue.option t) a e).0)
  ]
  from_value_lem SqlValue.uuid a = refl
  from_value_lem SqlValue.integer a = refl
  from_value_lem SqlValue.string a = refl

  -- Whatever the type is, `round_trip` does not fail, and gives the value back as it was; but where
  -- an option is absent inside of a present one, it gives the outermost option as absent.
  pub round_trip-flattened :
      (t : SqlValue) (a : Native Uuid t)
      → round_trip Uuid (repr Uuid t) (encoder Uuid t) (decoder Uuid t) a
        ≡ Result.ok (flattened t a)
  unfolding round_trip
  round_trip-flattened t a =
      rw (encode_lem t a, from_value_lem t a, decode_lem t (flattened t a)) refl

-- Whether a value did not encode.
abbrev pub any_refused : {R : Type 0} → List (Result R) → Bool
any_refused [] = false
any_refused (Result.ok r ∷ rest) = any_refused rest
any_refused (Result.err e ∷ rest) = true

-- A query that any values are bound to keeps an error exactly if it had one, or a value did not
-- encode.
pub bind_all-error :
    {R : Type 0} (encoded : List (Result R)) (q : Query)
    → (bind_all encoded q).error ≡ (if any_refused encoded then some Error.error else q.error)
unfolding bind
bind_all-error [] q = refl
bind_all-error (Result.ok r ∷ rest) q = bind_all-error rest q
bind_all-error (Result.err Error.error ∷ rest) q =
    bind_all-error rest (bind {R = Text} (Result.err Error.error) q) ∙ ground arith

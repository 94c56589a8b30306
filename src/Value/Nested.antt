-- ===== src/Value/Nested.antt =====
-- src/value.rs: the impls for `Option`, one inside of the other, over a type of `codec!`.
use sqly.Foreign.{Foreign}
use sqly.Shared.{
  ℕ, zero, suc, Bool, true, false, Option, none, some, ◌≡◌, refl, ap, if◌then◌else◌, arith, ◌∙◌,
  sym, Bool-cases, inl, inr,
}
use sqly.Error.{Result, ok, ◌>>=◌}
use sqly.Value.Defs.{
  Kind, Value, Native, Representation, native, optional, option_into_value, option_from_value,
  option_encode, option_decode, encode_value, kind_of, is_null,
}
use sqly.Value.Laws.{into_value-from_value, into_value-not_null}
use sqly.Value.Codec.{codec_encode, codec_encode_ref, codec_decode, option_encode_ref}

module _ (F : Foreign) (k : Kind) where
  -- The type under so many options, and its impls.
  abbrev pub Nested : ℕ → Type 0
  Nested zero = Native F k
  Nested (suc n) = Option (Nested n)

  abbrev pub nested : (n : ℕ) → Representation F (Nested n)
  nested zero = native F k
  nested (suc n) = optional F (nested n)

  abbrev pub nested_encode : (n : ℕ) → Nested n → Result (Nested n)
  nested_encode zero = codec_encode
  nested_encode (suc n) = option_encode (nested_encode n)

  abbrev pub nested_encode_ref : (n : ℕ) → Nested n → Result (Nested n)
  nested_encode_ref zero = codec_encode_ref
  nested_encode_ref (suc n) = option_encode_ref (nested_encode_ref n)

  abbrev pub nested_decode : (n : ℕ) → Nested n → Result (Nested n)
  nested_decode zero = codec_decode
  nested_decode (suc n) = option_decode (nested_decode n)

  -- Whether a value is absent at some level of its options.
  abbrev pub is_absent : (n : ℕ) → Nested n → Bool
  is_absent zero a = false
  is_absent (suc n) none = true
  is_absent (suc n) (some a) = is_absent n a

  -- The outermost option is absent where any is.
  abbrev pub flattened : (n : ℕ) → Nested n → Nested n
  flattened zero a = a
  flattened (suc n) a = if is_absent (suc n) a then none else a

  nested_encode_lem : (n : ℕ) (a : Nested n) → nested_encode n a ≡ ok a
  unfolding option_encode codec_encode
  nested_encode_lem zero a = refl
  nested_encode_lem (suc n) none = refl
  nested_encode_lem (suc n) (some a) = rw (nested_encode_lem n a) refl

  nested_encode_ref_lem : (n : ℕ) (a : Nested n) → nested_encode_ref n a ≡ nested_encode n a
  unfolding option_encode option_encode_ref codec_encode codec_encode_ref
  nested_encode_ref_lem zero a = refl
  nested_encode_ref_lem (suc n) none = refl
  nested_encode_ref_lem (suc n) (some a) = rw (nested_encode_ref_lem n a) refl

  nested_decode_lem : (n : ℕ) (a : Nested n) → nested_decode n a ≡ ok a
  unfolding option_decode codec_decode
  nested_decode_lem zero a = refl
  nested_decode_lem (suc n) none = refl
  nested_decode_lem (suc n) (some a) = rw (nested_decode_lem n a) refl

  nested-kind : (n : ℕ) → (nested n).kind ≡ k
  nested-kind zero = refl
  nested-kind (suc n) = nested-kind n

  -- What is stored has the kind of the type inside, and is NULL exactly where the value is absent.
  nested-stored :
      (n : ℕ) (a : Nested n) (v : Value F)
      → (nested n).into a ≡ ok v
      → (kind_of F v ≡ k) × (is_null F v ≡ is_absent n a)
  unfolding option_into_value
  nested-stored zero a v h = ((into_value-not_null F k a v h).1, (into_value-not_null F k a v h).0)
  nested-stored (suc n) none v h = grind (arith, nested-kind n)
  nested-stored (suc n) (some a) v h = nested-stored n a v h

  -- What is not NULL is read through one more option as it is read without it.
  option_from_value-some :
      {A : Type 0} (r : Representation F A) (v : Value F)
      → is_null F v ≡ false
      → option_from_value F r v ≡ (r.from v >>= λ a. ok (some a))
  unfolding option_from_value
  option_from_value-some r (Value.null j) h = cc
  option_from_value-some r v h = refl

  nested-present :
      (n : ℕ) (a : Nested n) (v : Value F)
      → (nested n).into a ≡ ok v
      → is_absent n a ≡ false
      → (nested n).from v ≡ ok a
  unfolding option_into_value
  nested-present zero a v h e = (into_value-from_value F k a v).0 h
  nested-present (suc n) none v h e = cc
  nested-present (suc n) (some a) v h e =
      option_from_value-some (nested n) v ((nested-stored n a v h).1 ∙ e)
      ∙ ap (λ (r : Result (Nested n)). r >>= λ b. ok (some b)) (nested-present n a v h e)

  nested-absent :
      (n : ℕ) (v : Value F) → is_null F v ≡ true → option_from_value F (nested n) v ≡ ok none
  unfolding option_from_value
  nested-absent n (Value.null j) h = refl
  nested-absent n v h = cc

  nested-read :
      (n : ℕ) (a : Nested n) (v : Value F)
      → (nested n).into a ≡ ok v
      → (nested n).from v ≡ ok (flattened n a)
  nested-read zero a v h = nested-present zero a v h refl
  nested-read (suc n) a v h = elim (Bool-cases (is_absent (suc n) a)) [
    | inl e ↦ nested-absent n v ((nested-stored (suc n) a v h).1 ∙ e) ∙ rw e refl
    | inr e ↦ nested-present (suc n) a v h e ∙ rw e refl
  ]

  -- A value under any number of options, of a type of codec! that can be bound, is stored with the
  -- kind of the type, as NULL exactly when it is absent at some level; it is read back as it was, but
  -- where it is absent inside of a present option, the outermost option is read as absent. A borrowed
  -- value encodes as an owned one.
  pub nested-round_trip :
      (n : ℕ) (a : Nested n) (v : Value F)
      → encode_value (nested n) (nested_encode n a) ≡ ok v
      → (((nested n).from v >>= nested_decode n) ≡ ok (flattened n a))
        × (kind_of F v ≡ k)
        × (is_null F v ≡ is_absent n a)
        × (nested_encode_ref n a ≡ nested_encode n a)
  unfolding encode_value
  nested-round_trip n a v h =
      let stored : (nested n).into a ≡ ok v =
        ap (λ (r : Result (Nested n)). r >>= (nested n).into) (sym (nested_encode_lem n a)) ∙ h in
      (
        ap (λ (r : Result (Nested n)). r >>= nested_decode n) (nested-read n a v stored)
            ∙ nested_decode_lem n (flattened n a),
        (nested-stored n a v stored).0,
        (nested-stored n a v stored).1,
        nested_encode_ref_lem n a,
      )

-- ===== src/Value/Laws.antt =====
-- The representation of src/value.rs is faithful: what is written is what is read back.
use sqly.Foreign.{Foreign}
use sqly.Shared.{◌≡◌, refl, ap, ◌∙◌, ◌↔◌, true, false, Option, none, some, arith}
use sqly.Error.{Result, ok, ◌>>=◌}
use sqly.Value.Defs.{
  native, option_into_value, Kind, Value, Native, kind_of, is_null, into_value, from_value,
  option_from_value,
}

module _ (F : Foreign) where
  -- A Rust value encodes to a portable value exactly when the portable value decodes to it.
  pub into_value-from_value :
      (k : Kind) (a : Native F k) (v : Value F)
      → (into_value F k a ≡ ok v) ↔ (from_value F k v ≡ ok a)
  unfolding into_value from_value
  into_value-from_value Kind.text a v = (λ h. ground arith, λ h. ground arith)
  into_value-from_value Kind.i32 a v = (λ h. ground arith, λ h. ground arith)
  into_value-from_value Kind.i64 a v = (λ h. ground arith, λ h. ground arith)
  into_value-from_value Kind.bool a v = (λ h. ground arith, λ h. ground arith)
  into_value-from_value Kind.bytes a v = (λ h. ground arith, λ h. ground arith)
  into_value-from_value Kind.float a v = (λ h. ground arith, λ h. ground arith)
  into_value-from_value Kind.uuid a v = (λ h. ground arith, λ h. ground arith)
  into_value-from_value Kind.time a v = (λ h. ground arith, λ h. ground arith)
  into_value-from_value Kind.json a v = (λ h. ground arith, λ h. ground arith)

  pub into_value-not_null :
      (k : Kind) (a : Native F k) (v : Value F)
      → into_value F k a ≡ ok v
      → (is_null F v ≡ false) × (kind_of F v ≡ k)
  unfolding into_value
  into_value-not_null Kind.text a v h = ground arith
  into_value-not_null k a v h = ground arith

  option_from_value-not_null :
      (k : Kind) (v : Value F)
      → is_null F v ≡ false
      → option_from_value F (native F k) v ≡ (from_value F k v >>= λ a. ok (some a))
  unfolding option_from_value
  option_from_value-not_null k (Value.null j) h = cc
  option_from_value-not_null k v h = refl

  some-eq_ok :
      (k : Kind) (a : Native F k) (v : Value F)
      → into_value F k a ≡ ok v
      → option_from_value F (native F k) v ≡ ok (some a)
  some-eq_ok k a v h =
      option_from_value-not_null k v (into_value-not_null k a v h).0
      ∙ ap (λ (r : Result (Native F k)). r >>= λ b. ok (some b)) ((into_value-from_value k a v).0 h)

  -- An optional value that encodes is read back as it was, absent or present; the stored value is
  -- NULL exactly when the value is absent, and it has the kind of the type in either case.
  pub option_into_value-round_trip :
      (k : Kind) (o : Option (Native F k)) (v : Value F)
      → option_into_value F (native F k) o ≡ ok v
      → (option_from_value F (native F k) v ≡ ok o)
        × (kind_of F v ≡ k)
        × ((is_null F v ≡ true) ↔ (o ≡ none))
  unfolding option_into_value option_from_value
  option_into_value-round_trip k none v h = ground arith
  option_into_value-round_trip k (some a) v h = (
    some-eq_ok k a v h,
    (into_value-not_null k a v h).1,
    (λ n. cc ((into_value-not_null k a v h).0), λ e. cc),
  )

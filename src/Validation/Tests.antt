-- ===== src/Validation/Tests.antt =====
-- Tests of the probe.
use sqly.Shared.{none, some, [], ◌∷◌, ◌≡◌, refl}
use sqly.Shared.Int.{pos}
use sqly.Shared.Bytes.{Text, bytes}
use sqly.Validation.Defs.{
  SqlValue, Result, Error, Value, repr, encoder, decoder, round_trip, option_into_value, bind_all,
  bind, display, option_from_value,
}

round_trip-present :
    round_trip Text
      (repr Text (SqlValue.option SqlValue.integer))
      (encoder Text (SqlValue.option SqlValue.integer))
      (decoder Text (SqlValue.option SqlValue.integer))
      (some (pos 7))
    ≡ Result.ok (some (pos 7))
unfolding round_trip option_into_value option_from_value
round_trip-present = refl

round_trip-buried :
    round_trip Text
      (repr Text (SqlValue.option (SqlValue.option SqlValue.string)))
      (encoder Text (SqlValue.option (SqlValue.option SqlValue.string)))
      (decoder Text (SqlValue.option (SqlValue.option SqlValue.string)))
      (some none)
    ≡ Result.ok none
unfolding round_trip option_into_value option_from_value
round_trip-buried = refl

wrong_variant :
    (repr Text SqlValue.integer).from_value (Value.text (bytes "7")) ≡ Result.err Error.error
wrong_variant = refl

bind_keeps_error :
    (bind_all
      (Result.ok (pos 1) ∷ Result.err Error.error ∷ Result.ok (pos 2) ∷ [])
      (record { error = none })).error
    ≡ some Error.error
unfolding bind
bind_keeps_error = refl

display_error : display Error.error ≡ bytes "probe conversion error"
unfolding display
display_error = refl

-- ===== src/Value/Tests.antt =====
-- Tests of the values, and the theorems at concrete inputs.
use sqly.Value.Codec.{codec_encode}
use sqly.Value.Nested.{
  Nested, nested, nested_encode, nested_encode_ref, nested_decode, flattened, is_absent,
  nested-round_trip,
}
use sqly.Error.{ok, ◌>>=◌}
use sqly.Shared.{◌↔◌, ◌≡◌, refl, none, some}
use sqly.Shared.Int.{pos}
use sqly.Shared.Bytes.{bytes}
use sqly.Value.Timestamp.{timestamp}
use sqly.Value.Laws.{into_value-from_value}
use sqly.Value.Defs.{
  option_encode, option_into_value, encode_value, Kind, Value, into_value, from_value, kind_of,
  is_null,
}
use sqly.Sample.{libraries}

timestamp_padded :
    timestamp (record {
      year = pos 987;
      month = 2;
      day = 3;
      hour = 4;
      minute = 5;
      second = 6;
      nanosecond = 7_000;
    })
    ≡ bytes "0987-02-03T04:05:06.000007Z"
unfolding timestamp
timestamp_padded = refl

into_value-from_value_example :
    (into_value libraries Kind.float 4 ≡ ok (Value.float 4))
    ↔ (from_value libraries Kind.float (Value.float 4) ≡ ok 4)
into_value-from_value_example = into_value-from_value libraries Kind.float 4 (Value.float 4)

-- A value of type `Option<Option<OffsetDateTime>>` whose inner option is absent.
abbrev no_time : Nested libraries Kind.time 2
no_time = some none

nested-round_trip_example :
    (((nested libraries Kind.time 2).from (Value.null Kind.time)
        >>= nested_decode libraries Kind.time 2)
      ≡ ok (flattened libraries Kind.time 2 no_time))
    × (kind_of libraries (Value.null Kind.time) ≡ Kind.time)
    × (is_null libraries (Value.null Kind.time) ≡ is_absent libraries Kind.time 2 no_time)
    × (nested_encode_ref libraries Kind.time 2 no_time
        ≡ nested_encode libraries Kind.time 2 no_time)
unfolding option_encode codec_encode encode_value option_into_value
nested-round_trip_example =
    nested-round_trip libraries Kind.time 2 no_time (Value.null Kind.time) refl

-- What was present around nothing is read as absent.
no_time-flattened : flattened libraries Kind.time 2 no_time ≡ none
no_time-flattened = refl

-- ===== src/Warehouse/Skus.antt =====
-- consumers/warehouse/src/lib.rs, `Sku`: which texts are SKUs, and their way through a column.
use sqly.Shared.{◌≡◌, ◌∷◌, Bool, [], all, none, true, false, arith}
use sqly.Shared.Bytes.{Text}
use sqly.Foreign.{Foreign}
use sqly.Error.{Error, CauseOption, DecodeKind, Cause, Result, ok, err, ◌>>=◌, encode, decode_value}
use sqly.Value.{Kind, Value, native, from_value, encode_value, into_value, validate, variant}
use sqly.Warehouse.Items.{Sku, is_sku_byte, parse, encode_sku, decode_sku, invalid_sku}

abbrev pub is_sku : Text → Bool
is_sku [] = false
is_sku (b ∷ t) = all is_sku_byte (b ∷ t)

-- Reading a SKU from a column with the text.
abbrev pub read_sku : Foreign → Text → Result Sku
read_sku F value = from_value F Kind.text (Value.text value) >>= decode_sku

-- The error of `Sku::parse`, and its error for a column.
abbrev pub not_sku : Error
not_sku = Error.encode_failed none invalid_sku

abbrev pub not_sku_column : Error
not_sku_column =
    Error.decode_failed none DecodeKind.invalid_value
      (CauseOption.with_cause (Cause.crate_error not_sku))

module _ (F : Foreign) where
  -- A text of capital letters, digits and dashes, at least one, is parsed as the SKU of that text,
  -- which is bound as the same text, and read from a column as the same SKU.
  pub parse-round_trip :
      (value : Text)
      → is_sku value ≡ true
      → (sku : Sku) × (parse value ≡ ok sku)
        × (encode_value (native F Kind.text) (encode_sku sku) ≡ ok (Value.text value))
        × (read_sku F value ≡ ok sku)
  unfolding parse encode_sku decode_sku encode_value into_value validate variant from_value
  parse-round_trip [] h = absurd (ground arith)
  parse-round_trip (b ∷ t) h = (record { text = b ∷ t }, ground arith, ground arith, ground arith)

  -- Any other text fails to parse as not encodable, and in a column as an invalid value.
  pub parse-refused :
      (value : Text)
      → is_sku value ≡ false
      → (parse value ≡ err not_sku) × (read_sku F value ≡ err not_sku_column)
  unfolding parse decode_sku encode decode_value validate from_value
  parse-refused [] h = (ground arith, ground arith)
  parse-refused (b ∷ t) h = (ground arith, ground arith)

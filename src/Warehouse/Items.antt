-- ===== src/Warehouse/Items.antt =====
-- consumers/warehouse/src/lib.rs: SKUs, stock, and the queries.
use sqly.Shared.{Bool, ℕ, ◌∷◌, [], ◌&&◌, ◌||◌, ◌==◌, not, all, leb, if◌then◌else◌, true, false}
use sqly.Shared.Int.{ℤ}
use sqly.Shared.Bytes.{Text, bytes}
use sqly.Error.{map_ok, Error, Result, Cause, ok, err, encode, decode_value, map_err}
use sqly.Value.{Kind, Foreign, native, encode_value}
use sqly.Row.{Row, try_get}
use sqly.Sql.{from_text}
use sqly.Lock.{Lock, new_row, key}
use sqly.Query.{Query, bind, execute}
use sqly.Driver.{Output}
use sqly.Sqlx.{◌>>=◌, Io, Mode, pure}
use sqly.Scoped.Buffered.{scoped}

pub record Sku : Type 0 where
  pub text : Text

abbrev pub is_sku_byte : ℕ → Bool
is_sku_byte b = (leb b'A' b && leb b b'Z') || (leb b'0' b && leb b b'9') || b == b'-'

abbrev is_empty : Text → Bool
is_empty [] = true
is_empty (b ∷ t) = false

-- `io::Error::other("invalid SKU")`
abbrev pub invalid_sku : Cause
invalid_sku = Cause.foreign 1

unfoldable pub parse : Text → Result Sku
unfolding encode
parse value =
    if is_empty value || not (all is_sku_byte value)
    then err (encode invalid_sku)
    else ok (record { text = value })

-- `Encode` for `Sku` and for `&Sku`.
unfoldable pub encode_sku : Sku → Result Text
encode_sku sku = ok sku.text

unfoldable pub decode_sku : Text → Result Sku
unfolding parse decode_value
decode_sku value = map_err (λ e. decode_value (Cause.crate_error e)) (parse value)

pub record Stock : Type 0 where
  pub sku : Sku
  pub available : ℤ

pub data ReserveError : Type 0 where
  database : Error → ReserveError
  insufficient_stock : ReserveError

abbrev pub select_text : Text
select_text = bytes "SELECT sku, available FROM warehouse_stock WHERE sku = $1"

abbrev pub update_text : Text
update_text = bytes "UPDATE warehouse_stock SET available = available - $1 WHERE sku = $2"

abbrev pub insert_text : Text
insert_text = bytes "INSERT INTO warehouse_reservations (id, sku, quantity) VALUES ($1, $2, $3)"

module _ (F : Foreign) where
  unfoldable pub stock_from_row : Row F → Result Stock
  unfolding try_get
  stock_from_row row =
      let available = try_get F (native F Kind.i64) ok row (bytes "available") in
      elim (try_get F (native F Kind.text) decode_sku row (bytes "sku")) [
        | ok sku ↦ map_ok (λ n. record { sku = sku; available = n }) available
        | err e ↦ err e
      ]

  -- `.bind(sku)` and `.bind(n)`
  abbrev pub bind_sku : Sku → Query F → Query F
  bind_sku sku q = bind q (encode_value (native F Kind.text) (encode_sku sku))

  abbrev pub bind_i64 : ℤ → Query F → Query F
  bind_i64 n q = bind q (encode_value (native F Kind.i64) (ok n))

  unfoldable pub stock_lock : Sku → Lock F
  unfolding new_row key encode_sku
  stock_lock sku =
      key F (new_row F (bytes "warehouse_stock")) (bytes "sku")
        (encode_value (native F Kind.text) (encode_sku sku))

  unfoldable pub select_stock : Sku → Query F
  unfolding scoped bind
  select_stock sku = bind_sku sku (scoped (from_text select_text))

  unfoldable pub take_stock : ℤ → Sku → Query F
  unfolding scoped bind
  take_stock quantity sku = bind_sku sku (bind_i64 quantity (scoped (from_text update_text)))

  unfoldable pub insert_reservation : ℤ → Sku → ℤ → Query F
  unfolding scoped bind
  insert_reservation id sku quantity =
      bind_i64 quantity (bind_sku sku (bind_i64 id (scoped (from_text insert_text))))

module _ {F : Foreign} {S : Type 0} (target : Query F → Mode → Io S (Output F)) where
  -- `Reservations::insert`, where `target` runs the queries of its database.
  unfoldable pub insert : ℤ → Sku → ℤ → Io S (Unit {0})
  unfolding execute insert_reservation
  insert id sku quantity = execute (target (insert_reservation F id sku quantity)) >>= λ n. pure tt

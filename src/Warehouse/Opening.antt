-- ===== src/Warehouse/Opening.antt =====
-- consumers/warehouse/src/lib.rs, `Warehouse::reserve`: the transaction that a reservation is made on.
use sqly.Driver.{postgres_argument, sqlite_argument}
use sqly.Shared.{
  if◌then◌else◌, Bool, Option, ℕ, List, [], ◌∷◌, ◌++◌, ◌≡◌, ◌∙◌, ap, refl, sym, none, some, true,
  false,
}
use sqly.Shared.Int.{ℤ, pos, leb_ℤ, ltb_ℤ}
use sqly.Shared.Bytes.{Text, bytes, decimal}
use sqly.Foreign.{Foreign}
use sqly.Error.{Error, ok}
use sqly.Value.{Value, encode_value, into_value}
use sqly.Row.{Backend}
use sqly.Lock.{statement}
use sqly.Query.{in_transaction}
use sqly.Driver.Trace.{Event, trace, executed}
use sqly.Transaction.{Transaction, begin_text, is_postgres}
use sqly.Sqlx.{Server, World}
use sqly.Scoped.Defs.{Active}
use sqly.Scoped.Enter.{enter, write_locking, Ending}
use sqly.Scoped.Entering.{opened}
use sqly.Scoped.Explicit.{opened-trace}
use sqly.Scoped.Buffered.{inside_scope}
use sqly.Scoped.Mirrors.{
  Mirrors, shown, fetch_one-Mirrors, execute-Mirrors, Mirrors-bind, Mirrors-pure, Mirrors-if,
}
use sqly.Scoped.Programs.{explicit, enter-mirrored, Mirrors-perform, Mirrors-then, Mirrors-fail}
use sqly.Warehouse.Items.{
  Sku, ReserveError, insert, select_stock, take_stock, insert_reservation, stock_from_row,
  stock_lock,
}
use sqly.Warehouse.Defs.{reservation, taken, reserve}

-- The statement of the lock.
abbrev pub lock_text : Bool → Text
lock_text for_update =
    bytes "SELECT 1 AS sqly_lock_match FROM \"warehouse_stock\" WHERE \"sku\" = $1 LIMIT 2"
    ++ (if for_update then bytes " FOR UPDATE" else [])

module _ {F : Foreign} (S : Server F) where
  abbrev pub locked_by : Backend → Sku → Event F
  locked_by b sku = Event.statement (lock_text (is_postgres S b)) (Value.text sku.text ∷ [])

  locked_by-executed :
      (b : Backend) (sku : Sku)
      → executed (lock_text (is_postgres S b)) b (Value.text sku.text ∷ []) ≡ locked_by b sku
  unfolding sqlite_argument postgres_argument
  locked_by-executed Backend.sqlite sku = refl
  locked_by-executed Backend.postgres sku = refl

module _ {F : Foreign} where
  stock_lock-statement :
      (sku : Sku) (postgres : Bool)
      → statement F (stock_lock F sku) postgres ≡ ok (lock_text postgres, Value.text sku.text ∷ [])
  unfolding stock_lock statement encode_value into_value decimal
  stock_lock-statement sku true = refl
  stock_lock-statement sku false = refl

ok_injective : {A : Type 0} {a b : A} → ok a ≡ ok b → a ≡ b
ok_injective h = cc

module _ {F : Foreign} (S : Server F) (scope db : ℕ) (id : ℤ) (sku : Sku) (quantity : ℤ) where
  reservation-Mirrors :
      Mirrors S scope db
        (reservation (inside_scope S db (shown S scope db)) id sku quantity)
        (reservation (in_transaction S) id sku quantity)
  unfolding reservation taken insert
  reservation-Mirrors =
      Mirrors-then S scope db
        (Mirrors-perform S scope db ReserveError.database
          (fetch_one-Mirrors S scope db (stock_from_row F) (select_stock F sku)))
        λ stock.
          Mirrors-if S scope db (ltb_ℤ stock.available quantity)
            (Mirrors-fail S scope db (Unit {0}) ReserveError.insufficient_stock)
            (Mirrors-then S scope db
              (Mirrors-perform S scope db ReserveError.database
                (execute-Mirrors S scope db (take_stock F quantity sku)))
              λ n. Mirrors-perform S scope db ReserveError.database (
                Mirrors-bind S scope db
                  (execute-Mirrors S scope db (insert_reservation F id sku quantity))
                  λ m. Mirrors-pure S scope db tt))

module _ {F : Foreign} (S : Server F) (b : Backend) (scope db : ℕ) (id : ℤ) (sku : Sku)
    (quantity : ℤ) where
  abbrev pub reserving : Option Active → World F → Ending ReserveError (Unit {0}) × World F
  reserving current w = reserve S current b scope db id sku quantity w

  abbrev pub reserving_in : Transaction F → Ending ReserveError (Unit {0}) × Transaction F
  reserving_in t = reservation (in_transaction S) id sku quantity t

  -- Outside of every scope a reservation of a positive quantity is the reservation on a transaction
  -- that is begun, locked and ended by hand.
  pub reserve-explicit :
      (w : World F)
      → leb_ℤ quantity (pos 0) ≡ false
      → reserving none w
        ≡ explicit S ReserveError.database b (some (stock_lock F sku)) reserving_in w
  unfolding reserve write_locking
  reserve-explicit w h =
      rw (h, reserve)
        (enter-mirrored S scope db ReserveError.database b (some (stock_lock F sku)) w
          (reservation-Mirrors S scope db id sku quantity))

  pub reserve-inside :
      (a : Active) (w : World F)
      → leb_ℤ quantity (pos 0) ≡ false
      → reserving (some a) w ≡ (Ending.failed (ReserveError.database Error.nested_write_scope), w)
  unfolding reserve write_locking enter
  reserve-inside a w h = rw (h, reserve) refl

  -- What is executed before the reservation.
  abbrev pub opening : World F → List (Event F)
  opening w = locked_by S b sku ∷ Event.control (begin_text b) ∷ trace w.log

  pub opened-opening :
      (w : World F) (t : Transaction F)
      → opened S none b (some (stock_lock F sku)) w ≡ some t
      → trace t.world.log ≡ opening w
  opened-opening w t h =
      let (chosen, stated, sent) = opened-trace S b (stock_lock F sku) w t h in
      let same : chosen ≡ (lock_text (is_postgres S b), Value.text sku.text ∷ []) =
        ok_injective (sym stated ∙ stock_lock-statement sku (is_postgres S b)) in
      sent
      ∙ ap
          (λ (c : Text × List (Value F)).
            executed c.0 b c.1 ∷ Event.control (begin_text b) ∷ trace w.log)
          same
      ∙ ap (λ event. event ∷ Event.control (begin_text b) ∷ trace w.log)
          (locked_by-executed S b sku)

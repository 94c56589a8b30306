-- ===== src/Warehouse/Success.antt =====
-- consumers/warehouse/src/lib.rs, `Warehouse::reserve`: what a reservation that succeeds has done.
use sqly.Shared.{
  ◌∙◌, sym, Bool-cases, ap, ◌∷◌, ◌≡◌, Option, ℕ, none, some, false, inl, inr, refl, arith,
}
use sqly.Shared.Int.{ℤ, pos, leb_ℤ, ltb_ℤ}
use sqly.Foreign.{Foreign}
use sqly.Error.{Error}
use sqly.Row.{Backend}
use sqly.Driver.Trace.{Event, trace}
use sqly.Transaction.{Transaction, commit_text, begin_text}
use sqly.Transaction.Trace.{commit-trace}
use sqly.Sqlx.{Server, World, returned}
use sqly.Scoped.Defs.{Active}
use sqly.Scoped.Enter.{Ending}
use sqly.Scoped.Entering.{opened}
use sqly.Scoped.Writes.{conclude-succeeded}
use sqly.Scoped.Explicit.{explicit-result}
use sqly.Scoped.Programs.{concluded}
use sqly.Warehouse.Items.{Sku, Stock, ReserveError, stock_lock}
use sqly.Warehouse.Defs.{reserve}
use sqly.Warehouse.Reserve.{selecting, selected, updated, inserted, reservation-trace}
use sqly.Warehouse.Opening.{
  reserving, reserving_in, reserve-explicit, reserve-inside, opened-opening, locked_by,
}

module _ {F : Foreign} (S : Server F) (b : Backend) (scope db : ℕ) (id : ℤ) (sku : Sku)
    (quantity : ℤ) where
  concluded-trace :
      (t : Transaction F)
      → (concluded S ReserveError.database (reserving_in S b scope db id sku quantity t)).0
        ≡ Ending.succeeded tt
      → (stock : Stock) × ((selecting S id sku quantity t).0 ≡ returned stock)
        × (ltb_ℤ stock.available quantity ≡ false)
        × (trace
              (concluded S ReserveError.database
                (reserving_in S b scope db id sku quantity t)).1.log
            ≡ Event.control commit_text
              ∷ inserted sku id quantity
              ∷ updated sku quantity
              ∷ selected sku
              ∷ trace t.world.log)
  concluded-trace t h =
      let (r, u) = reserving_in S b scope db id sku quantity t in
      let (done, quiet, committed, left) =
        conclude-succeeded S ReserveError.database r false u tt h in
      let (stock, found, enough, sent) = reservation-trace S id sku quantity t done in
      (
        stock,
        found,
        enough,
        ap (λ (w : World F). trace w.log) left
            ∙ commit-trace S u committed
            ∙ ap (λ events. Event.control commit_text ∷ events) sent,
      )

  pub reserve-none :
      (w : World F) (r : Ending ReserveError (Unit {0}))
      → leb_ℤ quantity (pos 0) ≡ false
      → ((e : Error) → ¬ (r ≡ Ending.failed (ReserveError.database e)))
      → ¬ (r ≡ Ending.cut)
      → (reserving S b scope db id sku quantity none w).0 ≡ r
      → (t : Transaction F) × (opened S none b (some (stock_lock F sku)) w ≡ some t)
        × (reserving S b scope db id sku quantity none w
            ≡ concluded S ReserveError.database (reserving_in S b scope db id sku quantity t))
  reserve-none w r positive raises cuts h =
      let same = reserve-explicit S b scope db id sku quantity w positive in
      let (t, began, done) =
        explicit-result S ReserveError.database b (some (stock_lock F sku))
          (reserving_in S b scope db id sku quantity) w r raises cuts
          (ap (λ (x : Ending ReserveError (Unit {0}) × World F). x.0) (sym same) ∙ h) in
      (t, began, same ∙ done)

  -- A reservation that succeeds was not made in a scope, and its quantity is positive; the stock that
  -- it has read behind the lock is enough for it; and it has executed BEGIN, the statement of the
  -- lock, the SELECT, the UPDATE with the quantity, the INSERT, and COMMIT, in this order and
  -- nothing else.
  pub reserve-succeeded :
      (current : Option Active) (w : World F)
      → (reserve S current b scope db id sku quantity w).0 ≡ Ending.succeeded tt
      → (current ≡ none)
        × (leb_ℤ quantity (pos 0) ≡ false)
        × (t : Transaction F) × (stock : Stock) × (opened S none b (some (stock_lock F sku)) w
            ≡ some t)
        × ((selecting S id sku quantity t).0 ≡ returned stock)
        × (ltb_ℤ stock.available quantity ≡ false)
        × (trace (reserve S current b scope db id sku quantity w).1.log
            ≡ Event.control commit_text
              ∷ inserted sku id quantity
              ∷ updated sku quantity
              ∷ selected sku
              ∷ locked_by S b sku
              ∷ Event.control (begin_text b)
              ∷ trace w.log)
  unfolding reserve
  reserve-succeeded none w h = elim (Bool-cases (leb_ℤ quantity (pos 0))) [
    | inl empty ↦ absurd (ground arith)
    | inr positive ↦
        let (t, began, same) =
          reserve-none w (Ending.succeeded tt) positive (λ e i. cc) (λ i. cc) h in
        let (stock, found, enough, sent) =
          concluded-trace t
            (ap (λ (x : Ending ReserveError (Unit {0}) × World F). x.0) (sym same) ∙ h) in
        (
          refl,
          positive,
          t,
          stock,
          began,
          found,
          enough,
          ap (λ (x : Ending ReserveError (Unit {0}) × World F). trace x.1.log) same
              ∙ sent
              ∙ ap
                  (λ events.
                    Event.control commit_text
                    ∷ inserted sku id quantity
                    ∷ updated sku quantity
                    ∷ selected sku
                    ∷ events)
                  (opened-opening S b scope db id sku quantity w t began),
        )
  ]
  reserve-succeeded (some a) w h = elim (Bool-cases (leb_ℤ quantity (pos 0))) [
    | inl empty ↦ absurd (ground arith)
    | inr positive ↦
        absurd (ground (arith, reserve-inside S b scope db id sku quantity a w positive))
  ]

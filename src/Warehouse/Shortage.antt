-- ===== src/Warehouse/Shortage.antt =====
-- consumers/warehouse/src/lib.rs, `Warehouse::reserve`: a reservation that finds too little stock.
use sqly.Shared.{
  ◌⊎◌, List, true, ◌∙◌, sym, Bool-cases, ap, ◌∷◌, ◌≡◌, Option, ℕ, none, some, false, inl, inr,
  arith,
}
use sqly.Shared.Int.{ℤ, pos, leb_ℤ, ltb_ℤ}
use sqly.Foreign.{Foreign}
use sqly.Row.{Backend}
use sqly.Driver.Trace.{Event, trace}
use sqly.Transaction.{rollback_text, rollback, Transaction}
use sqly.Sqlx.{Server, World, returned}
use sqly.Scoped.Defs.{Active}
use sqly.Scoped.Enter.{Ending, conclude}
use sqly.Scoped.Entering.{opened}
use sqly.Scoped.Programs.{concluded}
use sqly.Warehouse.Items.{Sku, Stock, ReserveError, stock_lock}
use sqly.Warehouse.Defs.{reserve}
use sqly.Warehouse.Reserve.{selecting, selected}
use sqly.Warehouse.Opening.{reserving_in, reserve-inside, opening, opened-opening}
use sqly.Warehouse.Success.{reserve-none}
use sqly.Warehouse.Reserve.{reservation-short}
use sqly.Transaction.Trace.{rollback-trace}

module _ {F : Foreign} (S : Server F) (b : Backend) (scope db : ℕ) (id : ℤ) (sku : Sku)
    (quantity : ℤ) where
  abbrev pub Short : Transaction F → List (Event F) → World F → Type 0
  Short t events w =
      (stock : Stock) × ((selecting S id sku quantity t).0 ≡ returned stock)
      × (ltb_ℤ stock.available quantity ≡ true)
      × ((trace w.log ≡ Event.control rollback_text ∷ selected sku ∷ events)
          ⊎ (trace w.log ≡ selected sku ∷ events))

  conclude-failed :
      (r : Ending ReserveError (Unit {0})) (u : Transaction F)
      → (conclude S ReserveError.database r false u).0
        ≡ Ending.failed ReserveError.insufficient_stock
      → (r ≡ Ending.failed ReserveError.insufficient_stock)
        × ((conclude S ReserveError.database r false u).1 ≡ (rollback S u).1)
  unfolding conclude
  conclude-failed r u h = ground arith

  concluded-Short :
      (t : Transaction F)
      → (concluded S ReserveError.database (reserving_in S b scope db id sku quantity t)).0
        ≡ Ending.failed ReserveError.insufficient_stock
      → Short t
          (trace t.world.log)
          (concluded S ReserveError.database (reserving_in S b scope db id sku quantity t)).1
  concluded-Short t h =
      let (r, u) = reserving_in S b scope db id sku quantity t in
      let (done, left) = conclude-failed r u h in
      let (stock, found, short, sent) = reservation-short S id sku quantity t done in
      let back = ap (λ (w : World F). trace w.log) left in
      (
        stock,
        found,
        short,
        elim (rollback-trace S u) [
          | inl e ↦ inl (back ∙ e ∙ ap (λ events. Event.control rollback_text ∷ events) sent)
          | inr e ↦ inr (back ∙ e ∙ sent)
        ],
      )

  -- A reservation that fails for its stock was of no positive quantity, and has done nothing; or it
  -- has read, behind the lock, a stock that is less than the quantity, and it has executed BEGIN,
  -- the statement of the lock, the SELECT, and at most ROLLBACK after that.
  pub reserve-Short :
      (current : Option Active) (w : World F)
      → (reserve S current b scope db id sku quantity w).0
        ≡ Ending.failed ReserveError.insufficient_stock
      → ((leb_ℤ quantity (pos 0) ≡ true) × ((reserve S current b scope db id sku quantity w).1 ≡ w))
        ⊎ ((t : Transaction F) × (opened S none b (some (stock_lock F sku)) w ≡ some t)
            × Short t
                (opening S b scope db id sku quantity w)
                (reserve S current b scope db id sku quantity w).1)
  unfolding reserve
  reserve-Short none w h = elim (Bool-cases (leb_ℤ quantity (pos 0))) [
    | inl empty ↦ inl (empty, ground arith)
    | inr positive ↦
        let (t, began, same) =
          reserve-none S b scope db id sku quantity w
            (Ending.failed ReserveError.insufficient_stock) positive (λ e i. cc) (λ i. cc) h in
        let short =
          concluded-Short t
            (ap (λ (x : Ending ReserveError (Unit {0}) × World F). x.0) (sym same) ∙ h) in
        inr (
          t,
          began,
          rw
              (
                ap (λ (x : Ending ReserveError (Unit {0}) × World F). x.1) same,
                sym (opened-opening S b scope db id sku quantity w t began),
              )
              short,
        )
  ]
  reserve-Short (some a) w h = elim (Bool-cases (leb_ℤ quantity (pos 0))) [
    | inl empty ↦ inl (empty, ground arith)
    | inr positive ↦
        absurd (ground (arith, reserve-inside S b scope db id sku quantity a w positive))
  ]

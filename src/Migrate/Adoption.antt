-- ===== src/Migrate/Adoption.antt =====
-- src/migrate.rs, the adoption of a legacy ledger.
use sqly.Transaction.{Transaction}
use sqly.Sqlx.{Server}
use sqly.Shared.Bytes.{Text, eq_text_iff}
use sqly.Foreign.{Foreign}
use sqly.Shared.{
  get_elem?, ◌∷◌, length, drop, take, List, ◌≡◌, ℕ, [], some, zero, suc, true, refl, arith,
}
use sqly.Migrate.Defs.{Migrator, LedgerRow}
use sqly.Migrate.Ledger.{eq_row}
use sqly.Migrate.Apply.{adopt_rows, finished}

eq_row-same : (r : LedgerRow) → eq_row r r ≡ true
eq_row-same r = ground (
  arith,
  eq_text_iff r.description r.description,
  eq_text_iff r.checksum r.checksum,
  eq_text_iff r.applied_at r.applied_at,
)

take-drop-cons :
    (n i : ℕ) (rows source : List LedgerRow) (row : LedgerRow)
    → take (suc n) (drop i rows) ≡ row ∷ source
    → (get_elem? rows i ≡ some row) × (take n (drop (suc i) rows) ≡ source)
take-drop-cons n zero [] source row h = cc
take-drop-cons n zero (r ∷ rows) source row h = (ground arith, ground arith)
take-drop-cons n (suc i) [] source row h = cc
take-drop-cons n (suc i) (r ∷ rows) source row h = take-drop-cons n i rows source row h

module _ {F : Foreign} (S : Server F) (sha256 : Text → Text) (m : Migrator) where
  adopt_rows-same :
      (index : ℕ) (source rows : List LedgerRow) (t : Transaction F)
      → take (length source) (drop index rows) ≡ source
      → adopt_rows S sha256 m index source rows t ≡ (finished rows, t)
  unfolding adopt_rows
  adopt_rows-same index [] rows t h = refl
  adopt_rows-same index (row ∷ source) rows t h =
      let head = take-drop-cons (length source) index rows source row h in
      ground (arith, head.0, eq_row-same row, adopt_rows-same (suc index) source rows t head.1)

  -- If the rows of the legacy ledger are the first rows of the ledger, adopting them again does
  -- nothing: nothing is sent, and the ledger's rows are as before.
  pub adopt_rows-again :
      (source rows : List LedgerRow) (t : Transaction F)
      → take (length source) rows ≡ source
      → adopt_rows S sha256 m 0 source rows t ≡ (finished rows, t)
  adopt_rows-again source rows t h = adopt_rows-same 0 source rows t h

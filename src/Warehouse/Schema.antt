-- ===== src/Warehouse/Schema.antt =====
-- consumers/warehouse/src/lib.rs, `initialize`: what setting up an empty database executes.
use sqly.Shared.{◌∙◌, drop, ap, ℕ, zero, suc, ◌⊎◌, length, inl, inr, List, [], ◌∷◌, ◌≡◌, refl, none}
use sqly.Shared.Bytes.{Text, bytes}
use sqly.Shared.Int.{leb_ℤ, pos}
use sqly.Foreign.{Foreign}
use sqly.Row.{Backend}
use sqly.Query.{in_transaction, fetch_all}
use sqly.Driver.Trace.{Event, trace, executed}
use sqly.Transaction.{Transaction, begin, commit_text}
use sqly.Value.{Value}
use sqly.Sqlx.{Server, World, returned}
use sqly.Migrate.{Migration, take_while, pending, Migrator, LedgerRow, new_migration, try_new}
use sqly.Migrate.Apply.{select_query, finished, run, insert_text}
use sqly.Migrate.Ledger.{ledger_row}
use sqly.Migrate.Complete.{opening, run-executed}
use sqly.Migrate.Executed.{migrated}
use sqly.Migrate.Sequence.{selected}
use sqly.Warehouse.Setup.{schema, initialize, schema_text}

drop_nil : (A : Type 0) (n : ℕ) → drop {A = A} n [] ≡ []
drop_nil A zero = refl
drop_nil A (suc n) = refl

module _ (sha256 : Text → Text) where
  abbrev pub warehouse : Migrator
  warehouse = record {
    namespace = bytes "warehouse";
    migrations = schema sha256 ∷ [];
    target = pos 1;
    minimum = pos 0;
    legacy = none;
  }

  -- The row of the ledger for the schema.
  abbrev pub recorded_schema : {F : Foreign} → Backend → Event F
  recorded_schema b = executed insert_text b (
      Value.text (bytes "warehouse")
      ∷ Value.i64 (pos 1)
      ∷ Value.text (bytes "warehouse stock and reservations")
      ∷ Value.text (schema sha256).checksum
      ∷ [])

module _ {F : Foreign} (S : Server F) (sha256 : Text → Text) where
  initialize-run :
      (b : Backend) (w : World F) → initialize sha256 S b w ≡ run S sha256 (warehouse sha256) b w
  unfolding initialize try_new schema new_migration
  initialize-run b w = refl

  schema-migrated :
      (b : Backend) (found : List LedgerRow) (events : List (Event F))
      → ((found ≡ [])
          × (migrated S sha256
                (warehouse sha256)
                b
                (pending (warehouse sha256) (length found))
                events
              ≡ recorded_schema sha256 b ∷ Event.control schema_text ∷ events))
        ⊎ (¬ (found ≡ [])
            × (migrated S sha256
                  (warehouse sha256)
                  b
                  (pending (warehouse sha256) (length found))
                  events
                ≡ events))
  unfolding pending schema new_migration
  schema-migrated Backend.sqlite [] events = inl (refl, refl)
  schema-migrated Backend.postgres [] events = inl (refl, refl)
  schema-migrated b (row ∷ found) events = inr (
    λ h. cc,
    ap
        (λ ms.
          migrated S sha256 (warehouse sha256) b (take_while (λ n. leb_ℤ n.version (pos 1)) ms)
            events)
        (drop_nil Migration (length found)),
  )

  -- If setting up a database finishes, then it has executed, in this order and nothing else: BEGIN, on
  -- PostgreSQL the advisory locks, the table of the ledger, its reading, and COMMIT; and before the
  -- COMMIT the schema and its row of the ledger, exactly if the ledger had no row of the namespace.
  pub initialize-executed :
      (b : Backend) (w : World F) (t : Transaction F)
      → (begin S b w).0 ≡ returned t
      → (initialize sha256 S b w).0 ≡ finished tt
      → (read : Transaction F) × (found : List LedgerRow) × ((fetch_all
            (in_transaction S (select_query S sha256 (warehouse sha256)))
            ledger_row
            read).0
          ≡ returned found)
        × (trace read.world.log ≡ opening S sha256 (warehouse sha256) b w)
        × (((found ≡ [])
              × (trace (initialize sha256 S b w).1.log
                  ≡ Event.control commit_text
                    ∷ recorded_schema sha256 b
                    ∷ Event.control schema_text
                    ∷ selected S sha256 (warehouse sha256) b
                    ∷ opening S sha256 (warehouse sha256) b w))
            ⊎ (¬ (found ≡ [])
                × (trace (initialize sha256 S b w).1.log
                    ≡ Event.control commit_text
                      ∷ selected S sha256 (warehouse sha256) b
                      ∷ opening S sha256 (warehouse sha256) b w)))
  unfolding initialize try_new schema new_migration
  initialize-executed b w t h f =
      let (read, found, seen, before, valid, sent) =
        run-executed S sha256 (warehouse sha256) b w t refl h f in
      let events =
        selected S sha256 (warehouse sha256) b ∷ opening S sha256 (warehouse sha256) b w in
      (
        read,
        found,
        seen,
        before,
        elim (schema-migrated b found events) [
          | inl (empty, e) ↦ inl (empty, sent ∙ ap (λ rest. Event.control commit_text ∷ rest) e)
          | inr (present, e) ↦ inr (present, sent ∙ ap (λ rest. Event.control commit_text ∷ rest) e)
        ],
      )

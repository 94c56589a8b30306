-- ===== src/Migrate/Sequence.antt =====
-- src/migrate.rs, `run`: the statements of `apply` behind the advisory locks.
use sqly.Shared.{List, [], ◌∷◌, ◌≡◌, ◌∙◌, ap, refl, sym, none, arith, length}
use sqly.Shared.Bytes.{Text}
use sqly.Foreign.{Foreign}
use sqly.Row.{Backend}
use sqly.Sql.{text_for, from_text}
use sqly.Value.{Value, into_value, validate, variant}
use sqly.Query.{new_query, bind, in_transaction, fetch_all}
use sqly.Query.Trace.{fetch_all-trace}
use sqly.Driver.Trace.{controlled, Event, trace, executed}
use sqly.Transaction.{Transaction, batch}
use sqly.Sqlx.{Server, returned}
use sqly.Migrate.Defs.{
  MigrationResult, done, failure, Migrator, LedgerRow, pending, applied_version,
}
use sqly.Migrate.Ledger.{ledger_row}
use sqly.Migrate.Executed.{
  >>=-finished, ran_of-finished, batch-Leaves, apply_all-Leaves, migrated, text_for-same,
}
use sqly.Migrate.Apply.{
  Job, Ran, finished, ◌>>=◌, ◌>>◌, from_io, from_result, apply_all, adopt, check_minimum,
  select_query, select_text, create_text,
}

module _ {F : Foreign} where
  from_result-finished :
      {A : Type 0} (r : MigrationResult A) (t : Transaction F) (a : A)
      → (from_result r t).0 ≡ finished a
      → (r ≡ done a) × ((from_result r t).1 ≡ t)
  from_result-finished (done c) t a h = (ground arith, refl)
  from_result-finished (failure e) t a h = absurd (ground arith)

module _ {F : Foreign} (S : Server F) (sha256 : Text → Text) (m : Migrator) (b : Backend) where
  abbrev tail : List LedgerRow → Job F (Unit {0})
  tail rows = apply_all S sha256 m (pending m (length rows))

  abbrev after_adopt : List LedgerRow → Job F (Unit {0})
  after_adopt rows = check_minimum S sha256 m (applied_version rows) >> tail rows

  abbrev after_found : List LedgerRow → Job F (Unit {0})
  after_found found =
      from_result (sqly.Migrate.validate m found)
      >> (adopt S sha256 m found m.legacy >>= after_adopt)

  abbrev reading : Job F (List LedgerRow)
  reading = from_io (fetch_all (in_transaction S (select_query S sha256 m)) ledger_row)

  check_minimum-keeps :
      (rows : List LedgerRow) (t : Transaction F)
      → (check_minimum S sha256 m (applied_version rows) t).1 ≡ t
  check_minimum-keeps rows t = ground arith

  abbrev pub selected : Event F
  selected = executed select_text b (Value.text m.namespace ∷ [])

  reading-trace :
      (t : Transaction F) (found : List LedgerRow)
      → t.backend ≡ b
      → (reading t).0 ≡ finished found
      → (trace (reading t).1.world.log ≡ selected ∷ trace t.world.log) × ((reading t).1.backend ≡ b)
  unfolding new_query bind into_value validate variant
  reading-trace t found same h =
      let q = select_query S sha256 m in
      let (sent, kept) =
        fetch_all-trace S ledger_row q t found refl
          (ran_of-finished (fetch_all (in_transaction S q) ledger_row t).0 found h) in
      (
        sent
            ∙ ap
                (λ c.
                  executed (text_for c (from_text select_text)) c (Value.text m.namespace ∷ [])
                  ∷ trace t.world.log)
                same
            ∙ ap (λ sql. executed sql b (Value.text m.namespace ∷ []) ∷ trace t.world.log)
                (text_for-same S sha256 m b select_text),
        kept ∙ same,
      )

  after_adopt-trace :
      (rows : List LedgerRow) (t : Transaction F)
      → t.backend ≡ b
      → (after_adopt rows t).0 ≡ finished tt
      → trace (after_adopt rows t).1.world.log
        ≡ migrated S sha256 m b (pending m (length rows)) (trace t.world.log)
  after_adopt-trace rows t same h =
      let check = check_minimum S sha256 m (applied_version rows) in
      let (u, passed, rest, left) = >>=-finished check (λ u. tail rows) t tt h in
      let kept = check_minimum-keeps rows t in
      let (sent, _) =
        (apply_all-Leaves S sha256 m b (pending m (length rows))).leaves (check t).1 tt
          (ap (λ (v : Transaction F). v.backend) kept ∙ same) rest in
      ap (λ (v : Transaction F). trace v.world.log) left
      ∙ sent
      ∙ ap
          (λ (v : Transaction F).
            migrated S sha256 m b (pending m (length rows)) (trace v.world.log))
          kept

  adopt-none :
      (found : List LedgerRow) (t : Transaction F)
      → m.legacy ≡ none
      → (adopt S sha256 m found m.legacy >>= after_adopt) t ≡ after_adopt found t
  unfolding adopt
  adopt-none found t alone = rw alone refl

  after_found-trace :
      (found : List LedgerRow) (t : Transaction F)
      → m.legacy ≡ none
      → t.backend ≡ b
      → (after_found found t).0 ≡ finished tt
      → (sqly.Migrate.validate m found ≡ done tt)
        × (trace (after_found found t).1.world.log
            ≡ migrated S sha256 m b (pending m (length found)) (trace t.world.log))
  after_found-trace found t alone same h =
      let (u, checked, rest, left) =
        >>=-finished (from_result (sqly.Migrate.validate m found))
          (λ u. adopt S sha256 m found m.legacy >>= after_adopt) t tt h in
      let (valid, still) = from_result-finished (sqly.Migrate.validate m found) t u checked in
      let whole =
        ap (adopt S sha256 m found m.legacy >>= after_adopt) still ∙ adopt-none found t alone in
      (
        valid,
        ap (λ (v : Transaction F). trace v.world.log) left
            ∙ ap (λ (x : Ran (Unit {0}) × Transaction F). trace x.1.world.log) whole
            ∙ after_adopt-trace found t same
                (ap (λ (x : Ran (Unit {0}) × Transaction F). x.0) (sym whole) ∙ rest),
      )

  abbrev pub after_advise : Job F (Unit {0})
  after_advise = from_io (batch S (from_text create_text)) >> (reading >>= after_found)

  -- Behind the advisory locks, the table of the ledger is made and read.
  pub after_advise-trace :
      (t : Transaction F)
      → m.legacy ≡ none
      → t.backend ≡ b
      → (after_advise t).0 ≡ finished tt
      → (read : Transaction F) × (found : List LedgerRow) × ((fetch_all
            (in_transaction S (select_query S sha256 m))
            ledger_row
            read).0
          ≡ returned found)
        × (trace read.world.log ≡ Event.control create_text ∷ trace t.world.log)
        × (sqly.Migrate.validate m found ≡ done tt)
        × (trace (after_advise t).1.world.log
            ≡ migrated S sha256 m b
                (pending m (length found))
                (selected ∷ Event.control create_text ∷ trace t.world.log))
  after_advise-trace t alone same h =
      let creating = from_io (batch S (from_text create_text)) in
      let (u, made, h1, left) = >>=-finished creating (λ u. reading >>= after_found) t tt h in
      let (sent, kept) =
        (batch-Leaves S sha256 m b (from_text create_text)).leaves t tt same made in
      let (found, read, h2, left2) = >>=-finished reading after_found (creating t).1 tt h1 in
      let (seen, kept2) = reading-trace (creating t).1 found kept read in
      let (valid, rest) = after_found-trace found (reading (creating t).1).1 alone kept2 h2 in
      let before =
        sent
        ∙ ap (λ sql. controlled sql (trace t.world.log)) (text_for-same S sha256 m b create_text) in
      (
        (creating t).1,
        found,
        ran_of-finished _ found read,
        before,
        valid,
        ap (λ (v : Transaction F). trace v.world.log) (left ∙ left2)
            ∙ rest
            ∙ ap (λ events. migrated S sha256 m b (pending m (length found)) events)
                (seen ∙ ap (λ events. selected ∷ events) before),
      )

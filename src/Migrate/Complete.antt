-- ===== src/Migrate/Complete.antt =====
-- src/migrate.rs, `run`: the statements of a run that finishes, from BEGIN to COMMIT.
use sqly.Shared.{List, ◌∷◌, ◌≡◌, ◌∙◌, ap, refl, sym, none, arith, length}
use sqly.Shared.Bytes.{Text}
use sqly.Foreign.{Foreign}
use sqly.Row.{Backend}
use sqly.Query.{in_transaction, fetch_all}
use sqly.Driver.Trace.{Event, trace}
use sqly.Transaction.{Transaction, begin, commit, begin_text, commit_text}
use sqly.Transaction.Trace.{begin-trace, commit-trace}
use sqly.Sqlx.{Server, World, returned}
use sqly.Migrate.Defs.{done, Migrator, LedgerRow, pending}
use sqly.Migrate.Ledger.{ledger_row}
use sqly.Migrate.Executed.{>>=-finished, ran_of-finished, advise-Leaves, migrated, advised}
use sqly.Migrate.Sequence.{after_advise, after_advise-trace, selected}
use sqly.Migrate.Apply.{
  Ran, finished, halted, dropped, advise, lock_keys, apply, run, select_query, create_text, closing,
}

module _ {F : Foreign} (S : Server F) (sha256 : Text → Text) (m : Migrator) (b : Backend) where
  closing-committed :
      (r : Ran (Unit {0})) (u : Transaction F)
      → (closing S sha256 m (r, u)).0 ≡ finished tt
      → (r ≡ finished tt)
        × ((commit S u).0 ≡ returned tt)
        × ((closing S sha256 m (r, u)).1 ≡ (commit S u).1)
  closing-committed (finished a) u h = (refl, ran_of-finished (commit S u).0 tt h, refl)
  closing-committed (halted e) u h = absurd (ground arith)
  closing-committed dropped u h = absurd (ground arith)

  -- What a run executes before it reads the ledger: BEGIN, the advisory locks, and the table.
  abbrev pub opening : World F → List (Event F)
  opening w =
      Event.control create_text
      ∷ advised S sha256 m b (lock_keys S sha256 m b) (Event.control (begin_text b) ∷ trace w.log)

  -- If a run without a legacy ledger finishes, then what it has read of the ledger is valid, and it
  -- has executed, in this order and nothing else: BEGIN, on PostgreSQL the two advisory locks, the
  -- table of the ledger, the reading, for each pending migration its batch and then its row of the
  -- ledger, in the order of the migrations, and COMMIT.
  pub run-executed :
      (w : World F) (t : Transaction F)
      → m.legacy ≡ none
      → (begin S b w).0 ≡ returned t
      → (run S sha256 m b w).0 ≡ finished tt
      → (read : Transaction F) × (found : List LedgerRow) × ((fetch_all
            (in_transaction S (select_query S sha256 m))
            ledger_row
            read).0
          ≡ returned found)
        × (trace read.world.log ≡ opening w)
        × (sqly.Migrate.validate m found ≡ done tt)
        × (trace (run S sha256 m b w).1.log
            ≡ Event.control commit_text
              ∷ migrated S sha256 m b
                  (pending m (length found))
                  (selected S sha256 m b ∷ opening w))
  unfolding run apply
  run-executed w t alone h f =
      let advising = λ (v : Transaction F). advise S sha256 m (lock_keys S sha256 m v.backend) v in
      let whole : run S sha256 m b w ≡ closing S sha256 m (apply S sha256 m t) = ground arith in
      let (all, committed, left) =
        closing-committed (apply S sha256 m t).0 (apply S sha256 m t).1
          (ap (λ (x : Ran (Unit {0}) × World F). x.0) (sym whole) ∙ f) in
      let (begun, same, unfinished, live) = begin-trace S b w t h in
      let (u, advised_at, rest, left2) =
        >>=-finished advising (λ u. after_advise S sha256 m b) t tt all in
      let (sent, kept) =
        (advise-Leaves S sha256 m b (lock_keys S sha256 m t.backend)).leaves t u same advised_at in
      let (read, found, seen, table, valid, after) =
        after_advise-trace S sha256 m b (advising t).1 alone kept rest in
      let before =
        sent
        ∙ ap (λ c. advised S sha256 m b (lock_keys S sha256 m c) (trace t.world.log)) same
        ∙ ap (advised S sha256 m b (lock_keys S sha256 m b)) begun in
      (
        read,
        found,
        seen,
        table ∙ ap (λ events. Event.control create_text ∷ events) before,
        valid,
        ap (λ (x : Ran (Unit {0}) × World F). trace x.1.log) whole
            ∙ ap (λ (v : World F). trace v.log) left
            ∙ commit-trace S (apply S sha256 m t).1 committed
            ∙ ap (λ (v : Transaction F). Event.control commit_text ∷ trace v.world.log) left2
            ∙ ap (λ events. Event.control commit_text ∷ events)
                (after
                  ∙ ap
                      (λ events.
                        migrated S sha256 m b (pending m (length found))
                          (selected S sha256 m b ∷ Event.control create_text ∷ events))
                      before),
      )

-- ===== src/Migrate/Runs.antt =====
-- src/migrate.rs, `run` and `apply`: a run that finishes has committed a live transaction.
use sqly.Database.{check}
use sqly.Shared.Int.{ltb_ℤ, pos, ℤ}
use sqly.Query.Live.{
  fetch_one-KeepsLive, fetch_all-KeepsLive, run_statement-KeepsLive, batch-KeepsLive,
  execute-KeepsLive, KeepsLive,
}
use sqly.Shared.Bytes.{Text}
use sqly.Foreign.{Foreign}
use sqly.Shared.{
  ◌∙◌, sym, ap, ◌+◌, length, ◌&&◌, ◌++◌, Bool, Bool-cases, Option, none, some, suc, true, get_elem?,
  Option-cases, ◌∷◌, ℕ, [], List, ◌⊎◌, ◌≡◌, arith, false, inl, inr, refl,
}
use sqly.Migrate.Ledger.{ledger_row, eq_row}
use sqly.Migrate.Defs.{validate, pending, applied_version}
use sqly.Migrate.Apply.{
  select_query, is_true, present_query, create_text, record_query, advise_query, adopt_query,
  legacy_text, ran_of, Ran, finished, halted, dropped, Job, ◌>>=◌, give, halt, from_io, from_result,
  executed, advise, adopt_rows, adopted, is_present, adopt, apply_all, apply, run, closing,
  check_minimum, lock_keys,
}
use sqly.Migrate.Defs.{
  Migrator, Migration, LedgerRow, LegacyLedger, MigrationError, MigrationResult, done, failure,
}
use sqly.Transaction.{Transaction, begin, commit, control}
use sqly.Transaction.Ending.{commits, newest, commit-returned}
use sqly.Query.{convert_all, Query, in_transaction, fetch_one}
use sqly.Sqlx.{Io, Mode, Outcome, Server, World, Command, lift, returned, raised, cancelled}
use sqly.Driver.{raw_sql, Output}
use sqly.Row.{Row, Backend}
use sqly.Error.{Result, ok, err}
use sqly.Sql.{from_text}

Ran-cases : {A : Type 0} (r : Ran A) → ((a : A) × (r ≡ finished a)) ⊎ ((a : A) → ¬ (r ≡ finished a))
Ran-cases (finished a) = inl (a, refl)
Ran-cases (halted e) = inr (λ a h. cc)
Ran-cases dropped = inr (λ a h. cc)

ran_of-finished : {A : Type 0} (r : Outcome A) (a : A) → ran_of r ≡ finished a → r ≡ returned a
ran_of-finished (returned b) a h = ground arith
ran_of-finished (raised e) a h = cc
ran_of-finished cancelled a h = cc

module _ {F : Foreign} where
  -- A job that finishes leaves a live transaction live.
  record StaysLive {A : Type 0} (j : Job F A) : Type 0 where
    pub stays :
        (t : Transaction F) (a : A)
        → t.aborted ≡ false
        → (j t).0 ≡ finished a
        → (j t).1.aborted ≡ false

  StaysLive-give : {A : Type 0} (a : A) → StaysLive (give a)
  StaysLive-give a = record { stays = λ t b live h. live }

  StaysLive-halt : (A : Type 0) (e : MigrationError) → StaysLive {A = A} (halt e)
  StaysLive-halt A e = record { stays = λ t b live h. live }

  StaysLive-from_result : {A : Type 0} (r : MigrationResult A) → StaysLive (from_result r)
  StaysLive-from_result (done a) = StaysLive-give a
  StaysLive-from_result {A} (failure e) = StaysLive-halt A e

  bind_stays :
      {A B : Type 0} (k : A → Job F B) (r : Ran A) (t : Transaction F) (b : B)
      → ((a : A) → r ≡ finished a → t.aborted ≡ false)
      → ((a : A) → StaysLive (k a))
      → (((λ (u : Transaction F). (r, t)) >>= k) t).0 ≡ finished b
      → (((λ (u : Transaction F). (r, t)) >>= k) t).1.aborted ≡ false
  bind_stays k (finished a) t b live q h = (q a).stays t b (live a refl) h
  bind_stays k (halted e) t b live q h = cc
  bind_stays k dropped t b live q h = cc

  StaysLive-bind :
      {A B : Type 0} {j : Job F A} {k : A → Job F B}
      → StaysLive j
      → ((a : A) → StaysLive (k a))
      → StaysLive (j >>= k)
  StaysLive-bind {j} {k} p q = record {
    stays = λ t b live h. bind_stays k (j t).0 (j t).1 b (λ a e. p.stays t a live e) q h;
  }

  StaysLive-from_io : {A : Type 0} {m : Io (Transaction F) A} → KeepsLive m → StaysLive (from_io m)
  StaysLive-from_io {m} p = record {
    stays = λ t a live h. p.keeps t a live (ran_of-finished (m t).0 a h);
  }

  StaysLive-lift : {A : Type 0} (r : Result A) → StaysLive (from_io {F = F} (lift r))
  StaysLive-lift (ok a) = StaysLive-give a
  StaysLive-lift {A} (err e) = StaysLive-halt A (MigrationError.database e)

  -- A job that looks at the transaction first.
  StaysLive-read :
      {A : Type 0} (j : Transaction F → Job F A)
      → ((u : Transaction F) → StaysLive (j u))
      → StaysLive (λ t. j t t)
  StaysLive-read j p = record { stays = λ t a live h. (p t).stays t a live h }

module _ {F : Foreign} (S : Server F) (sha256 : Text → Text) (m : Migrator) where
  executed-StaysLive : (q : Query F) → StaysLive (executed S sha256 m q)
  executed-StaysLive q = StaysLive-from_io (execute-KeepsLive S q)

  advise-StaysLive : (keys : List ℤ) → StaysLive (advise S sha256 m keys)
  advise-StaysLive [] = StaysLive-give tt
  advise-StaysLive (key ∷ keys) =
      StaysLive-bind (executed-StaysLive (advise_query S sha256 m key)) λ _. advise-StaysLive keys

  adopt_rows-StaysLive :
      (index : ℕ) (source rows : List LedgerRow)
      → StaysLive (adopt_rows S sha256 m index source rows)
  unfolding adopt_rows
  adopt_rows-StaysLive index [] rows = StaysLive-give rows
  adopt_rows-StaysLive index (row ∷ source) rows = elim (Option-cases (get_elem? rows index)) [
    | inl absent ↦
        rw (absent, adopt_rows)
          (StaysLive-bind (executed-StaysLive (adopt_query S sha256 m row))
            λ _. adopt_rows-StaysLive (suc index) source (rows ++ row ∷ []))
    | inr (c, here) ↦ elim (Bool-cases (eq_row row c)) [
      | inl same ↦ rw (here, adopt_rows, same) (adopt_rows-StaysLive (suc index) source rows)
      | inr other ↦
          rw (here, adopt_rows, other)
            (StaysLive-halt (List LedgerRow) (MigrationError.legacy_conflict row.version))
    ]
  ]

  apply_all-StaysLive : (ns : List Migration) → StaysLive (apply_all S sha256 m ns)
  unfolding apply_all
  apply_all-StaysLive [] = StaysLive-give tt
  apply_all-StaysLive (n ∷ ns) =
      StaysLive-bind
        (StaysLive-bind (StaysLive-from_io (batch-KeepsLive S n.sql))
          λ _. executed-StaysLive (record_query S sha256 m n))
        λ _. apply_all-StaysLive ns

  is_present-StaysLive : (l : LegacyLedger) → StaysLive (is_present S sha256 m l)
  is_present-StaysLive l =
      StaysLive-read
        (λ (u : Transaction F).
          from_io (
            fetch_one (in_transaction S (present_query S sha256 m u.backend l))
              (λ (r : Row F). ok r))
          >>= λ row. from_io (lift (is_true S sha256 m row)))
        λ u.
          StaysLive-bind
            (StaysLive-from_io
              (fetch_one-KeepsLive S (λ (r : Row F). ok r) (present_query S sha256 m u.backend l)))
            λ row. StaysLive-lift (is_true S sha256 m row)

  adopted-StaysLive :
      (l : LegacyLedger) (rows : List LedgerRow) (present : Bool)
      → StaysLive (adopted S sha256 m l rows present)
  adopted-StaysLive l rows false = StaysLive-give rows
  adopted-StaysLive l rows true =
      StaysLive-bind (StaysLive-from_io (run_statement-KeepsLive S (legacy_text l) [] Mode.all))
        λ (output : Output F).
          StaysLive-bind (StaysLive-lift (convert_all ledger_row output.rows)) λ source.
            StaysLive-bind (StaysLive-from_result (validate m source))
              λ _. adopt_rows-StaysLive 0 source rows

  adopt-StaysLive :
      (rows : List LedgerRow) (legacy : Option LegacyLedger)
      → StaysLive (adopt S sha256 m rows legacy)
  unfolding adopt
  adopt-StaysLive rows none = StaysLive-give rows
  adopt-StaysLive rows (some l) = StaysLive-bind (is_present-StaysLive l) (adopted-StaysLive l rows)

  check_minimum-StaysLive : (applied : ℤ) → StaysLive (check_minimum S sha256 m applied)
  check_minimum-StaysLive applied =
      elim (Bool-cases (ltb_ℤ (pos 0) applied && ltb_ℤ applied m.minimum)) [
        | inl e ↦ rw e (StaysLive-halt (Unit {0}) (MigrationError.too_old applied m.minimum))
        | inr e ↦ rw e (StaysLive-give tt)
      ]

  apply-StaysLive : StaysLive (apply S sha256 m)
  unfolding apply
  apply-StaysLive =
      StaysLive-bind
        (StaysLive-read (λ (u : Transaction F). advise S sha256 m (lock_keys S sha256 m u.backend))
          λ u. advise-StaysLive (lock_keys S sha256 m u.backend))
        λ _. StaysLive-bind (StaysLive-from_io (batch-KeepsLive S (from_text create_text))) λ _.
          StaysLive-bind
            (StaysLive-from_io (fetch_all-KeepsLive S ledger_row (select_query S sha256 m)))
            λ found. StaysLive-bind (StaysLive-from_result (validate m found)) λ _.
              StaysLive-bind (adopt-StaysLive found m.legacy) λ rows.
                StaysLive-bind (check_minimum-StaysLive (applied_version rows))
                  λ _. apply_all-StaysLive (pending m (length rows))

-- A new transaction is not poisoned.
begin-live :
    {F : Foreign} (S : Server F) (b : Backend) (w : World F) (t : Transaction F)
    → (begin S b w).0 ≡ returned t
    → t.aborted ≡ false
unfolding begin control raw_sql check
begin-live S b w t h = ground arith

module _ {F : Foreign} (S : Server F) (sha256 : Text → Text) (m : Migrator) (b : Backend)
    (w : World F) (t : Transaction F) where
  -- If a run has begun its transaction `t` and all its steps finish, then the transaction that they
  -- leave is not poisoned, and the run is its commit, with that commit's result.
  pub run-commit :
      (begin S b w).0 ≡ returned t
      → (apply S sha256 m t).0 ≡ finished tt
      → ((apply S sha256 m t).1.aborted ≡ false)
        × (run S sha256 m b w
            ≡ (ran_of (commit S (apply S sha256 m t).1).0, (commit S (apply S sha256 m t).1).1))
  unfolding run
  run-commit h f = ((apply-StaysLive S sha256 m).stays t tt (begin-live S b w t h) f, ground arith)

  closing-finished :
      (r : Ran (Unit {0})) (u : Transaction F)
      → (closing S sha256 m (r, u)).0 ≡ finished tt
      → (r ≡ finished tt)
        × (commits (closing S sha256 m (r, u)).1.log ≡ commits u.world.log + 1)
        × (newest (closing S sha256 m (r, u)).1.log ≡ some Command.release)
  closing-finished (finished a) u f =
      let c = commit-returned S u (ran_of-finished (commit S u).0 tt f) in (refl, c.1, c.2)
  closing-finished (halted e) u f = ground arith
  closing-finished dropped u f = cc

  -- If a run that has begun its transaction `t` finishes, then all its steps finished, COMMIT was
  -- sent once after them, and the connection goes back to the pool.
  pub run-finished :
      (begin S b w).0 ≡ returned t
      → (run S sha256 m b w).0 ≡ finished tt
      → ((apply S sha256 m t).0 ≡ finished tt)
        × (commits (run S sha256 m b w).1.log ≡ commits (apply S sha256 m t).1.world.log + 1)
        × (newest (run S sha256 m b w).1.log ≡ some Command.release)
  unfolding run
  run-finished h f =
      let same : run S sha256 m b w ≡ closing S sha256 m (apply S sha256 m t) = ground arith in
      rw same (
        closing-finished (apply S sha256 m t).0 (apply S sha256 m t).1
          (ap (λ (x : Ran (Unit {0}) × World F). x.0) (sym same) ∙ f))

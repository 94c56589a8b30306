-- ===== src/Migrate/Executed.antt =====
-- src/migrate.rs, `run` and `apply`: what a run that finishes has executed, and in which order.
use sqly.Shared.{fun_ext, ◌⊎◌, subst, inl, inr, List, [], ◌∷◌, ◌≡◌, ◌∙◌, ap, refl, ℕ, none, arith}
use sqly.Shared.Int.{ℤ}
use sqly.Shared.Bytes.{bytes, Text}
use sqly.Foreign.{Foreign}
use sqly.Row.{Backend}
use sqly.Sql.{Sql, text_for, from_text}
use sqly.Value.{Value, into_value, validate, variant}
use sqly.Query.{execute, Query, new_query, bind, in_transaction}
use sqly.Query.Trace.{execute-trace}
use sqly.Driver.Trace.{Event, trace, executed, controlled}
use sqly.Transaction.{Transaction, batch}
use sqly.Transaction.Trace.{batch-trace}
use sqly.Sqlx.{Server, Outcome, returned}
use sqly.Migrate.Defs.{MigrationError, Migration, Migrator}
use sqly.Migrate.Apply.{
  ◌>>◌, insert_text, Job, Ran, finished, halted, dropped, ◌>>=◌, give, from_io, ran_of, advise,
  advise_query, record_query, apply_all, lock_keys, apply, run, select_query, create_text,
}

-- A job that finishes on a connection of the backend has executed what `f` puts on top.
pub record Leaves {F : Foreign} (b : Backend) (f : List (Event F) → List (Event F)) {A : Type 0}
    (j : Job F A) : Type 0 where
  pub leaves :
      (t : Transaction F) (a : A)
      → t.backend ≡ b
      → (j t).0 ≡ finished a
      → (trace (j t).1.world.log ≡ f (trace t.world.log)) × ((j t).1.backend ≡ b)

Ran-split :
    {A : Type 0} (r : Ran A)
    → ((a : A) × (r ≡ finished a)) ⊎ ((e : MigrationError) × (r ≡ halted e)) ⊎ (r ≡ dropped)
Ran-split (finished a) = inl (a, refl)
Ran-split (halted e) = inr (inl (e, refl))
Ran-split dropped = inr (inr refl)

-- A chain that finishes finishes at each of its two steps.
pub >>=-finished :
    {F : Foreign} {A B : Type 0} (j : Job F A) (k : A → Job F B) (t : Transaction F) (c : B)
    → ((j >>= k) t).0 ≡ finished c
    → (a : A) × ((j t).0 ≡ finished a)
      × ((k a (j t).1).0 ≡ finished c)
      × (((j >>= k) t).1 ≡ (k a (j t).1).1)
>>=-finished j k t c h = elim (Ran-split (j t).0) [
  | inl (a, e) ↦ (a, e, ground arith, ground arith)
  | inr (inl (x, e)) ↦ absurd (ground arith)
  | inr (inr e) ↦ absurd (ground arith)
]

pub ran_of-finished : {A : Type 0} (r : Outcome A) (a : A) → ran_of r ≡ finished a → r ≡ returned a
ran_of-finished r a h = ground arith

module _ {F : Foreign} {b : Backend} where
  Leaves-give : {A : Type 0} (a : A) → Leaves {F = F} b (λ events. events) (give a)
  Leaves-give a = record { leaves = λ t c same h. (refl, same) }

  Leaves-bind :
      {A B : Type 0} {f g : List (Event F) → List (Event F)} {j : Job F A} {k : A → Job F B}
      → Leaves b f j
      → ((a : A) → Leaves b g (k a))
      → Leaves b (λ events. g (f events)) (j >>= k)
  Leaves-bind {g} {j} {k} first rest = record {
    leaves = λ t c same h.
        let (a, e, i, left) = >>=-finished j k t c h in
        let (sent, kept) = first.leaves t a same e in
        let (after, still) = (rest a).leaves (j t).1 c kept i in rw left (after ∙ ap g sent, still);
  }

module _ {F : Foreign} (S : Server F) (sha256 : Text → Text) (m : Migrator) (b : Backend) where
  executed-Leaves :
      (q : Query F)
      → q.error ≡ none
      → Leaves b
          (λ events. executed (text_for b q.sql) b q.values ∷ events)
          (sqly.Migrate.Apply.executed S sha256 m q)
  executed-Leaves q e = record {
    leaves = λ t n same h.
        let (sent, kept) =
          execute-trace S q t n e (ran_of-finished (execute (in_transaction S q) t).0 n h) in
        subst
          (λ c.
            (trace (execute (in_transaction S q) t).1.world.log
              ≡ executed (text_for c q.sql) c q.values ∷ trace t.world.log)
            × ((execute (in_transaction S q) t).1.backend ≡ c))
          same (sent, kept);
  }

  pub batch-Leaves :
      (sql : Sql) → Leaves b (λ events. controlled (text_for b sql) events) (from_io (batch S sql))
  batch-Leaves sql = record {
    leaves = λ t u same h.
        let (sent, kept) = batch-trace S sql t (ran_of-finished (batch S sql t).0 tt h) in
        subst
          (λ c.
            (trace (batch S sql t).1.world.log ≡ controlled (text_for c sql) (trace t.world.log))
            × ((batch S sql t).1.backend ≡ c))
          same (sent, kept);
  }

  abbrev recorded_values : Migration → List (Value F)
  recorded_values n =
      Value.text m.namespace
      ∷ Value.i64 n.version
      ∷ Value.text n.description
      ∷ Value.text n.checksum
      ∷ []

  -- One migration: its batch, and then the row of the ledger.
  abbrev pub recorded : Migration → List (Event F) → List (Event F)
  recorded n events =
      executed insert_text b (recorded_values n) ∷ controlled (text_for b n.sql) events

  abbrev pub migrated : List Migration → List (Event F) → List (Event F)
  migrated [] events = events
  migrated (n ∷ rest) events = migrated rest (recorded n events)

  pub text_for-same : (sql : Text) → text_for b (from_text sql) ≡ sql
  text_for-same sql = elim b as (λ c. text_for c (from_text sql) ≡ sql) [
    | Backend.sqlite ↦ refl
    | Backend.postgres ↦ refl
  ]

  record_query-executed :
      (n : Migration) (events : List (Event F))
      → executed (text_for b (record_query S sha256 m n).sql) b (record_query S sha256 m n).values
          ∷ controlled (text_for b n.sql) events
        ≡ recorded n events
  unfolding new_query bind into_value validate variant
  record_query-executed n events =
      ap (λ sql. executed sql b (recorded_values n) ∷ controlled (text_for b n.sql) events)
        (text_for-same insert_text)

  record_query-bound : (n : Migration) → (record_query S sha256 m n).error ≡ none
  unfolding new_query bind into_value validate variant
  record_query-bound n = refl

  abbrev pub record_one : Migration → Job F ℕ
  record_one n =
      from_io (batch S n.sql) >> sqly.Migrate.Apply.executed S sha256 m (record_query S sha256 m n)

  record-Leaves : (n : Migration) → Leaves b (recorded n) (record_one n)
  record-Leaves n =
      subst (λ f. Leaves b f (record_one n)) (fun_ext (record_query-executed n))
        (Leaves-bind (batch-Leaves n.sql)
          λ u. executed-Leaves (record_query S sha256 m n) (record_query-bound n))

  pub apply_all-Leaves : (ns : List Migration) → Leaves b (migrated ns) (apply_all S sha256 m ns)
  unfolding apply_all
  apply_all-Leaves [] = Leaves-give tt
  apply_all-Leaves (n ∷ rest) = Leaves-bind (record-Leaves n) λ a. apply_all-Leaves rest

  -- The advisory locks of PostgreSQL.
  abbrev pub advised : List ℤ → List (Event F) → List (Event F)
  advised [] events = events
  advised (key ∷ keys) events =
      advised keys
        (executed (bytes "SELECT pg_advisory_xact_lock($1)") b (Value.i64 key ∷ []) ∷ events)

  advise-step :
      (key : ℤ)
      → Leaves b
          (λ events.
            executed (bytes "SELECT pg_advisory_xact_lock($1)") b (Value.i64 key ∷ []) ∷ events)
          (sqly.Migrate.Apply.executed S sha256 m (advise_query S sha256 m key))
  unfolding new_query bind into_value validate variant
  advise-step key =
      subst
        (λ sql.
          Leaves b (λ events. executed sql b (Value.i64 key ∷ []) ∷ events)
            (sqly.Migrate.Apply.executed S sha256 m (advise_query S sha256 m key)))
        (text_for-same (bytes "SELECT pg_advisory_xact_lock($1)"))
        (executed-Leaves (advise_query S sha256 m key) refl)

  pub advise-Leaves : (keys : List ℤ) → Leaves b (advised keys) (advise S sha256 m keys)
  advise-Leaves [] = Leaves-give tt
  advise-Leaves (key ∷ keys) = Leaves-bind (advise-step key) λ n. advise-Leaves keys

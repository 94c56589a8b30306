-- ===== src/Transaction/Refinement.antt =====
-- src/transaction.rs: a transaction is a unit of work that is live until an operation breaks it.
use sqly.Value.{Value}
use sqly.Sql.{text_for}
use sqly.Shared.Bytes.{Text}
use sqly.Error.{ok, err, Result, Error}
use sqly.Foreign.{Foreign}
use sqly.Row.{Backend}
use sqly.Lock.{statement}
use sqly.Lock.Builder.{build, is_lock_error, statement-is_lock_error}
use sqly.Shared.{
  Bool-cases, ◌∷◌, [], refl, ap, sym, ◌∙◌, not, ◌≡◌, List, Bool, true, false, inl, inr, arith,
}
use sqly.Sqlx.{Mode, World, Server, Outcome, returned, raised, cancelled}
use sqly.Driver.Refusals.{is_lock_only, sqlite_on-Spares, postgres_on-Spares}
use sqly.Database.{check_lease}
use sqly.Transaction.Defs.{Transaction, control}
use sqly.Transaction.Methods.{is_postgres, run_statement, run, batch, lock, execute_on, commit}
use sqly.Transaction.Poison.{
  Operation, perform, perform_all, is_harmless, is_local_outcome, run_statement-aborted,
  check_lease-raises, lock_from, perform-poisoned, is_lock_error-harmless,
}
use sqly.Transaction.Ending.{commit-returned}

-- The specification: a unit of work is live or broken; what keeps it live is that an operation was
-- done, or was refused before the database could change.
pub data Phase : Type 0 where
  live broken : Phase

abbrev pub after : Phase → Bool → Phase
after Phase.live true = Phase.live
after Phase.live false = Phase.broken
after Phase.broken kept = Phase.broken

abbrev pub after_all : Phase → List Bool → Phase
after_all p [] = p
after_all p (kept ∷ rest) = after_all (after p kept) rest

abbrev is_returned : {A : Type 0} → Outcome A → Bool
is_returned (returned a) = true
is_returned r = false

-- Whether an operation keeps the unit of work: a statement that returns or fails locally, a batch
-- that returns, a lock that returns or fails as a selector or locally.
abbrev pub keeps : {F : Foreign} {A : Type 0} → Operation F → Outcome A → Bool
keeps (Operation.statement_of sql values mode) r = is_local_outcome r
keeps (Operation.batch_of sql) r = is_returned r
keeps (Operation.lock_of table given) r = is_harmless r

abbrev pub phase_of : Bool → Phase
phase_of true = Phase.broken
phase_of false = Phase.live

module _ {F : Foreign} (S : Server F) where
  abbrev pub phase : Transaction F → Phase
  phase t = phase_of t.aborted

  -- The verdicts on a sequence of operations.
  abbrev pub verdicts : List (Operation F) → Transaction F → List Bool
  verdicts [] t = []
  verdicts (op ∷ ops) t = keeps op (perform S op t).0 ∷ verdicts ops (perform S op t).1

  execute_on-is_lock_only :
      (sql : Text) (values : List (Value F)) (mode : Mode) (b : Backend) (w : World F) (e : Error)
      → (execute_on S sql values mode b w).0 ≡ raised e
      → is_lock_only e ≡ false
  execute_on-is_lock_only sql values mode Backend.sqlite w e h =
      (sqlite_on-Spares S sql values mode).spares w e h
  execute_on-is_lock_only sql values mode Backend.postgres w e h =
      (postgres_on-Spares S sql values mode).spares w e h

  -- A statement does not fail with an error of a lock.
  run_statement-is_lock_only :
      (sql : Text) (values : List (Value F)) (mode : Mode) (t : Transaction F) (e : Error)
      → (run_statement S sql values mode t).0 ≡ raised e
      → is_lock_only e ≡ false
  unfolding run_statement
  run_statement-is_lock_only sql values mode t e h =
      let local = execute_on-is_lock_only sql values mode t.backend (check_lease S t.world).1 e in
      elim (check_lease-raises S t.world) [
        | inl held ↦ ground (arith, local)
        | inr (inl lost) ↦ ground arith
        | inr (inr dropped) ↦ ground arith
      ]

  harmless_local :
      {A : Type 0} (r : Outcome A)
      → ((e : Error) → r ≡ raised e → is_lock_only e ≡ false)
      → is_harmless r ≡ is_local_outcome r
  harmless_local (returned a) h = refl
  harmless_local (raised e) h = ground (arith, h e refl)
  harmless_local cancelled h = refl

  lock_from-keeps :
      (r : Result (Text × List (Value F))) (t : Transaction F)
      → ((e : Error) → r ≡ err e → is_lock_error e ≡ true)
      → t.aborted ≡ false
      → phase (lock_from S r t).1 ≡ phase_of (not (is_harmless (lock_from S r t).0))
  unfolding lock_from
  lock_from-keeps (ok selected) t local h = ground (
    arith,
    run_statement-aborted S selected.0 selected.1 Mode.all t h,
    harmless_local (run_statement S selected.0 selected.1 Mode.all t).0
        (run_statement-is_lock_only selected.0 selected.1 Mode.all t),
  )
  lock_from-keeps (err e) t local h = ground (arith, is_lock_error-harmless e (local e refl))

  perform-live :
      (op : Operation F) (t : Transaction F)
      → t.aborted ≡ false
      → phase (perform S op t).1 ≡ phase_of (not (keeps op (perform S op t).0))
  unfolding run batch lock control lock_from
  perform-live (Operation.statement_of sql values mode) t h =
      ground (arith, run_statement-aborted S (text_for t.backend sql) values mode t h)
  perform-live (Operation.batch_of sql) t h = ground (arith, check_lease-raises S t.world)
  perform-live (Operation.lock_of table given) t h = ground (
    arith,
    lock_from-keeps (statement F (build F table given) (is_postgres S t.backend)) t
        (statement-is_lock_error F table given (is_postgres S t.backend)) h,
  )

  perform-refines :
      (op : Operation F) (t : Transaction F)
      → phase (perform S op t).1 ≡ after (phase t) (keeps op (perform S op t).0)
  perform-refines op t = elim (Bool-cases t.aborted) [
    | inl poisoned ↦ rw (perform-poisoned S op t poisoned, poisoned) refl
    | inr fine ↦ ground (arith, perform-live op t fine)
  ]

  perform_all-phase :
      (ops : List (Operation F)) (t : Transaction F)
      → phase (perform_all S ops t) ≡ after_all (phase t) (verdicts ops t)
  perform_all-phase [] t = refl
  perform_all-phase (op ∷ ops) t =
      perform_all-phase ops (perform S op t).1
      ∙ ap (λ p. after_all p (verdicts ops (perform S op t).1)) (perform-refines op t)

  -- Any sequence of statements, batches and locks takes the transaction through the phases of the
  -- specification: it is live behind them exactly if it was live and every one of them kept it
  -- (a statement that returned or failed locally, a batch that returned, a lock that returned or
  -- failed as a selector or locally), and otherwise it is broken; and if commit returns then the
  -- specification is live at the end.
  pub perform_all-refines :
      (ops : List (Operation F)) (t : Transaction F)
      → (phase (perform_all S ops t) ≡ after_all (phase t) (verdicts ops t))
        × ((commit S (perform_all S ops t)).0 ≡ returned tt
            → after_all (phase t) (verdicts ops t) ≡ Phase.live)
  perform_all-refines ops t = (
    perform_all-phase ops t,
    λ done.
        sym (perform_all-phase ops t)
        ∙ ap phase_of (commit-returned S (perform_all S ops t) done).0,
  )

-- ===== src/Scoped/Writes.antt =====
-- src/scoped.rs, `enter`: when application work commits.
use sqly.Shared.{Option, Bool, ℕ, arith, refl, ap, sym, ◌∙◌, ◌≡◌, ◌⊎◌, ◌+◌, none, some, true, false}
use sqly.Foreign.{Foreign}
use sqly.Error.{Error}
use sqly.Sqlx.{World, Server, Command, returned}
use sqly.Transaction.{Transaction, commit, rollback, drop_transaction, control}
use sqly.Driver.{raw_sql}
use sqly.Transaction.Ending.{commits, newest, commit-returned}
use sqly.Scoped.Defs.{Futures, Scope, is_some, holding}
use sqly.Scoped.Schedule.{Reaches, IsLawful, IsSound}
use sqly.Scoped.Invariant.{Reaches-IsSound}
use sqly.Scoped.Enter.{Ending, run_in_scope, conclude, new_scope, conclude_slot}

pub new_scope-IsSound :
    {F : Foreign} {P : Futures F} (id db : ℕ) (t : Transaction F)
    → t.finished ≡ false
    → IsSound (new_scope P id db t)
unfolding new_scope
new_scope-IsSound id db t h = record {
  serialised = refl;
  exclusive = refl;
  poisoned = λ c. absurd (ground arith);
  emptied = λ c. (refl, refl);
  present = λ c. refl;
  unfinished = h;
}

-- What a write fails with, where its work has not succeeded or has left a stream.
abbrev pub refusal : {E A : Type 0} → E → Ending E A → Bool → Option (Ending E A)
refusal e (Ending.succeeded a) true = some (Ending.failed e)
refusal e (Ending.succeeded a) false = none
refusal e r active = some r

module _ {F : Foreign} (S : Server F) where
  rollback-commits : (t : Transaction F) → commits (rollback S t).1.log ≡ commits t.world.log
  unfolding rollback control raw_sql
  rollback-commits t = ground arith

  drop_transaction-commits :
      (t : Transaction F) → commits (drop_transaction S t).log ≡ commits t.world.log
  unfolding drop_transaction
  drop_transaction-commits t = ground arith

module _ {F : Foreign} (S : Server F) {E : Type 0} (from : Error → E) {A : Type 0} where
  -- What a write returns for.
  pub conclude-succeeded :
      (r : Ending E A) (active : Bool) (t : Transaction F) (a : A)
      → (conclude S from r active t).0 ≡ Ending.succeeded a
      → (r ≡ Ending.succeeded a)
        × (active ≡ false)
        × ((commit S t).0 ≡ returned tt)
        × ((conclude S from r active t).1 ≡ (commit S t).1)
  unfolding conclude
  conclude-succeeded r active t a h = ground arith

  pub conclude-refusal :
      (r q : Ending E A) (active : Bool) (t : Transaction F)
      → refusal (from Error.active_stream) r active ≡ some q
      → (((conclude S from r active t).0 ≡ q) ⊎ ((conclude S from r active t).0 ≡ Ending.cut))
        × (commits (conclude S from r active t).1.log ≡ commits t.world.log)
  unfolding conclude
  conclude-refusal r q active t h =
      ground (arith, rollback-commits S t, drop_transaction-commits S t)

  conclude_slot-some :
      (w : World F) (r : Ending E A) (active : Bool) (o : Option (Transaction F))
      (u : Transaction F)
      → o ≡ some u
      → conclude_slot S from w r active o ≡ conclude S from r active u
  conclude_slot-some w r active o u h = ground arith

  conclude_slot-succeeded :
      (w : World F) (r : Ending E A) (active : Bool) (o : Option (Transaction F)) (a : A)
      → (conclude_slot S from w r active o).0 ≡ Ending.succeeded a
      → (u : Transaction F) × (o ≡ some u)
  conclude_slot-succeeded w r active none a h = ground arith
  conclude_slot-succeeded w r active (some u) a h = (u, refl)

module _ {F : Foreign} (S : Server F) (P : Futures F) {E : Type 0} (from : Error → E) {A : Type 0}
    (id db : ℕ) (closure : Scope P → Ending E A × Scope P) (t : Transaction F) where
  abbrev pub left : Ending E A × Scope P
  left = closure (new_scope P id db t)

  abbrev pub outcome : Ending E A × World F
  outcome = run_in_scope S P from id db closure t

  pub run_in_scope-some :
      (u : Transaction F)
      → left.1.transaction ≡ some u
      → outcome ≡ conclude S from left.0 (is_some left.1.cursor) u
  unfolding run_in_scope new_scope
  run_in_scope-some u h =
      conclude_slot-some S from t.world left.0 (is_some left.1.cursor) left.1.transaction u h

  run_in_scope-left :
      (a : A) → outcome.0 ≡ Ending.succeeded a → (u : Transaction F) × (left.1.transaction ≡ some u)
  unfolding run_in_scope new_scope
  run_in_scope-left a h =
      conclude_slot-succeeded S from t.world left.0 (is_some left.1.cursor) left.1.transaction a h

  -- If application work fails, then the write fails with that same error, and if it succeeds but
  -- leaves a stream, then the write fails with an active stream, however the rollback ends; unless
  -- the task is dropped in the rollback. COMMIT is not asked for.
  pub run_in_scope-refusal :
      (q : Ending E A) (u : Transaction F)
      → refusal (from Error.active_stream) left.0 (is_some left.1.cursor) ≡ some q
      → left.1.transaction ≡ some u
      → ((outcome.0 ≡ q) ⊎ (outcome.0 ≡ Ending.cut)) × (commits outcome.1.log ≡ commits u.world.log)
  run_in_scope-refusal q u h e =
      rw (run_in_scope-some u e) (conclude-refusal S from left.0 q (is_some left.1.cursor) u h)

  -- If a write on a transaction that is not finished succeeds with a value, and its work was any
  -- sequence of polls and drops, then the work succeeded with that value and left no stream and no
  -- operation that is under way, its transaction was not poisoned, COMMIT was sent once after
  -- it, and the connection goes back to the pool.
  pub run_in_scope-succeeded :
      (a : A)
      → IsLawful P
      → ((s : Scope P) → Reaches P s (closure s).1)
      → t.finished ≡ false
      → outcome.0 ≡ Ending.succeeded a
      → (u : Transaction F) × (left.0 ≡ Ending.succeeded a)
        × (left.1.cursor ≡ none)
        × (holding left.1.operation ≡ false)
        × (left.1.transaction ≡ some u)
        × (u.aborted ≡ false)
        × (commits outcome.1.log ≡ commits u.world.log + 1)
        × (newest outcome.1.log ≡ some Command.release)
  run_in_scope-succeeded a L runs f h =
      let (u, e) = run_in_scope-left a h in
      let i = Reaches-IsSound L (runs (new_scope P id db t)) (new_scope-IsSound id db t f) in
      let same = run_in_scope-some u e in
      let (done, quiet, committed, w) =
        conclude-succeeded S from left.0 (is_some left.1.cursor) u a
          (ap (λ r. r.0) (sym same) ∙ h) in
      let (clean, once, freed) = commit-returned S u committed in
      let world : outcome.1 ≡ (commit S u).1 = ap (λ r. r.1) same ∙ w in
      (u, done, ground arith, ground (arith, i.poisoned), e, clean, rw world once, rw world freed)

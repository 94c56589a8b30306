-- ===== src/Scoped/Explicit.antt =====
-- src/scoped.rs, `enter`: a write whose result comes from its work has opened a transaction for it.
use sqly.Value.{Value}
use sqly.Shared.Bytes.{Text}
use sqly.Shared.{
  ap, subst, ◌∷◌, List, Option-cases, Option, ◌≡◌, none, some, refl, sym, ◌∙◌, ◌⊎◌, Option-cases,
  arith, inl, inr,
}
use sqly.Foreign.{Foreign}
use sqly.Error.{ok, Error}
use sqly.Lock.{statement, Lock}
use sqly.Row.{Backend}
use sqly.Transaction.{begin_text, is_postgres, Transaction, begin, require_lock, rollback}
use sqly.Sqlx.{Server, World, Outcome, returned, raised, cancelled}
use sqly.Sqlx.Sends.{Outcome-cases}
use sqly.Scoped.Transactions.{transaction_futures}
use sqly.Scoped.Enter.{Ending, begun, locked, lock_result, after_rollback}
use sqly.Scoped.Entering.{opened, with_lock}
use sqly.Scoped.Work.{Work}
use sqly.Scoped.Programs.{explicit, concluded}
use sqly.Driver.Trace.{Event, trace, executed}
use sqly.Transaction.Trace.{begin-trace, require_lock-trace}

module _ {F : Foreign} (S : Server F) {E : Type 0} (from : Error → E) {A : Type 0} where
  explicit-opened :
      (b : Backend) (l : Option (Lock F)) (work : Work E (Transaction F) A) (w : World F)
      (t : Transaction F)
      → opened S none b l w ≡ some t
      → explicit S from b l work w ≡ concluded S from (work t)
  unfolding explicit
  explicit-opened b none work w t h = ground arith
  explicit-opened b (some l) work w t h = ground arith

  abbrev Refused : Ending E A → Type 0
  Refused r = ((e : Error) × (r ≡ Ending.failed (from e))) ⊎ (r ≡ Ending.cut)

  rollback-Refused :
      (e : Error) (r : Outcome (Unit {0}) × World F)
      → Refused (after_rollback S from {A = A} (from e) r).0
  rollback-Refused e (returned u, w) = inl (e, refl)
  rollback-Refused e (raised x, w) = inl (e, refl)
  rollback-Refused e (cancelled, w) = inr refl

  lock-Refused :
      (l : Option (Lock F)) (body : Transaction F → Ending E A × World F) (t : Transaction F)
      → with_lock S l t ≡ none
      → Refused (locked S (transaction_futures S) from l body t).0
  lock-Refused none body t h = absurd (ground arith)
  lock-Refused (some l) body t h = elim (Outcome-cases (require_lock S l t).0) [
    | inl (u, e) ↦ absurd (ground arith)
    | inr (inl (x, e)) ↦
        rw (e, locked, lock_result) (rollback-Refused x (rollback S (require_lock S l t).1))
    | inr (inr e) ↦ inr (ground arith)
  ]

  explicit-Refused :
      (b : Backend) (l : Option (Lock F)) (work : Work E (Transaction F) A) (w : World F)
      → opened S none b l w ≡ none
      → Refused (explicit S from b l work w).0
  unfolding explicit
  explicit-Refused b l work w h = elim (Outcome-cases (begin S b w).0) [
    | inl (t, e) ↦
        let same : explicit S from b l work w
            ≡ locked S (transaction_futures S) from l (λ u. concluded S from (work u)) t =
          ground arith in
        rw same (lock-Refused l (λ u. concluded S from (work u)) t (ground arith))
    | inr (inl (x, e)) ↦ inl (x, ground arith)
    | inr (inr e) ↦ inr (ground arith)
  ]

  -- A write that succeeds, or fails with an error that no operation gives, has opened its
  -- transaction.
  pub explicit-result :
      (b : Backend) (l : Option (Lock F)) (work : Work E (Transaction F) A) (w : World F)
      (r : Ending E A)
      → ((e : Error) → ¬ (r ≡ Ending.failed (from e)))
      → ¬ (r ≡ Ending.cut)
      → (explicit S from b l work w).0 ≡ r
      → (t : Transaction F) × (opened S none b l w ≡ some t)
        × (explicit S from b l work w ≡ concluded S from (work t))
  unfolding explicit
  explicit-result b l work w r raises cuts h = elim (Option-cases (opened S none b l w)) [
    | inr (t, e) ↦ (t, e, explicit-opened b l work w t e)
    | inl e ↦ absurd (elim (explicit-Refused b l work w e) [
      | inl (x, f) ↦ raises x (sym h ∙ f)
      | inr f ↦ cuts (sym h ∙ f)
    ])
  ]

module _ {F : Foreign} (S : Server F) where
  -- A transaction that is opened with a lock has executed BEGIN and the statement of the lock.
  pub opened-trace :
      (b : Backend) (l : Lock F) (w : World F) (t : Transaction F)
      → opened S none b (some l) w ≡ some t
      → (selected : Text × List (Value F)) × (statement F l (is_postgres S b) ≡ ok selected)
        × (trace t.world.log
            ≡ executed selected.0 b selected.1 ∷ Event.control (begin_text b) ∷ trace w.log)
  opened-trace b l w t h = elim (Outcome-cases (begin S b w).0) [
    | inr (inl (x, e)) ↦ absurd (ground arith)
    | inr (inr e) ↦ absurd (ground arith)
    | inl (new, e) ↦ elim (Outcome-cases (require_lock S l new).0) [
      | inr (inl (x, f)) ↦ absurd (ground arith)
      | inr (inr f) ↦ absurd (ground arith)
      | inl (u, f) ↦
          let (begun, same, unfinished, live) = begin-trace S b w new e in
          let (selected, stated, sent, kept) = require_lock-trace S l new f in
          let here : t ≡ (require_lock S l new).1 = ground arith in
          (
            selected,
            subst (λ c. statement F l (is_postgres S c) ≡ ok selected) same stated,
            ap (λ (v : Transaction F). trace v.world.log) here
                ∙ sent
                ∙ ap (λ c. executed selected.0 c selected.1 ∷ trace new.world.log) same
                ∙ ap (λ events. executed selected.0 b selected.1 ∷ events) begun,
          )
    ]
  ]

-- ===== src/Scoped/Closing.antt =====
-- src/scoped.rs: what an operation or a stream gets of a scope that is closed, busy, or free.
use sqly.Shared.{
  List, Option, Option-cases, Bool, ℕ, inl, inr, arith, ◌≡◌, ◌⊎◌, none, some, true, false,
}
use sqly.Foreign.{Foreign}
use sqly.Value.{Value}
use sqly.Sql.{Sql}
use sqly.Error.{Error, ok, err}
use sqly.Transaction.{Transaction}
use sqly.Scoped.Defs.{
  Futures, Scope, Active, active, available, is_some, is_current, is_pending, pending, ready,
}
use sqly.Scoped.Operate.{Operate, poll_operate, end_operation, poll_fn, continue_running, enqueue}
use sqly.Scoped.Rows.{Stage, poll, poll_next, finish}
use sqly.Scoped.Schedule.{IsSound}

module _ {F : Foreign} {P : Futures F} (s : Scope P) where
  available-busy :
      (e : Error)
      → ((s.closed ≡ true) × (e ≡ Error.scope_database_mismatch))
        ⊎ ((s.closed ≡ false) × (is_some s.cursor ≡ true) × (e ≡ Error.active_stream))
      → available s ≡ err e
  unfolding available
  available-busy e h = ground arith

  -- A scope that is closed refuses every new operation and every new stream with a mismatch of
  -- scopes, and an open one that has a stream refuses them as it has an active stream; so too, where
  -- the mutex is free, an operation that had to wait for it before. The scope stays as it is.
  pub available-refusal :
      (e : Error) (current : Option Active) (turn : Bool) (call : P.Call)
      → ((s.closed ≡ true) × (e ≡ Error.scope_database_mismatch))
        ⊎ ((s.closed ≡ false) × (is_some s.cursor ≡ true) × (e ≡ Error.active_stream))
      → (poll_operate P current turn (Operate.created call) s
          ≡ (ready (err e), Operate.finished, s))
        × (s.serial ≡ none
            → poll_operate P current true (Operate.waiting call) s
              ≡ (ready (err e), Operate.finished, s))
        × ((id db : ℕ) (read : Bool) (sql : Sql) (values : List (Value F))
            → active db current ≡ ok (some id)
            → poll_next P current
                (record { db = db; read = read; stage = Stage.unstarted sql values })
                s
              ≡ (ready (some (err e)), record { db = db; read = read; stage = Stage.done }, s))
  unfolding poll_operate enqueue poll_next poll finish
  available-refusal e current turn call busy =
      let h = available-busy e busy in
      (ground (arith, h), λ f. ground (arith, h), λ id db read sql values a. ground (arith, h))

  -- On a closed scope a poll of an operation gives nothing but a mismatch of scopes, or goes on
  -- waiting, and a poll of a stream of the scope gives a mismatch; the transaction is left alone.
  pub closed_lem :
      (current : Option Active) (turn read : Bool) (o : Operate P) (db token : ℕ)
      → s.closed ≡ true
      → (((poll_operate P current turn o s).0 ≡ ready (err Error.scope_database_mismatch))
          ⊎ ((poll_operate P current turn o s).0 ≡ pending))
        × ((poll_operate P current turn o s).2.transaction ≡ s.transaction)
        × ((poll_next P current (record { db = db; read = read; stage = Stage.bound token }) s).0
            ≡ ready (some (err Error.scope_database_mismatch)))
        × ((poll_next P current
              (record { db = db; read = read; stage = Stage.bound token })
              s).2.transaction
            ≡ s.transaction)
  unfolding poll_operate enqueue continue_running poll_fn end_operation poll_next poll finish
      available active
  closed_lem current turn read o db token h =
      (ground arith, ground arith, ground arith, ground arith)

  -- On an open scope without a stream, in the task of the scope, an operation that finds the mutex
  -- free reaches the transaction at its first poll; where that poll answers, the scope is free
  -- for the next one.
  pub poll_operate-free :
      (current : Option Active) (call : P.Call)
      → IsSound s
      → s.closed ≡ false
      → s.cursor ≡ none
      → s.serial ≡ none
      → is_current current s.id ≡ true
      → (t : Transaction F) × (s.transaction ≡ some t)
        × ((poll_operate P current true (Operate.created call) s).0 ≡ (P.poll call t).0)
        × ((poll_operate P current true (Operate.created call) s).2.transaction
            ≡ some (P.poll call t).2)
        × (is_pending (P.poll call t).0 ≡ false
            → ((poll_operate P current true (Operate.created call) s).2.serial ≡ none)
              × (available (poll_operate P current true (Operate.created call) s).2 ≡ ok tt))
  unfolding poll_operate enqueue continue_running poll_fn end_operation available
  poll_operate-free current call i o c m h = elim (Option-cases s.transaction) [
    | inl n ↦ absurd (ground (arith, i.present o))
    | inr (t, e) ↦ (t, e, ground arith, ground arith, λ p. (ground arith, ground arith))
  ]

-- ===== src/Scoped/Operations.antt =====
-- src/scoped.rs: polls and drops of operations keep the invariant of a scope.
use sqly.Shared.{
  Option, Bool-cases, inl, inr, arith, refl, Bool, ℕ, not, ◌≡◌, ◌||◌, ◌&&◌, none, some, false,
}
use sqly.Foreign.{Foreign}
use sqly.Transaction.{Transaction}
use sqly.Error.{Result, ok, err}
use sqly.Scoped.Defs.{
  Futures, Scope, Slot, Poll, Active, available, holding, is_some, own, is_current,
}
use sqly.Scoped.Operate.{
  Operate, poll_operate, drop_operate, poll_fn, continue_running, enqueue, advance_call, call_on,
  settle, start, first_check, Answer,
}
use sqly.Scoped.Schedule.{IsLawful, IsSound}
use sqly.Scoped.Soundness.{end_operation-IsSound, called-IsSound, begun-IsSound}

module _ {F : Foreign} {P : Futures F} (L : IsLawful P) where
  pub call_on-IsSound :
      (slot : Slot P.Call) (o : Option (Transaction F)) (s : Scope P)
      → IsSound s
      → s.operation ≡ some slot
      → (not slot.holds && holding s.cursor) ≡ false
      → s.transaction ≡ o
      → IsSound (call_on P slot o s).1
  call_on-IsSound slot none s i h free e = i
  call_on-IsSound slot (some t) s i h free e =
      called-IsSound s slot _ t _ _ i h free e (L.call_aborts slot.work t)
        (L.call_unfinished slot.work t)

  pub advance_call-IsSound :
      (token : ℕ) (o : Option (Slot P.Call)) (s : Scope P)
      → IsSound s
      → own token s.operation ≡ o
      → IsSound (advance_call P o s).1
  advance_call-IsSound token none s i h = i
  advance_call-IsSound token (some slot) s i h =
      elim (Bool-cases (not slot.holds && holding s.cursor)) [
        | inl busy ↦ rw busy i
        | inr free ↦ rw free (call_on-IsSound slot s.transaction s i (ground arith) free refl)
      ]

  pub poll_fn-IsSound :
      (current : Option Active) (token : ℕ) (s : Scope P)
      → IsSound s
      → IsSound (poll_fn P current token s).1
  unfolding poll_fn
  poll_fn-IsSound current token s i =
      elim (Bool-cases (s.closed || not (is_current current s.id))) [
        | inl out ↦ rw (out, poll_fn) i
        | inr inside ↦
            rw (inside, poll_fn) (advance_call-IsSound token (own token s.operation) s i refl)
      ]

  pub settle-IsSound :
      (token : ℕ) (r : Answer P) (s : Scope P) → IsSound s → IsSound (settle P token (r, s)).2
  settle-IsSound token Poll.pending s i = i
  settle-IsSound token (Poll.ready r) s i = end_operation-IsSound token s i

  pub continue_running-IsSound :
      (current : Option Active) (token : ℕ) (s : Scope P)
      → IsSound s
      → IsSound (continue_running P current token s).2
  unfolding continue_running
  continue_running-IsSound current token s i =
      settle-IsSound token (poll_fn P current token s).0 (poll_fn P current token s).1
        (poll_fn-IsSound current token s i)

  pub start-IsSound :
      (current : Option Active) (call : P.Call) (r : Result (Unit {0})) (s : Scope P)
      → IsSound s
      → available s ≡ r
      → IsSound (start P current call r s).2
  unfolding available
  start-IsSound current call (err e) s i h = i
  start-IsSound current call (ok u) s i h =
      continue_running-IsSound current s.next_token _ (begun-IsSound s call i (ground arith))

  pub enqueue-IsSound :
      (current : Option Active) (turn : Bool) (call : P.Call) (s : Scope P)
      → IsSound s
      → IsSound (enqueue P current turn call s).2
  unfolding enqueue
  enqueue-IsSound current turn call s i = elim (Bool-cases (turn && not (is_some s.serial))) [
    | inl free ↦ rw (free, enqueue) (start-IsSound current call (available s) s i refl)
    | inr taken ↦ rw (taken, enqueue) i
  ]

  pub first_check-IsSound :
      (current : Option Active) (turn : Bool) (call : P.Call) (r : Result (Unit {0})) (s : Scope P)
      → IsSound s
      → IsSound (first_check P current turn call r s).2
  first_check-IsSound current turn call (err e) s i = i
  first_check-IsSound current turn call (ok u) s i = enqueue-IsSound current turn call s i

  pub poll_operate-IsSound :
      (current : Option Active) (turn : Bool) (o : Operate P) (s : Scope P)
      → IsSound s
      → IsSound (poll_operate P current turn o s).2
  unfolding poll_operate
  poll_operate-IsSound current turn (Operate.created call) s i =
      first_check-IsSound current turn call (available s) s i
  poll_operate-IsSound current turn (Operate.waiting call) s i =
      enqueue-IsSound current turn call s i
  poll_operate-IsSound current turn (Operate.running token) s i =
      continue_running-IsSound current token s i
  poll_operate-IsSound current turn Operate.finished s i = i

  pub drop_operate-IsSound :
      (o : Operate P) (s : Scope P) → IsSound s → IsSound (drop_operate P o s)
  unfolding drop_operate
  drop_operate-IsSound (Operate.running token) s i = end_operation-IsSound token s i
  drop_operate-IsSound (Operate.created call) s i = i
  drop_operate-IsSound (Operate.waiting call) s i = i
  drop_operate-IsSound Operate.finished s i = i

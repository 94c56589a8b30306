-- ===== src/Scoped/Operate.antt =====
-- src/scoped.rs: `Scope::operate`, a buffered operation in a scope, and the drop of its handle.
use sqly.Shared.{Option, Bool, ℕ, if◌then◌else◌, not, ◌==◌, ◌+◌, ◌||◌, ◌&&◌, none, some, false}
use sqly.Foreign.{Foreign}
use sqly.Error.{Error, Result, ok, err}
use sqly.Transaction.{Transaction}
use sqly.Scoped.Defs.{
  Futures, Scope, Slot, Poll, OperationOutput, Active, available, is_some, own, without, holding,
  is_current, is_pending, pending, ready,
}

module _ {F : Foreign} (P : Futures F) where
  -- A call of `operate` between two polls: before the first one, waiting for the mutex `serial`,
  -- with its operation in the scope under a token, or done.
  pub data Operate : Type 0 where
    created waiting : P.Call → Operate
    running : ℕ → Operate
    finished : Operate

  abbrev pub Answer : Type 0
  Answer = Poll (Result (OperationOutput F))

  abbrev refused : Error → Answer
  refused e = ready (err e)

  abbrev release : ℕ → Option ℕ → Option ℕ
  release token none = none
  release token (some t) = if t == token then none else some t

  -- The drops of `_handle` and `_serial`.
  unfoldable pub end_operation : ℕ → Scope P → Scope P
  end_operation token s = record s {
    operation = without token s.operation;
    serial = release token s.serial;
  }

  abbrev pub with_call : Slot P.Call → Scope P → Answer × P.Call × Transaction F → Answer × Scope P
  with_call slot s (r, call, t) = (
    r,
    record s {
      transaction = some t;
      operation = some (record slot { work = call; holds = is_pending r });
    },
  )

  abbrev pub call_on : Slot P.Call → Option (Transaction F) → Scope P → Answer × Scope P
  call_on slot none s = (refused Error.transaction_aborted, s)
  call_on slot (some t) s = with_call slot s (P.poll slot.work t)

  -- A poll of the future in the slot, which waits for the lock of the transaction first.
  abbrev pub advance_call : Option (Slot P.Call) → Scope P → Answer × Scope P
  advance_call none s = (refused Error.scope_database_mismatch, s)
  advance_call (some slot) s =
      if not slot.holds && holding s.cursor then (pending, s) else call_on slot s.transaction s

  -- The closure of `poll_fn`.
  unfoldable pub poll_fn : Option Active → ℕ → Scope P → Answer × Scope P
  poll_fn current token s =
      if s.closed || not (is_current current s.id)
      then (refused Error.scope_database_mismatch, s)
      else advance_call (own token s.operation) s

  abbrev pub settle : ℕ → Answer × Scope P → Answer × Operate × Scope P
  settle token (Poll.pending, s) = (pending, running token, s)
  settle token (Poll.ready r, s) = (ready r, finished, end_operation token s)

  unfoldable pub continue_running : Option Active → ℕ → Scope P → Answer × Operate × Scope P
  unfolding poll_fn end_operation
  continue_running current token s = settle token (poll_fn current token s)

  -- From the second check on, with the mutex.
  abbrev pub start :
      Option Active → P.Call → Result (Unit {0}) → Scope P → Answer × Operate × Scope P
  start current call (err e) s = (refused e, finished, s)
  start current call (ok u) s = continue_running current s.next_token (record s {
    operation = some (record { token = s.next_token; work = call; holds = false });
    serial = some s.next_token;
    next_token = s.next_token + 1;
  })

  -- A poll that waits for the mutex: it is free, and this call's turn has come, or not.
  unfoldable pub enqueue : Option Active → Bool → P.Call → Scope P → Answer × Operate × Scope P
  unfolding available continue_running
  enqueue current turn call s =
      if turn && not (is_some s.serial)
      then start current call (available s) s
      else (pending, waiting call, s)

  abbrev pub first_check :
      Option Active → Bool → P.Call → Result (Unit {0}) → Scope P → Answer × Operate × Scope P
  first_check current turn call (err e) s = (refused e, finished, s)
  first_check current turn call (ok u) s = enqueue current turn call s

  -- A poll of a call of `operate`, with what the task-local shows, and whether the mutex would be
  -- given to this call if it is free. A call that is done is not polled again.
  unfoldable pub poll_operate :
      Option Active → Bool → Operate → Scope P → Answer × Operate × Scope P
  unfolding available enqueue continue_running
  poll_operate current turn (Operate.created call) s = first_check current turn call (available s) s
  poll_operate current turn (Operate.waiting call) s = enqueue current turn call s
  poll_operate current turn (Operate.running token) s = continue_running current token s
  poll_operate current turn Operate.finished s = (pending, finished, s)

  unfoldable pub drop_operate : Operate → Scope P → Scope P
  unfolding end_operation
  drop_operate (Operate.running token) s = end_operation token s
  drop_operate o s = s

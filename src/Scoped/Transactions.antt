-- ===== src/Scoped/Transactions.antt =====
-- src/scoped.rs and src/transaction.rs: the futures of the transactions that are modelled.
--
-- A future answers at its first poll, or goes on waiting; a stream gives at most its first row.
use sqly.Value.{Value}
use sqly.Sql.{Sql, text_for}
use sqly.Shared.Bytes.{Text}
use sqly.Foreign.{Foreign}
use sqly.Row.{Row}
use sqly.Lock.{Lock, statement}
use sqly.Error.{Result, ok, err}
use sqly.Shared.{
  any, arith, refl, Bool-cases, inl, inr, ◌≡◌, Option, List, [], ◌∷◌, none, some, true, false, not,
}
use sqly.Sqlx.{Mode, Server, Outcome, returned, raised, cancelled}
use sqly.Driver.{Taken, Stop}
use sqly.Transaction.{Transaction, run, run_statement, lock, rows, is_clean, is_postgres}
use sqly.Transaction.Poison.{run_statement-aborted, run_statement-poisoned, lock_from}
use sqly.Transaction.Cursors.{rows-aborted, rows-IsDropped}
use sqly.Scoped.Defs.{Futures, Poll, OperationOutput, pending, ready, is_pending}
use sqly.Scoped.Schedule.{IsLawful}
use sqly.Scoped.Rows.{is_suspended}

pub data Call (F : Foreign) : Type 0 where
  run_call : Sql → List (Value F) → Mode → Call F
  lock_call : Lock F → Call F
  waiting_call : Call F

pub data Cursor (F : Foreign) : Type 0 where
  new_cursor : Sql → List (Value F) → Cursor F
  open_cursor : Cursor F

module _ {F : Foreign} where
  abbrev first_item : List (Row F) → Stop → Poll (Option (Result (Row F)))
  first_item (row ∷ rows) stop = ready (some (ok row))
  first_item [] Stop.ended = ready none
  first_item [] (Stop.broke e) = ready (some (err e))
  first_item [] Stop.dropped = pending

  abbrev item_of :
      Taken F × Transaction F → Poll (Option (Result (Row F))) × Cursor F × Transaction F
  item_of (taken, t) = (first_item taken.rows taken.stop, Cursor.open_cursor, t)

module _ {F : Foreign} (S : Server F) where
  abbrev answer_of :
      {A : Type 0}
      → (A → OperationOutput F)
      → Outcome A × Transaction F
      → Poll (Result (OperationOutput F)) × Call F × Transaction F
  answer_of f (returned a, t) = (ready (ok (f a)), Call.waiting_call, t)
  answer_of f (raised e, t) = (ready (err e), Call.waiting_call, t)
  answer_of f (cancelled, t) = (pending, Call.waiting_call, t)

  -- A transaction counts as aborted as long as its future waits.
  abbrev poll_call :
      Call F → Transaction F → Poll (Result (OperationOutput F)) × Call F × Transaction F
  poll_call (Call.run_call sql values mode) t =
      answer_of OperationOutput.query (run S sql values mode t)
  poll_call (Call.lock_call l) t = answer_of OperationOutput.locked (lock S l t)
  poll_call Call.waiting_call t = (pending, Call.waiting_call, record t { aborted = true })

  abbrev poll_cursor :
      Cursor F → Transaction F → Poll (Option (Result (Row F))) × Cursor F × Transaction F
  poll_cursor (Cursor.new_cursor sql values) t = item_of (rows S (λ row. false) sql values 1 t)
  poll_cursor Cursor.open_cursor t = (pending, Cursor.open_cursor, record t { aborted = true })

  -- The futures of `Transaction::run` and `lock`, and the streams of `Transaction::rows`; those of
  -- the pool give nothing.
  abbrev pub transaction_futures : Futures F
  transaction_futures = record {
    Call = Call F;
    Cursor = Cursor F;
    Pooled = Unit {0};
    poll = poll_call;
    rows = λ sql values. Cursor.new_cursor sql values;
    poll_next = poll_cursor;
    pooled_rows = λ sql values. tt;
    poll_pooled = λ u. (pending, u);
  }

  run_statement-cancelled :
      (sql : Text) (values : List (Value F)) (mode : Mode) (t : Transaction F)
      → (run_statement S sql values mode t).0 ≡ cancelled
      → (run_statement S sql values mode t).1.aborted ≡ true
  run_statement-cancelled sql values mode t h = elim (Bool-cases t.aborted) [
    | inl poisoned ↦ ground (arith, run_statement-poisoned S sql values mode t poisoned)
    | inr live ↦ ground (arith, run_statement-aborted S sql values mode t live)
  ]

  run_statement-finished :
      (sql : Text) (values : List (Value F)) (mode : Mode) (t : Transaction F)
      → (run_statement S sql values mode t).1.finished ≡ t.finished
  unfolding run_statement
  run_statement-finished sql values mode t = ground arith

  lock_from-cancelled :
      (r : Result (Text × List (Value F))) (t : Transaction F)
      → (lock_from S r t).0 ≡ cancelled
      → (lock_from S r t).1.aborted ≡ true
  unfolding lock_from
  lock_from-cancelled (ok selected) t h =
      ground (arith, run_statement-cancelled selected.0 selected.1 Mode.all t)
  lock_from-cancelled (err e) t h = ground arith

  lock_from-finished :
      (r : Result (Text × List (Value F))) (t : Transaction F)
      → (lock_from S r t).1.finished ≡ t.finished
  unfolding lock_from
  lock_from-finished (ok selected) t =
      ground (arith, run_statement-finished selected.0 selected.1 Mode.all t)
  lock_from-finished (err e) t = refl

  rows-finished :
      (sql : Sql) (values : List (Value F)) (t : Transaction F)
      → (rows S (λ row. false) sql values 1 t).1.finished ≡ t.finished
  unfolding rows
  rows-finished sql values t = ground arith

  suspended_dropped :
      (given : List (Row F)) (stop : Stop)
      → (any (λ (row : Row F). not false) given ≡ true → stop ≡ Stop.dropped)
      → is_suspended transaction_futures (first_item given stop) ≡ true
      → is_clean stop ≡ false
  suspended_dropped (row ∷ given) stop h s = ground (arith, h refl)
  suspended_dropped [] Stop.ended h s = ground arith
  suspended_dropped [] (Stop.broke e) h s = ground arith
  suspended_dropped [] Stop.dropped h s = refl

  rows-suspended :
      (sql : Sql) (values : List (Value F)) (t : Transaction F)
      → is_suspended transaction_futures (poll_cursor (Cursor.new_cursor sql values) t).0 ≡ true
      → (rows S (λ row. false) sql values 1 t).1.aborted ≡ true
  rows-suspended sql values t h = elim (Bool-cases t.aborted) [
    | inl poisoned ↦
        absurd (ground (arith, (rows-aborted S (λ row. false) sql values 0 t).1 poisoned))
    | inr live ↦
        let dropped =
          suspended_dropped (rows S (λ row. false) sql values 1 t).0.rows
            (rows S (λ row. false) sql values 1 t).0.stop
            (rows-IsDropped S (λ row. false) sql values 1 t) h in
        ground (arith, (rows-aborted S (λ row. false) sql values 0 t).0 live, dropped)
  ]

  call_aborts :
      (c : Call F) (t : Transaction F)
      → is_pending (poll_call c t).0 ≡ true
      → (poll_call c t).2.aborted ≡ true
  unfolding run lock lock_from
  call_aborts (Call.run_call sql values mode) t h =
      ground (arith, run_statement-cancelled (text_for t.backend sql) values mode t)
  call_aborts (Call.lock_call l) t h =
      ground (arith, lock_from-cancelled (statement F l (is_postgres S t.backend)) t)
  call_aborts Call.waiting_call t h = refl

  call_finished : (c : Call F) (t : Transaction F) → (poll_call c t).2.finished ≡ t.finished
  unfolding run lock lock_from
  call_finished (Call.run_call sql values mode) t =
      ground (arith, run_statement-finished (text_for t.backend sql) values mode t)
  call_finished (Call.lock_call l) t =
      ground (arith, lock_from-finished (statement F l (is_postgres S t.backend)) t)
  call_finished Call.waiting_call t = refl

  cursor_aborts :
      (c : Cursor F) (t : Transaction F)
      → is_suspended transaction_futures (poll_cursor c t).0 ≡ true
      → (poll_cursor c t).2.aborted ≡ true
  cursor_aborts (Cursor.new_cursor sql values) t h = rows-suspended sql values t h
  cursor_aborts Cursor.open_cursor t h = refl

  cursor_finished : (c : Cursor F) (t : Transaction F) → (poll_cursor c t).2.finished ≡ t.finished
  cursor_finished (Cursor.new_cursor sql values) t = rows-finished sql values t
  cursor_finished Cursor.open_cursor t = refl

  -- The futures of a modelled transaction satisfy what the theorems on scopes assume of futures.
  pub transaction_futures-IsLawful : IsLawful transaction_futures
  transaction_futures-IsLawful = record {
    call_aborts = call_aborts;
    cursor_aborts = cursor_aborts;
    call_unfinished = call_finished;
    cursor_unfinished = cursor_finished;
  }

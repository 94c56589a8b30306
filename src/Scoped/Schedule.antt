-- ===== src/Scoped/Schedule.antt =====
-- src/scoped.rs: the steps of a scope, and what holds after any of them.
use sqly.Shared.{Option, Bool, ℕ, ◌==◌, ◌≡◌, ◌||◌, ◌&&◌, none, some, true, false}
use sqly.Foreign.{Foreign}
use sqly.Transaction.{Transaction}
use sqly.Scoped.Defs.{Futures, Scope, Slot, Active, holding, is_pending, is_some}
use sqly.Scoped.Operate.{Operate, poll_operate, drop_operate}
use sqly.Scoped.Rows.{ScopedRows, poll_next, drop_rows, is_suspended}

module _ {F : Foreign} (P : Futures F) where
  -- A step of the task: a poll or a drop of any operation or stream, whatever the task-local shows.
  pub data Step : Scope P → Scope P → Type 0 where
    polls :
        (current : Option Active) (turn : Bool) (o : Operate P) (s : Scope P)
        → Step s (poll_operate P current turn o s).2
    drops : (o : Operate P) (s : Scope P) → Step s (drop_operate P o s)
    polls_rows :
        (current : Option Active) (rows : ScopedRows P) (s : Scope P)
        → Step s (poll_next P current rows s).2
    drops_rows : (rows : ScopedRows P) (s : Scope P) → Step s (drop_rows P rows s)

  pub data Reaches : Scope P → Scope P → Type 0 where
    here : (s : Scope P) → Reaches s s
    step : {s t u : Scope P} → Reaches s t → Step t u → Reaches s u

  -- What the futures of a transaction do: between two polls the transaction counts as aborted, and
  -- none of them ends it.
  pub record IsLawful : Type 0 where
    pub call_aborts :
        (c : P.Call) (t : Transaction F)
        → is_pending (P.poll c t).0 ≡ true
        → (P.poll c t).2.aborted ≡ true
    pub cursor_aborts :
        (c : P.Cursor) (t : Transaction F)
        → is_suspended P (P.poll_next c t).0 ≡ true
        → (P.poll_next c t).2.aborted ≡ true
    pub call_unfinished : (c : P.Call) (t : Transaction F) → (P.poll c t).2.finished ≡ t.finished
    pub cursor_unfinished :
        (c : P.Cursor) (t : Transaction F) → (P.poll_next c t).2.finished ≡ t.finished

abbrev pub is_aborted : {F : Foreign} → Option (Transaction F) → Bool
is_aborted none = false
is_aborted (some t) = t.aborted

abbrev pub is_finished : {F : Foreign} → Option (Transaction F) → Bool
is_finished none = false
is_finished (some t) = t.finished

abbrev pub holds_serial : {W : Type 0} → Option (Slot W) → Option ℕ → Bool
holds_serial none serial = true
holds_serial (some slot) none = false
holds_serial (some slot) (some t) = t == slot.token

module _ {F : Foreign} {P : Futures F} where
  -- The invariant of a scope.
  pub record IsSound (s : Scope P) : Type 0 where
    -- The operation in the scope is the one that holds the mutex.
    pub serialised : holds_serial s.operation s.serial ≡ true
    -- At most one future holds the lock of the transaction, and the transaction counts as aborted
    -- as long as one does.
    pub exclusive : (holding s.operation && holding s.cursor) ≡ false
    pub poisoned :
        (holding s.operation || holding s.cursor) ≡ true → is_aborted s.transaction ≡ true
    -- A closed scope is empty, and an open one has an unfinished transaction.
    pub emptied : s.closed ≡ true → (s.cursor ≡ none) × (s.operation ≡ none)
    pub present : s.closed ≡ false → is_some s.transaction ≡ true
    pub unfinished : is_finished s.transaction ≡ false

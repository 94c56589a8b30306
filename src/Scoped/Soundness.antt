-- ===== src/Scoped/Soundness.antt =====
-- src/scoped.rs: the invariant of a scope is kept by every step.
use sqly.Shared.{arith, refl, Bool, ℕ, not, ◌≡◌, ◌+◌, ◌&&◌, some, true, false}
use sqly.Foreign.{Foreign}
use sqly.Transaction.{Transaction}
use sqly.Scoped.Defs.{Futures, Scope, Slot, holding}
use sqly.Scoped.Operate.{end_operation}
use sqly.Scoped.Rows.{Stage, finish}
use sqly.Scoped.Schedule.{IsSound}

module _ {F : Foreign} {P : Futures F} where
  pub end_operation-IsSound :
      (token : ℕ) (s : Scope P) → IsSound s → IsSound (end_operation P token s)
  unfolding end_operation
  end_operation-IsSound token s i = record {
    serialised = ground (arith, i.serialised);
    exclusive = ground (arith, i.exclusive);
    poisoned = λ h. i.poisoned (ground arith);
    emptied = λ h. (ground (arith, i.emptied h), ground (arith, i.emptied h));
    present = i.present;
    unfinished = i.unfinished;
  }

  pub finish-IsSound : (g : Stage P) (s : Scope P) → IsSound s → IsSound (finish P g s)
  unfolding finish
  finish-IsSound (Stage.bound token) s i = record {
    serialised = i.serialised;
    exclusive = ground (arith, i.exclusive);
    poisoned = λ h. i.poisoned (ground arith);
    emptied = λ h. (ground (arith, i.emptied h), ground (arith, i.emptied h));
    present = i.present;
    unfinished = i.unfinished;
  }
  finish-IsSound (Stage.unstarted q v) s i = i
  finish-IsSound (Stage.pooled r) s i = i
  finish-IsSound Stage.done s i = i

  -- A future that may use the transaction is polled.
  pub called-IsSound :
      (s : Scope P) (slot : Slot P.Call) (call : P.Call) (t t' : Transaction F) (b : Bool)
      → IsSound s
      → s.operation ≡ some slot
      → (not slot.holds && holding s.cursor) ≡ false
      → s.transaction ≡ some t
      → (b ≡ true → t'.aborted ≡ true)
      → t'.finished ≡ t.finished
      → IsSound (record s {
        transaction = some t';
        operation = some (record slot { work = call; holds = b });
      })
  called-IsSound s slot call t t' b i o free e aborts same = record {
    serialised = ground (arith, i.serialised);
    exclusive = ground (arith, i.exclusive);
    poisoned = λ h. aborts (ground (arith, i.exclusive));
    emptied = λ h. absurd (ground (arith, i.emptied h));
    present = λ h. refl;
    unfinished = ground (arith, i.unfinished);
  }

  pub fetched-IsSound :
      (s : Scope P) (slot : Slot P.Cursor) (cursor : P.Cursor) (t t' : Transaction F) (b : Bool)
      → IsSound s
      → s.cursor ≡ some slot
      → (not slot.holds && holding s.operation) ≡ false
      → s.transaction ≡ some t
      → (b ≡ true → t'.aborted ≡ true)
      → t'.finished ≡ t.finished
      → IsSound (record s {
        transaction = some t';
        cursor = some (record slot { work = cursor; holds = b });
      })
  fetched-IsSound s slot cursor t t' b i o free e aborts same = record {
    serialised = i.serialised;
    exclusive = ground (arith, i.exclusive);
    poisoned = λ h. aborts (ground (arith, i.exclusive));
    emptied = λ h. absurd (ground (arith, i.emptied h));
    present = λ h. refl;
    unfinished = ground (arith, i.unfinished);
  }

  -- A future is put into its slot.
  pub begun-IsSound :
      (s : Scope P) (call : P.Call)
      → IsSound s
      → s.closed ≡ false
      → IsSound (record s {
        operation = some (record { token = s.next_token; work = call; holds = false });
        serial = some s.next_token;
        next_token = s.next_token + 1;
      })
  begun-IsSound s call i o = record {
    serialised = ground arith;
    exclusive = refl;
    poisoned = λ h. i.poisoned (ground arith);
    emptied = λ h. absurd (ground arith);
    present = i.present;
    unfinished = i.unfinished;
  }

  pub opened-IsSound :
      (s : Scope P) (cursor : P.Cursor)
      → IsSound s
      → s.closed ≡ false
      → IsSound (record s {
        cursor = some (record { token = s.next_token; work = cursor; holds = false });
        next_token = s.next_token + 1;
      })
  opened-IsSound s cursor i o = record {
    serialised = i.serialised;
    exclusive = ground arith;
    poisoned = λ h. i.poisoned (ground arith);
    emptied = λ h. absurd (ground arith);
    present = i.present;
    unfinished = i.unfinished;
  }

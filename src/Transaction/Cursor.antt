-- ===== src/Transaction/Cursor.antt =====
-- src/transaction.rs, `rows`: a stream in a transaction.
use sqly.Value.{Value}
use sqly.Row.{Row}
use sqly.Error.{Error}
use sqly.Foreign.{Foreign}
use sqly.Sql.{Sql}
use sqly.Shared.{if◌then◌else◌, ℕ, List, Bool, true, false, zero, suc}
use sqly.Sqlx.{Server, World}
use sqly.Database.{check_lease}
use sqly.Driver.{Stop, Taken, refuse, nothing, started, backend_rows}
use sqly.Transaction.Defs.{Transaction, on_world}
use sqly.Transaction.Methods.{is_local_error}

-- Whether a stream that ends so leaves the transaction live.
abbrev pub is_clean : Stop → Bool
is_clean Stop.ended = true
is_clean (Stop.broke e) = is_local_error e
is_clean Stop.dropped = false

module _ {F : Foreign} (S : Server F) (wants : Row F → Bool) where
  abbrev pub closing : Taken F × World F → Transaction F → Taken F × Transaction F
  closing (taken, w) t =
      (taken, record t { world = w; aborted = if is_clean taken.stop then false else t.aborted })

  abbrev pub read_all :
      Sql → List (Value F) → ℕ → Unit {0} → Transaction F → Taken F × Transaction F
  read_all sql values n u t = closing (backend_rows S wants t.backend sql values true n t.world) t

  abbrev pub checked : Sql → List (Value F) → ℕ → Transaction F → Taken F × Transaction F
  checked sql values n t = started (read_all sql values n) (on_world (check_lease S) t)

  unfoldable pub rows : Sql → List (Value F) → ℕ → Transaction F → Taken F × Transaction F
  rows sql values zero t = (nothing Stop.dropped, t)
  rows sql values (suc n) t =
      if t.aborted
      then (refuse Error.transaction_aborted, t)
      else checked sql values (suc n) (record t { aborted = true })

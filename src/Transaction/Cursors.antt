-- ===== src/Transaction/Cursors.antt =====
-- src/transaction.rs, `rows`: what a stream leaves of a transaction.
use sqly.Value.{Value}
use sqly.Row.{Row}
use sqly.Error.{Error}
use sqly.Foreign.{Foreign}
use sqly.Sql.{Sql}
use sqly.Shared.{
  ◌≤◌, not, ◌≡◌, refl, arith, Bool-cases, inl, inr, ℕ, List, Bool, true, false, zero, suc,
}
use sqly.Sqlx.{Server}
use sqly.Database.{check_lease}
use sqly.Driver.{Stop, nothing, refuse}
use sqly.Driver.Streams.{
  IsPrefix, IsDropped, backend_rows-IsPrefix, backend_rows-IsDropped, started-IsPrefix,
  started-IsDropped,
}
use sqly.Transaction.Defs.{Transaction, on_world}
use sqly.Transaction.Cursor.{is_clean, rows}

module _ {F : Foreign} (S : Server F) (wants : Row F → Bool) where
  -- A stream that is polled on a transaction that is not poisoned leaves it poisoned unless its
  -- consumer has read it to its end, or it failed with a local error; a stream on a poisoned
  -- transaction fails as aborted and does nothing, and so does one that is never polled.
  pub rows-aborted :
      (sql : Sql) (values : List (Value F)) (n : ℕ) (t : Transaction F)
      → (t.aborted ≡ false
          → (rows S wants sql values (suc n) t).1.aborted
            ≡ not (is_clean (rows S wants sql values (suc n) t).0.stop))
        × (t.aborted ≡ true
            → rows S wants sql values (suc n) t ≡ (refuse Error.transaction_aborted, t))
        × (rows S wants sql values zero t ≡ (nothing Stop.dropped, t))
  unfolding rows check_lease
  rows-aborted sql values n t = (λ h. ground arith, λ h. ground arith, refl)

  pub rows-IsPrefix :
      (sql : Sql) (values : List (Value F)) (n m : ℕ) (t : Transaction F)
      → n ≤ m
      → IsPrefix n (rows S wants sql values n t) (rows S wants sql values m t)
  unfolding rows
  rows-IsPrefix sql values zero m t h = refl
  rows-IsPrefix sql values (suc n) zero t h = absurd (omega arith)
  rows-IsPrefix sql values (suc n) (suc m) t h = elim (Bool-cases t.aborted) [
    | inl a ↦ ground arith
    | inr a ↦ rw a (
        started-IsPrefix (suc n) _ _ (on_world (check_lease S) (record t { aborted = true }))
          λ u v. backend_rows-IsPrefix S wants v.backend sql values true (suc n) (suc m) v.world h)
  ]

  pub rows-IsDropped :
      (sql : Sql) (values : List (Value F)) (n : ℕ) (t : Transaction F)
      → IsDropped wants (rows S wants sql values n t)
  unfolding rows
  rows-IsDropped sql values zero t = λ h. refl
  rows-IsDropped sql values (suc n) t = elim (Bool-cases t.aborted) [
    | inl a ↦ rw a (λ h. ground arith)
    | inr a ↦ rw a (
        started-IsDropped wants _ (on_world (check_lease S) (record t { aborted = true }))
          λ u v. backend_rows-IsDropped S wants v.backend sql values true (suc n) v.world)
  ]

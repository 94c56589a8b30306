-- ===== src/Scoped/Streams.antt =====
-- src/scoped.rs: polls and drops of streams keep the invariant of a scope.
use sqly.Shared.{
  List, Option, Bool-cases, inl, inr, arith, refl, Bool, ℕ, not, ◌≡◌, ◌||◌, ◌&&◌, none, some, true,
  false,
}
use sqly.Foreign.{Foreign}
use sqly.Value.{Value}
use sqly.Sql.{Sql}
use sqly.Transaction.{Transaction}
use sqly.Error.{Result, ok, err}
use sqly.Scoped.Defs.{Futures, Scope, Slot, Active, available, holding, own, active, is_current}
use sqly.Scoped.Rows.{
  ScopedRows, poll_next, drop_rows, is_suspended, Stage, poll, poll_cursor, advance_cursor,
  cursor_on, poll_in, first_poll, pooled_poll, bound_poll, poll_stage, ended, Item, join,
}
use sqly.Scoped.Schedule.{IsLawful, IsSound}
use sqly.Scoped.Soundness.{finish-IsSound, fetched-IsSound, opened-IsSound}

module _ {F : Foreign} {P : Futures F} (L : IsLawful P) where
  cursor_on-IsSound :
      (slot : Slot P.Cursor) (o : Option (Transaction F)) (s : Scope P)
      → IsSound s
      → s.cursor ≡ some slot
      → (not slot.holds && holding s.operation) ≡ false
      → s.transaction ≡ o
      → IsSound (cursor_on P slot o s).1
  cursor_on-IsSound slot none s i h free e = i
  cursor_on-IsSound slot (some t) s i h free e =
      fetched-IsSound s slot _ t _ _ i h free e (L.cursor_aborts slot.work t)
        (L.cursor_unfinished slot.work t)

  advance_cursor-IsSound :
      (token : ℕ) (o : Option (Slot P.Cursor)) (s : Scope P)
      → IsSound s
      → own token s.cursor ≡ o
      → IsSound (advance_cursor P o s).1
  advance_cursor-IsSound token none s i h = i
  advance_cursor-IsSound token (some slot) s i h =
      elim (Bool-cases (not slot.holds && holding s.operation)) [
        | inl busy ↦ rw busy i
        | inr free ↦ rw free (cursor_on-IsSound slot s.transaction s i (ground arith) free refl)
      ]

  poll_cursor-IsSound : (token : ℕ) (s : Scope P) → IsSound s → IsSound (poll_cursor P token s).1
  unfolding poll_cursor
  poll_cursor-IsSound token s i = advance_cursor-IsSound token (own token s.cursor) s i refl

  bound_poll-IsSound :
      (current : Option Active) (token : ℕ) (s : Scope P)
      → IsSound s
      → IsSound (bound_poll P current token s).2
  bound_poll-IsSound current token s i =
      elim (Bool-cases (s.closed || not (is_current current s.id))) [
        | inl out ↦ rw out i
        | inr inside ↦ rw inside (poll_cursor-IsSound token s i)
      ]

  join-IsSound :
      (cursor : P.Cursor) (r : Result (Unit {0})) (s : Scope P)
      → IsSound s
      → available s ≡ r
      → IsSound (join P cursor r s).2
  unfolding available
  join-IsSound cursor (err e) s i h = i
  join-IsSound cursor (ok u) s i h =
      poll_cursor-IsSound s.next_token _ (opened-IsSound s cursor i (ground arith))

  first_poll-IsSound :
      (shown : Option ℕ) (read : Bool) (sql : Sql) (values : List (Value F)) (s : Scope P)
      → IsSound s
      → IsSound (first_poll P shown read sql values s).2
  first_poll-IsSound (some scope) read sql values s i =
      join-IsSound (P.rows sql values) (available s) s i refl
  first_poll-IsSound none true sql values s i = i
  first_poll-IsSound none false sql values s i = i

  pooled_poll-IsSound :
      (shown : Option ℕ) (rows : P.Pooled) (s : Scope P)
      → IsSound s
      → IsSound (pooled_poll P shown rows s).2
  pooled_poll-IsSound none rows s i = i
  pooled_poll-IsSound (some scope) rows s i = i

  poll_in-IsSound :
      (current : Option Active) (shown : Result (Option ℕ)) (read : Bool) (g : Stage P)
      (s : Scope P)
      → IsSound s
      → IsSound (poll_in P current shown read g s).2
  poll_in-IsSound current (err e) read g s i = i
  poll_in-IsSound current (ok shown) read (Stage.unstarted sql values) s i =
      first_poll-IsSound shown read sql values s i
  poll_in-IsSound current (ok shown) read (Stage.bound token) s i =
      bound_poll-IsSound current token s i
  poll_in-IsSound current (ok shown) read (Stage.pooled rows) s i =
      pooled_poll-IsSound shown rows s i
  poll_in-IsSound current (ok shown) read Stage.done s i = i

  ended-IsSound :
      (rows : ScopedRows P) (r : Item P) (g : Stage P) (s : Scope P)
      → IsSound s
      → IsSound (ended P rows (r, g, s)).2
  ended-IsSound rows r g s i = elim (Bool-cases (is_suspended P r)) [
    | inl on ↦ rw on i
    | inr off ↦ rw off (finish-IsSound g s i)
  ]

  poll-IsSound :
      (current : Option Active) (rows : ScopedRows P) (s : Scope P)
      → IsSound s
      → IsSound (poll P current rows s).2
  unfolding poll
  poll-IsSound current rows s i =
      poll_in-IsSound current (active rows.db current) rows.read rows.stage s i

  poll_stage-IsSound :
      (current : Option Active) (g : Stage P) (rows : ScopedRows P) (s : Scope P)
      → IsSound s
      → IsSound (poll_stage P current g rows s).2
  poll_stage-IsSound current Stage.done rows s i = i
  poll_stage-IsSound current (Stage.unstarted sql values) rows s i =
      ended-IsSound rows _ _ _ (poll-IsSound current rows s i)
  poll_stage-IsSound current (Stage.bound token) rows s i =
      ended-IsSound rows _ _ _ (poll-IsSound current rows s i)
  poll_stage-IsSound current (Stage.pooled r) rows s i =
      ended-IsSound rows _ _ _ (poll-IsSound current rows s i)

  pub poll_next-IsSound :
      (current : Option Active) (rows : ScopedRows P) (s : Scope P)
      → IsSound s
      → IsSound (poll_next P current rows s).2
  unfolding poll_next
  poll_next-IsSound current rows s i = poll_stage-IsSound current rows.stage rows s i

  pub drop_rows-IsSound :
      (rows : ScopedRows P) (s : Scope P) → IsSound s → IsSound (drop_rows P rows s)
  unfolding drop_rows
  drop_rows-IsSound rows s i = finish-IsSound rows.stage s i

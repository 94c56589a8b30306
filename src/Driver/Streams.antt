-- ===== src/Driver/Streams.antt =====
-- src/driver.rs: what a consumer of a stream of rows gets.
use sqly.Value.{Value}
use sqly.Shared.Bytes.{Text}
use sqly.Row.{Row, Backend}
use sqly.Foreign.{Foreign}
use sqly.Sql.{Sql}
use sqly.Shared.{
  ◌≤◌, take, any, not, ◌≡◌, refl, arith, Option, ℕ, List, Bool, [], true, false, zero, suc,
}
use sqly.Sqlx.{World, Server, Outcome, Answer, returned, raised, cancelled, SqlxRow}
use sqly.Driver.Stream.{
  Stop, Taken, read_rows, sqlite_rows, postgres_rows, backend_rows, started, bound_sqlite,
  sqlite_checked, bound_postgres, on_answer,
}

take_nil : (A : Type 0) (n : ℕ) → take {A = A} n [] ≡ []
take_nil A zero = refl
take_nil A (suc n) = refl

module _ {F : Foreign} where
  -- What a shorter demand gives of a longer one's rows.
  abbrev pub IsPrefix : {W : Type 0} → ℕ → Taken F × W → Taken F × W → Type 0
  IsPrefix n short long = short.0.rows ≡ take n long.0.rows

  -- If the consumer does not want a row, the stream is dropped behind it.
  abbrev pub IsDropped : {W : Type 0} → (Row F → Bool) → Taken F × W → Type 0
  IsDropped wants r = any (λ row. not (wants row)) r.0.rows ≡ true → r.0.stop ≡ Stop.dropped

module _ {F : Foreign} (S : Server F) (wants : Row F → Bool) where
  on_answer-IsPrefix :
      (b : Backend) (r : Outcome (Answer (Option (SqlxRow F)))) (w : World F) (n : ℕ)
      (x y : Taken F × World F)
      → IsPrefix n x y
      → IsPrefix (suc n) (on_answer b wants r w x) (on_answer b wants r w y)
  on_answer-IsPrefix b r w n x y h = ground (arith, h, take_nil (Row F) n)

  read_rows-IsPrefix :
      (b : Backend) (sql : Text) (args : List (Value F)) (n m : ℕ) (w : World F)
      → n ≤ m
      → IsPrefix n (read_rows S wants b sql args n w) (read_rows S wants b sql args m w)
  unfolding read_rows
  read_rows-IsPrefix b sql args zero m w h = refl
  read_rows-IsPrefix b sql args (suc n) zero w h = absurd (omega arith)
  read_rows-IsPrefix b sql args (suc n) (suc m) w h =
      on_answer-IsPrefix b _ _ n _ _ (read_rows-IsPrefix b sql args n m _ (omega arith))

  on_answer-IsDropped :
      (b : Backend) (r : Outcome (Answer (Option (SqlxRow F)))) (w : World F)
      (x : Taken F × World F)
      → IsDropped wants x
      → IsDropped wants (on_answer b wants r w x)
  on_answer-IsDropped b r w x h e = ground (arith, h)

  read_rows-IsDropped :
      (b : Backend) (sql : Text) (args : List (Value F)) (n : ℕ) (w : World F)
      → IsDropped wants (read_rows S wants b sql args n w)
  unfolding read_rows
  read_rows-IsDropped b sql args zero w = λ h. refl
  read_rows-IsDropped b sql args (suc n) w =
      on_answer-IsDropped b _ _ (read_rows S wants b sql args n _)
        (read_rows-IsDropped b sql args n _)

module _ {F : Foreign} {W A : Type 0} where
  pub started-IsPrefix :
      (n : ℕ) (k l : A → W → Taken F × W) (r : Outcome A × W)
      → ((a : A) (w : W) → IsPrefix n (k a w) (l a w))
      → IsPrefix n (started k r) (started l r)
  started-IsPrefix n k l (returned a, w) h = h a w
  started-IsPrefix zero k l (raised e, w) h = refl
  started-IsPrefix (suc n) k l (raised e, w) h = refl
  started-IsPrefix zero k l (cancelled, w) h = refl
  started-IsPrefix (suc n) k l (cancelled, w) h = refl

  pub started-IsDropped :
      (wants : Row F → Bool) (k : A → W → Taken F × W) (r : Outcome A × W)
      → ((a : A) (w : W) → IsDropped wants (k a w))
      → IsDropped wants (started k r)
  started-IsDropped wants k (returned a, w) h = h a w
  started-IsDropped wants k (raised e, w) h = λ f. ground arith
  started-IsDropped wants k (cancelled, w) h = λ f. refl

module _ {F : Foreign} (S : Server F) (wants : Row F → Bool) where
  pub sqlite_rows-IsPrefix :
      (sql : Text) (values : List (Value F)) (n m : ℕ) (w : World F)
      → n ≤ m
      → IsPrefix n (sqlite_rows S wants sql values n w) (sqlite_rows S wants sql values m w)
  unfolding sqlite_rows
  sqlite_rows-IsPrefix sql values zero m w h = refl
  sqlite_rows-IsPrefix sql values (suc n) zero w h = absurd (omega arith)
  sqlite_rows-IsPrefix sql values (suc n) (suc m) w h =
      started-IsPrefix (suc n) _ _ (bound_sqlite S wants values w) λ bound v.
        started-IsPrefix (suc n) _ _
          (sqlite_checked S wants sql bound.1 (record v { interrupting = false }))
          λ u x. read_rows-IsPrefix S wants Backend.sqlite sql bound.0 (suc n) (suc m) x h

  pub postgres_rows-IsPrefix :
      (sql : Text) (values : List (Value F)) (in_transaction : Bool) (n m : ℕ) (w : World F)
      → n ≤ m
      → IsPrefix n
          (postgres_rows S wants sql values in_transaction n w)
          (postgres_rows S wants sql values in_transaction m w)
  unfolding postgres_rows
  postgres_rows-IsPrefix sql values in_transaction zero m w h = refl
  postgres_rows-IsPrefix sql values in_transaction (suc n) zero w h = absurd (omega arith)
  postgres_rows-IsPrefix sql values in_transaction (suc n) (suc m) w h =
      started-IsPrefix (suc n) _ _ (bound_postgres S wants sql values in_transaction w)
        λ args v. read_rows-IsPrefix S wants Backend.postgres sql args (suc n) (suc m) v h

  pub backend_rows-IsPrefix :
      (b : Backend) (sql : Sql) (values : List (Value F)) (in_transaction : Bool) (n m : ℕ)
      (w : World F)
      → n ≤ m
      → IsPrefix n
          (backend_rows S wants b sql values in_transaction n w)
          (backend_rows S wants b sql values in_transaction m w)
  backend_rows-IsPrefix Backend.sqlite sql values in_transaction n m w h =
      sqlite_rows-IsPrefix sql.sqlite values n m w h
  backend_rows-IsPrefix Backend.postgres sql values in_transaction n m w h =
      postgres_rows-IsPrefix sql.postgres values in_transaction n m w h

  pub sqlite_rows-IsDropped :
      (sql : Text) (values : List (Value F)) (n : ℕ) (w : World F)
      → IsDropped wants (sqlite_rows S wants sql values n w)
  unfolding sqlite_rows
  sqlite_rows-IsDropped sql values zero w = λ h. refl
  sqlite_rows-IsDropped sql values (suc n) w =
      started-IsDropped wants _ (bound_sqlite S wants values w) λ bound v.
        started-IsDropped wants _
          (sqlite_checked S wants sql bound.1 (record v { interrupting = false }))
          λ u x. read_rows-IsDropped S wants Backend.sqlite sql bound.0 (suc n) x

  pub postgres_rows-IsDropped :
      (sql : Text) (values : List (Value F)) (in_transaction : Bool) (n : ℕ) (w : World F)
      → IsDropped wants (postgres_rows S wants sql values in_transaction n w)
  unfolding postgres_rows
  postgres_rows-IsDropped sql values in_transaction zero w = λ h. refl
  postgres_rows-IsDropped sql values in_transaction (suc n) w =
      started-IsDropped wants _ (bound_postgres S wants sql values in_transaction w)
        λ args v. read_rows-IsDropped S wants Backend.postgres sql args (suc n) v

  pub backend_rows-IsDropped :
      (b : Backend) (sql : Sql) (values : List (Value F)) (in_transaction : Bool) (n : ℕ)
      (w : World F)
      → IsDropped wants (backend_rows S wants b sql values in_transaction n w)
  backend_rows-IsDropped Backend.sqlite sql values in_transaction n w =
      sqlite_rows-IsDropped sql.sqlite values n w
  backend_rows-IsDropped Backend.postgres sql values in_transaction n w =
      postgres_rows-IsDropped sql.postgres values in_transaction n w

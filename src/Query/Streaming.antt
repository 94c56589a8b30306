-- ===== src/Query/Streaming.antt =====
-- src/stream.rs and src/mapped.rs: what a stream of converted rows delivers.
use sqly.Row.{Row}
use sqly.Error.{Error, Result, ok}
use sqly.Foreign.{Foreign}
use sqly.Shared.{
  ◌≤◌, take, not, any, ◌∷◌, ◌≡◌, refl, arith, Bool-cases, inl, inr, Option, ℕ, List, Bool, [], none,
  some, true, false, zero, suc,
}
use sqly.Sqlx.{◌>>=◌, lift, Server, Io, Mode, Outcome, returned, raised, cancelled}
use sqly.Driver.{is_ended, Output, Stop, Taken}
use sqly.Driver.Streams.{IsPrefix, IsDropped}
use sqly.Transaction.{Transaction, is_clean}
use sqly.Transaction.Cursors.{rows-IsPrefix, rows-IsDropped, rows-aborted}
use sqly.Query.Defs.{Query, fetch_optional, fetch_one, fetch_all, convert_all}
use sqly.Query.Stream.{once, Delivered, cursor_in_transaction, row_stream, deliver, is_ok}
use sqly.Query.Mapped.{same_row, mapped_optional, mapped_one, mapped_all}

convert_all-same_row : {F : Foreign} (rows : List (Row F)) → convert_all same_row rows ≡ ok rows
convert_all-same_row [] = refl
convert_all-same_row (row ∷ rows) = ground (arith, convert_all-same_row rows)

module _ {F : Foreign} {S : Type 0} (target : Mode → Io S (Output F)) {T : Type 0}
    (mapper : Row F → Result T) where
  same_rows :
      (r : Outcome (Output F)) (s : S)
      → (((λ (u : S). (r, s)) >>= (λ (o : Output F). lift (convert_all same_row o.rows)))
            >>= λ rows. lift (convert_all mapper rows))
          s
        ≡ ((λ (u : S). (r, s)) >>= λ (o : Output F). lift (convert_all mapper o.rows)) s
  same_rows (returned o) s = ground (arith, convert_all-same_row o.rows)
  same_rows (raised e) s = refl
  same_rows cancelled s = refl

  -- Rows converted by a closure and rows converted by `FromRow` are the same: a mapped query does
  -- and gives what the query does and gives whose rows convert by the closure.
  pub mapped_lem :
      (s : S)
      → (mapped_optional target mapper s ≡ fetch_optional target mapper s)
        × (mapped_one target mapper s ≡ fetch_one target mapper s)
        × (mapped_all target mapper s ≡ fetch_all target mapper s)
  unfolding mapped_optional mapped_one mapped_all fetch_optional fetch_one fetch_all
  mapped_lem s = (ground arith, ground arith, same_rows (target Mode.all s).0 (target Mode.all s).1)

module _ {F : Foreign} {T : Type 0} (mapper : Row F → Result T) where
  abbrev pub converts : Row F → Bool
  converts row = is_ok (mapper row)

  -- The values of a shorter demand are the first ones of a longer one's.
  deliver-take :
      (n : ℕ) (rows : List (Row F)) (stop other : Stop)
      → (deliver mapper (take n rows) stop).values ≡ take n (deliver mapper rows other).values
  deliver-take zero rows stop other = refl
  deliver-take (suc n) [] stop other = refl
  deliver-take (suc n) (row ∷ rows) stop other = ground (arith, deliver-take n rows stop other)

  deliver-stop :
      (rows : List (Row F)) (stop : Stop)
      → any (λ row. not (converts row)) rows ≡ false
      → (deliver mapper rows stop).stop ≡ stop
  deliver-stop [] stop h = refl
  deliver-stop (row ∷ rows) stop h = ground (arith, deliver-stop rows stop)

  deliver-unconverted :
      (rows : List (Row F)) (stop : Stop)
      → any (λ row. not (converts row)) rows ≡ true
      → is_ended (deliver mapper rows stop).stop ≡ false
  deliver-unconverted [] stop h = absurd (ground arith)
  deliver-unconverted (row ∷ rows) stop h = ground (arith, deliver-unconverted rows stop)

  delivered-aborted :
      (r : Taken F) (aborted : Bool)
      → aborted ≡ not (is_clean r.stop)
      → (any (λ row. not (converts row)) r.rows ≡ true → r.stop ≡ Stop.dropped)
      → ((deliver mapper r.rows r.stop).stop ≡ Stop.ended → aborted ≡ false)
        × (is_clean (deliver mapper r.rows r.stop).stop ≡ false → aborted ≡ true)
  delivered-aborted r aborted h lost = elim (Bool-cases (any (λ row. not (converts row)) r.rows)) [
    | inl some_lost ↦ (
      λ e. ground (arith, deliver-unconverted r.rows r.stop some_lost),
      λ e. ground (arith, lost some_lost),
    )
    | inr none_lost ↦
        let same = deliver-stop r.rows r.stop none_lost in (λ e. ground arith, λ e. ground arith)
  ]

module _ {F : Foreign} (S : Server F) (wants : Row F → Bool) (q : Query F) where
  once-IsPrefix :
      (e : Error) (n m : ℕ) (t : Transaction F)
      → n ≤ m
      → IsPrefix n (once S wants e n t) (once S wants e m t)
  once-IsPrefix e zero m t h = refl
  once-IsPrefix e (suc n) zero t h = absurd (omega arith)
  once-IsPrefix e (suc n) (suc m) t h = refl

  cursor-IsPrefix :
      (n m : ℕ) (t : Transaction F)
      → n ≤ m
      → IsPrefix n (cursor_in_transaction S wants q n t) (cursor_in_transaction S wants q m t)
  unfolding cursor_in_transaction
  cursor-IsPrefix n m t h = go q.error refl
    where
      go :
          (o : Option Error)
          → q.error ≡ o
          → IsPrefix n (cursor_in_transaction S wants q n t) (cursor_in_transaction S wants q m t)
      go none e = rw (e, cursor_in_transaction) (rows-IsPrefix S wants q.sql q.values n m t h)
      go (some x) e = rw (e, cursor_in_transaction) (once-IsPrefix x n m t h)

  cursor-live :
      (n : ℕ) (t : Transaction F)
      → t.aborted ≡ false
      → q.error ≡ none
      → ((cursor_in_transaction S wants q (suc n) t).1.aborted
          ≡ not (is_clean (cursor_in_transaction S wants q (suc n) t).0.stop))
        × IsDropped wants (cursor_in_transaction S wants q (suc n) t)
  unfolding cursor_in_transaction
  cursor-live n t live e =
      rw (e, cursor_in_transaction)
        (
          (rows-aborted S wants q.sql q.values n t).0 live,
          rows-IsDropped S wants q.sql q.values (suc n) t,
        )

module _ {F : Foreign} (S : Server F) {T : Type 0} (mapper : Row F → Result T) (q : Query F) where
  abbrev pub streamed : ℕ → Transaction F → Delivered T × Transaction F
  streamed = row_stream mapper λ wants. cursor_in_transaction S wants q

  -- A consumer that polls less gets the first of the values that one gets that polls more, on the
  -- same transaction.
  pub streamed-take :
      (n m : ℕ) (t : Transaction F)
      → n ≤ m
      → (streamed n t).0.values ≡ take n (streamed m t).0.values
  unfolding row_stream
  streamed-take n m t h =
      rw (cursor-IsPrefix S (converts mapper) q n m t h) (deliver-take mapper n _ _ _)

  -- A stream of converted rows that is polled in a transaction that is not poisoned leaves it live
  -- if the consumer has read it to its end, and poisons it if it is dropped before, or fails with
  -- an error that is not local, also one of the conversion.
  pub streamed-aborted :
      (n : ℕ) (t : Transaction F)
      → t.aborted ≡ false
      → q.error ≡ none
      → ((streamed (suc n) t).0.stop ≡ Stop.ended → (streamed (suc n) t).1.aborted ≡ false)
        × (is_clean (streamed (suc n) t).0.stop ≡ false → (streamed (suc n) t).1.aborted ≡ true)
  unfolding row_stream
  streamed-aborted n t live fine =
      let r = cursor-live S (converts mapper) q n t live fine in
      delivered-aborted mapper (cursor_in_transaction S (converts mapper) q (suc n) t).0 _ r.0 r.1

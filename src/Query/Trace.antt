-- ===== src/Query/Trace.antt =====
-- src/query.rs, the terminal methods in a transaction: what they execute.
use sqly.Sql.{text_for}
use sqly.Row.{Row}
use sqly.Foreign.{Foreign}
use sqly.Error.{Error, Result, ok, err, ok_or}
use sqly.Shared.{List, ◌∙◌, ◌≡◌, ◌∷◌, ℕ, none, refl, arith, inl, inr}
use sqly.Sqlx.{Io, Mode, Server, returned, lift, pure, ◌>>=◌}
use sqly.Sqlx.Sends.{Outcome-cases}
use sqly.Driver.{Output}
use sqly.Driver.Trace.{trace, executed}
use sqly.Transaction.{Transaction, run}
use sqly.Transaction.Trace.{run_statement-trace}
use sqly.Query.Defs.{
  convert_all, fetch_all, Query, in_transaction, fetch_one, fetch_optional, execute, convert_first,
}

-- A chain that returns returns at each of its two steps.
pub >>=-returned :
    {S A B : Type 0} (m : Io S A) (f : A → Io S B) (s : S) (b : B)
    → ((m >>= f) s).0 ≡ returned b
    → (a : A) × ((m s).0 ≡ returned a)
      × ((f a (m s).1).0 ≡ returned b)
      × (((m >>= f) s).1 ≡ (f a (m s).1).1)
>>=-returned m f s b h = elim (Outcome-cases (m s).0) [
  | inl (a, e) ↦ (a, e, ground arith, ground arith)
  | inr (inl (x, e)) ↦ absurd (ground arith)
  | inr (inr e) ↦ absurd (ground arith)
]

lift-keeps : {S A : Type 0} (r : Result A) (s : S) → (lift r s).1 ≡ s
lift-keeps (ok a) s = refl
lift-keeps (err e) s = refl

module _ {F : Foreign} (S : Server F) where
  -- What a query that runs in the transaction leaves.
  abbrev pub Executes : Query F → Transaction F → Transaction F → Type 0
  Executes q t t' =
      (trace t'.world.log
        ≡ executed (text_for t.backend q.sql) t.backend q.values ∷ trace t.world.log)
      × (t'.backend ≡ t.backend)

  in_transaction-trace :
      (q : Query F) (mode : Mode) (t : Transaction F) (output : Output F)
      → q.error ≡ none
      → (in_transaction S q mode t).0 ≡ returned output
      → Executes q t (in_transaction S q mode t).1
  unfolding in_transaction run
  in_transaction-trace q mode t output e h =
      let sent = run_statement-trace S (text_for t.backend q.sql) q.values mode t output in
      (ground (arith, sent), ground (arith, sent))

  -- `execute` that returns has executed its statement, once and nothing else.
  pub execute-trace :
      (q : Query F) (t : Transaction F) (n : ℕ)
      → q.error ≡ none
      → (execute (in_transaction S q) t).0 ≡ returned n
      → Executes q t (execute (in_transaction S q) t).1
  unfolding execute
  execute-trace q t n e h =
      let (output, ran, given, same) =
        >>=-returned (in_transaction S q Mode.execute) (λ output. pure output.affected) t n h in
      rw same (in_transaction-trace q Mode.execute t output e ran)

  module _ {T : Type 0} (from_row : Row F → Result T) where
    -- So has `fetch_one`.
    pub fetch_one-trace :
        (q : Query F) (t : Transaction F) (a : T)
        → q.error ≡ none
        → (fetch_one (in_transaction S q) from_row t).0 ≡ returned a
        → Executes q t (fetch_one (in_transaction S q) from_row t).1
    unfolding fetch_one fetch_optional
    fetch_one-trace q t a e h =
        let (found, once, given, same) =
          >>=-returned (fetch_optional (in_transaction S q) from_row)
            (λ found. lift (ok_or Error.row_not_found found)) t a h in
        let (output, ran, converted, first) =
          >>=-returned (in_transaction S q Mode.optional)
            (λ output. lift (convert_first from_row output.rows)) t found once in
        let left : (fetch_one (in_transaction S q) from_row t).1
            ≡ (in_transaction S q Mode.optional t).1 =
          same
          ∙ lift-keeps (ok_or Error.row_not_found found) _
          ∙ first
          ∙ lift-keeps (convert_first from_row output.rows) _ in
        rw left (in_transaction-trace q Mode.optional t output e ran)

    -- And `fetch_all`.
    pub fetch_all-trace :
        (q : Query F) (t : Transaction F) (rows : List T)
        → q.error ≡ none
        → (fetch_all (in_transaction S q) from_row t).0 ≡ returned rows
        → Executes q t (fetch_all (in_transaction S q) from_row t).1
    unfolding fetch_all
    fetch_all-trace q t rows e h =
        let (output, ran, converted, first) =
          >>=-returned (in_transaction S q Mode.all)
            (λ output. lift (convert_all from_row output.rows)) t rows h in
        rw (first ∙ lift-keeps (convert_all from_row output.rows) (in_transaction S q Mode.all t).1)
          (in_transaction-trace q Mode.all t output e ran)

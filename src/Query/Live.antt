-- ===== src/Query/Live.antt =====
-- src/query.rs and src/transaction.rs: an action on a live transaction that returns leaves it live.
use sqly.Value.{Value}
use sqly.Transaction.Poison.{run_statement-aborted}
use sqly.Shared.Bytes.{Text}
use sqly.Foreign.{Foreign}
use sqly.Shared.{List, ◌≡◌, false, refl, arith}
use sqly.Query.Defs.{
  Query, in_transaction, execute, fetch_one, fetch_all, fetch_optional, convert_all, convert_first,
}
use sqly.Transaction.{Transaction, batch, run_statement, run}
use sqly.Sqlx.{Io, Mode, Outcome, Server, lift, pure, returned, raised, cancelled, ◌>>=◌}
use sqly.Driver.{Output}
use sqly.Row.{Row}
use sqly.Error.{Result, Error, ok, err, ok_or}
use sqly.Sql.{Sql, text_for}

module _ {F : Foreign} where
  pub record KeepsLive {A : Type 0} (m : Io (Transaction F) A) : Type 0 where
    pub keeps :
        (t : Transaction F) (a : A)
        → t.aborted ≡ false
        → (m t).0 ≡ returned a
        → (m t).1.aborted ≡ false

  bind_keeps :
      {A B : Type 0} (k : A → Io (Transaction F) B) (r : Outcome A) (t : Transaction F) (b : B)
      → ((a : A) → r ≡ returned a → t.aborted ≡ false)
      → ((a : A) → KeepsLive (k a))
      → (((λ (u : Transaction F). (r, t)) >>= k) t).0 ≡ returned b
      → (((λ (u : Transaction F). (r, t)) >>= k) t).1.aborted ≡ false
  bind_keeps k (returned a) t b live q h = (q a).keeps t b (live a refl) h
  bind_keeps k (raised e) t b live q h = cc
  bind_keeps k cancelled t b live q h = cc

  pub KeepsLive-bind :
      {A B : Type 0} {m : Io (Transaction F) A} {k : A → Io (Transaction F) B}
      → KeepsLive m
      → ((a : A) → KeepsLive (k a))
      → KeepsLive (m >>= k)
  KeepsLive-bind {m} {k} p q = record {
    keeps = λ t b live h. bind_keeps k (m t).0 (m t).1 b (λ a e. p.keeps t a live e) q h;
  }

  pub KeepsLive-pure : {A : Type 0} (a : A) → KeepsLive (pure a)
  KeepsLive-pure a = record { keeps = λ t b live h. live }

  pub KeepsLive-lift : {A : Type 0} (r : Result A) → KeepsLive (lift r)
  KeepsLive-lift (ok a) = record { keeps = λ t b live h. live }
  KeepsLive-lift (err e) = record { keeps = λ t b live h. live }

module _ {F : Foreign} (S : Server F) where
  pub run_statement-KeepsLive :
      (sql : Text) (values : List (Value F)) (mode : Mode)
      → KeepsLive (run_statement S sql values mode)
  run_statement-KeepsLive sql values mode = record {
    keeps = λ t a live h. ground (arith, run_statement-aborted S sql values mode t live);
  }

  pub query-KeepsLive : (q : Query F) (mode : Mode) → KeepsLive (in_transaction S q mode)
  unfolding in_transaction run
  query-KeepsLive q mode = record {
    keeps = λ t a live h.
        ground (arith, run_statement-aborted S (text_for t.backend q.sql) q.values mode t live);
  }

  pub batch-KeepsLive : (sql : Sql) → KeepsLive (batch S sql)
  unfolding batch
  batch-KeepsLive sql = record { keeps = λ t a live h. ground arith }

  pub execute-KeepsLive : (q : Query F) → KeepsLive (execute (in_transaction S q))
  unfolding execute
  execute-KeepsLive q =
      KeepsLive-bind (query-KeepsLive q Mode.execute)
        λ (output : Output F). KeepsLive-pure output.affected

  module _ {T : Type 0} (from_row : Row F → Result T) (q : Query F) where
    pub fetch_all-KeepsLive : KeepsLive (fetch_all (in_transaction S q) from_row)
    unfolding fetch_all
    fetch_all-KeepsLive =
        KeepsLive-bind (query-KeepsLive q Mode.all)
          λ (output : Output F). KeepsLive-lift (convert_all from_row output.rows)

    pub fetch_one-KeepsLive : KeepsLive (fetch_one (in_transaction S q) from_row)
    unfolding fetch_one fetch_optional
    fetch_one-KeepsLive =
        KeepsLive-bind
          (KeepsLive-bind (query-KeepsLive q Mode.optional)
            λ (output : Output F). KeepsLive-lift (convert_first from_row output.rows))
          λ found. KeepsLive-lift (ok_or Error.row_not_found found)

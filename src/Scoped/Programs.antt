-- ===== src/Scoped/Programs.antt =====
-- src/scoped.rs, `write` and `write_locking`: work of buffered operations in an ambient scope, and
-- the same work on a transaction that its caller holds.
use sqly.Shared.{fun_ext, Option, Bool, ℕ, ap, refl, ◌∙◌, ◌≡◌, none, false}
use sqly.Foreign.{Foreign}
use sqly.Error.{Error, Result, ok, err}
use sqly.Lock.{Lock}
use sqly.Row.{Backend}
use sqly.Driver.{Output}
use sqly.Query.{Query, in_transaction}
use sqly.Transaction.{Transaction, begin, require_lock}
use sqly.Sqlx.{Io, Mode, Outcome, Server, World, returned, raised, cancelled}
use sqly.Scoped.Transactions.{transaction_futures}
use sqly.Scoped.Enter.{Ending, enter, run_in_scope, conclude, begun, locked, new_scope, leave}
use sqly.Scoped.Work.{Work, perform, succeed, fail, work_of, ◌>>=◌}
use sqly.Scoped.Buffered.{TransactionScope, inside_scope, lock}
use sqly.Scoped.Mirrors.{Mirrors, quiet, shown, inside_scope-Mirrors, lock-Mirrors}

-- Application work that awaits one operation after the other: what it does next depends on the
-- results so far, errors included, and it ends with a value or an error of its own.
pub data Program (F : Foreign) (E A : Type 0) : Type 0 where
  gives : A → Program F E A
  fails : E → Program F E A
  queries : Query F → Mode → (Result (Output F) → Program F E A) → Program F E A
  locks : Lock F → (Result Bool → Program F E A) → Program F E A

module _ {E A : Type 0} where
  abbrev resumed : {S B : Type 0} → (Result B → Work E S A) → Outcome B × S → Ending E A × S
  resumed k (returned b, s) = k (ok b) s
  resumed k (raised e, s) = k (err e) s
  resumed k (cancelled, s) = (Ending.cut, s)

module _ {F : Foreign} {E A : Type 0} where
  -- The work on a target for queries and one for locks.
  abbrev pub work_on :
      {S : Type 0}
      → (Query F → Mode → Io S (Output F))
      → (Lock F → Io S Bool)
      → Program F E A
      → Work E S A
  work_on target locking (Program.gives a) s = (Ending.succeeded a, s)
  work_on target locking (Program.fails e) s = (Ending.failed e, s)
  work_on target locking (Program.queries q mode k) s =
      resumed (λ r. work_on target locking (k r)) (target q mode s)
  work_on target locking (Program.locks l k) s =
      resumed (λ r. work_on target locking (k r)) (locking l s)

module _ {F : Foreign} (S : Server F) {E : Type 0} (from : Error → E) {A : Type 0} where
  abbrev pub concluded : Ending E A × Transaction F → Ending E A × World F
  concluded (r, t) = conclude S from r false t

  -- The write without a scope: the caller begins the transaction, requires the lock, works on the
  -- transaction, and commits or rolls back.
  unfoldable pub explicit :
      Backend → Option (Lock F) → Work E (Transaction F) A → World F → Ending E A × World F
  unfolding conclude begin require_lock
  explicit b lock work w =
      begun S (transaction_futures S) from
        (locked S (transaction_futures S) from lock (λ t. concluded (work t))) (begin S b w)

module _ {F : Foreign} (S : Server F) (id db : ℕ) {E : Type 0} where
  pub Mirrors-perform :
      {A : Type 0} (from : Error → E) {m : Io (TransactionScope S) A} {n : Io (Transaction F) A}
      → Mirrors S id db m n
      → Mirrors S id db (perform from m) (perform from n)
  Mirrors-perform {A} from c = record {
    after = c.after;
    mirrored = λ k t.
        ap (λ (p : Outcome A × TransactionScope S). (work_of from p.0, p.1)) (c.mirrored k t);
  }

  pub Mirrors-succeed :
      {A : Type 0} (a : A) → Mirrors S id db {R = Ending E A} (succeed a) (succeed a)
  Mirrors-succeed a = record { after = λ k t. k; mirrored = λ k t. refl }

  pub Mirrors-fail : (A : Type 0) (e : E) → Mirrors S id db {R = Ending E A} (fail e) (fail e)
  Mirrors-fail A e = record { after = λ k t. k; mirrored = λ k t. refl }

  Mirrors-rest :
      {A B : Type 0} {f : A → Work E (TransactionScope S) B} {g : A → Work E (Transaction F) B}
      (h : (a : A) → Mirrors S id db (f a) (g a)) (r : Ending E A) (k : ℕ) (t : Transaction F)
      → (j : ℕ) × (((λ u. (r, quiet S id db k t)) >>= f) (quiet S id db k t) ≡ (
        (((λ (u : Transaction F). (r, t)) >>= g) t).0,
        quiet S id db j (((λ (u : Transaction F). (r, t)) >>= g) t).1,
      ))
  Mirrors-rest h (Ending.succeeded a) k t = ((h a).after k t, (h a).mirrored k t)
  Mirrors-rest h (Ending.failed e) k t = (k, refl)
  Mirrors-rest h Ending.cut k t = (k, refl)

  pub Mirrors-then :
      {A B : Type 0} {m : Work E (TransactionScope S) A} {n : Work E (Transaction F) A}
      {f : A → Work E (TransactionScope S) B} {g : A → Work E (Transaction F) B}
      → Mirrors S id db m n
      → ((a : A) → Mirrors S id db (f a) (g a))
      → Mirrors S id db (m >>= f) (n >>= g)
  Mirrors-then {m} {n} {f} {g} c h = record {
    after = λ k t. (Mirrors-rest h (n t).0 (c.after k t) (n t).1).0;
    mirrored = λ k t.
        ap (λ p. ((λ (u : TransactionScope S). p) >>= f) (quiet S id db k t)) (c.mirrored k t)
        ∙ (Mirrors-rest h (n t).0 (c.after k t) (n t).1).1;
  }

  resumed-rest :
      {A B : Type 0} {f : Result B → Work E (TransactionScope S) A}
      {g : Result B → Work E (Transaction F) A} (h : (r : Result B) → Mirrors S id db (f r) (g r))
      (o : Outcome B) (k : ℕ) (t : Transaction F)
      → (j : ℕ) × (resumed f (o, quiet S id db k t)
          ≡ ((resumed g (o, t)).0, quiet S id db j (resumed g (o, t)).1))
  resumed-rest h (returned b) k t = ((h (ok b)).after k t, (h (ok b)).mirrored k t)
  resumed-rest h (raised e) k t = ((h (err e)).after k t, (h (err e)).mirrored k t)
  resumed-rest h cancelled k t = (k, refl)

  resumed-Mirrors :
      {A B : Type 0} {m : Io (TransactionScope S) B} {n : Io (Transaction F) B}
      {f : Result B → Work E (TransactionScope S) A} {g : Result B → Work E (Transaction F) A}
      → Mirrors S id db m n
      → ((r : Result B) → Mirrors S id db (f r) (g r))
      → Mirrors S id db (λ s. resumed f (m s)) (λ t. resumed g (n t))
  resumed-Mirrors {n} {f} {g} c h = record {
    after = λ k t. (resumed-rest h (n t).0 (c.after k t) (n t).1).0;
    mirrored =
        λ k t. ap (resumed f) (c.mirrored k t) ∙ (resumed-rest h (n t).0 (c.after k t) (n t).1).1;
  }

  work_on-Mirrors :
      {A : Type 0} (p : Program F E A)
      → Mirrors S id db
          (work_on (inside_scope S db (shown S id db)) (lock S db (shown S id db)) p)
          (work_on (in_transaction S) (sqly.Transaction.lock S) p)
  work_on-Mirrors (Program.gives a) = record { after = λ k t. k; mirrored = λ k t. refl }
  work_on-Mirrors (Program.fails e) = record { after = λ k t. k; mirrored = λ k t. refl }
  work_on-Mirrors (Program.queries q mode k) =
      resumed-Mirrors (inside_scope-Mirrors S id db q mode) (λ r. work_on-Mirrors (k r))
  work_on-Mirrors (Program.locks l k) =
      resumed-Mirrors (lock-Mirrors S id db l) (λ r. work_on-Mirrors (k r))

module _ {F : Foreign} (S : Server F) (id db : ℕ) {E : Type 0} (from : Error → E) {A : Type 0} where
  run_in_scope-mirrored :
      {m : Work E (TransactionScope S) A} {n : Work E (Transaction F) A}
      → Mirrors S id db m n
      → (t : Transaction F)
      → run_in_scope S (transaction_futures S) from id db m t ≡ concluded S from (n t)
  unfolding run_in_scope new_scope
  run_in_scope-mirrored c t = ap (leave S (transaction_futures S) from t.world) (c.mirrored 0 t)

  pub enter-mirrored :
      (b : Backend) (l : Option (Lock F)) {m : Work E (TransactionScope S) A}
      {n : Work E (Transaction F) A} (w : World F)
      → Mirrors S id db m n
      → enter S (transaction_futures S) from none b l id db m w ≡ explicit S from b l n w
  unfolding enter explicit
  enter-mirrored b l w c =
      ap
        (λ body.
          begun S (transaction_futures S) from (locked S (transaction_futures S) from l body)
            (begin S b w))
        (fun_ext (run_in_scope-mirrored c))

  -- The write of a program in an ambient scope, with or without a lock, does and gives what the same
  -- program does and gives on a transaction that the caller begins, locks, works on and ends.
  pub enter-explicit :
      (b : Backend) (l : Option (Lock F)) (p : Program F E A) (w : World F)
      → enter S
          (transaction_futures S)
          from
          none
          b
          l
          id
          db
          (work_on (inside_scope S db (shown S id db)) (lock S db (shown S id db)) p)
          w
        ≡ explicit S from b l (work_on (in_transaction S) (sqly.Transaction.lock S) p) w
  enter-explicit b l p w = enter-mirrored b l w (work_on-Mirrors S id db p)

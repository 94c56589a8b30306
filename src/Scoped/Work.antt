-- ===== src/Scoped/Work.antt =====
-- src/scoped.rs, `write`: application work, which fails with an error of its own, over a state.
use sqly.Error.{Error}
use sqly.Sqlx.{Io, Outcome, returned, raised, cancelled}
use sqly.Scoped.Enter.{Ending}

abbrev pub Work : Type 0 → Type 0 → Type 0 → Type 0
Work E S A = S → Ending E A × S

module _ {E A : Type 0} where
  abbrev pub work_of : (Error → E) → Outcome A → Ending E A
  work_of from (returned a) = Ending.succeeded a
  work_of from (raised e) = Ending.failed (from e)
  work_of from cancelled = Ending.cut

module _ {E S : Type 0} where
  abbrev pub succeed : {A : Type 0} → A → Work E S A
  succeed a s = (Ending.succeeded a, s)

  abbrev pub fail : {A : Type 0} → E → Work E S A
  fail e s = (Ending.failed e, s)

  -- `.await?` of an operation of the crate, whose error the application converts.
  abbrev pub perform : {A : Type 0} → (Error → E) → Io S A → Work E S A
  perform from m s = let (r, s') = m s in (work_of from r, s')

  infixl 5 ◌>>=◌ ◌>>◌
  abbrev pub ◌>>=◌ : {A B : Type 0} → Work E S A → (A → Work E S B) → Work E S B
  ◌>>=◌ m f s =
      let (r, s') = m s in
      elim r [
        | Ending.succeeded a ↦ f a s'
        | Ending.failed e ↦ (Ending.failed e, s')
        | Ending.cut ↦ (Ending.cut, s')
      ]

  abbrev pub ◌>>◌ : {B : Type 0} → Work E S (Unit {0}) → Work E S B → Work E S B
  m >> k = m >>= λ _. k

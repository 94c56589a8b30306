-- ===== src/Sqlx/Defs.antt =====
-- The interface of SQLx, and the monad of the asynchronous code.
use sqly.Value.{Value, Kind}
use sqly.Shared.Bytes.{Text}
use sqly.Foreign.{Foreign}
use sqly.Error.{Cause, SqlxError, Result, Error, ok, err}
use sqly.Shared.{true, false, ℕ, if◌then◌else◌, List, ◌∷◌, Option, Bool, none, some}

pub data Mode : Type 0 where
  execute optional all : Mode

-- What is asked of SQLx. `release` and `discard` are the two ends of a pooled connection: back to
-- the pool, or closed; `next` is one row of the stream that `fetch` of a statement gives.
pub data Command (F : Foreign) : Type 0 where
  acquire lock_handle lock_keeper ping release discard : Command F
  prepare : Text → List Kind → Command F
  run : Mode → Text → List (Value F) → Command F
  raw : Text → Command F
  next : Text → List (Value F) → Command F

pub data Answer (A : Type 0) : Type 0 where
  answered : A → Answer A
  failed : SqlxError → Answer A

abbrev pub SqlxRow : Foreign → Type 0
SqlxRow F = List (Text × F.Cell)

pub record Server (F : Foreign) : Type 0 where
  -- whether the wait for the keeper's mutex ends
  pub waits : List (Command F) → Bool
  -- `acquire`, `lock_handle`, `ping` and `raw_sql(…).execute`
  pub acts : List (Command F) → Option (Answer (Unit {0}))
  -- `prepare_with`, and the length that `parameters()` of the statement shows
  pub prepares : List (Command F) → Option (Answer (Option ℕ))
  pub executes : List (Command F) → Option (Answer ℕ)
  -- `fetch_optional`, and `try_next` of a stream
  pub fetches_optional : List (Command F) → Option (Answer (Option (SqlxRow F)))
  pub fetches_all : List (Command F) → Option (Answer (List (SqlxRow F)))
  -- `args.add(v)`: the error where the value is refused
  pub refuses : Value F → Option Cause

pub record Keeper : Type 0 where
  pub connected : Bool
  pub lost : Bool

pub record World (F : Foreign) : Type 0 where
  pub log : List (Command F)
  pub interrupting : Bool
  pub keeper : Option Keeper
  pub closed : Bool

pub data Outcome (A : Type 0) : Type 0 where
  returned : A → Outcome A
  raised : Error → Outcome A
  cancelled : Outcome A

abbrev pub Io : Type 0 → Type 0 → Type 0
Io S A = S → Outcome A × S

abbrev settle : {A : Type 0} → Outcome A → Outcome (Result A)
settle (returned a) = returned (ok a)
settle (raised e) = returned (err e)
settle cancelled = cancelled

module _ {S A : Type 0} where
  abbrev pub pure : A → Io S A
  pure a s = (returned a, s)

  abbrev pub raise : Error → Io S A
  raise e s = (raised e, s)

  -- `?` on a plain result.
  abbrev pub lift : Result A → Io S A
  lift (ok a) s = (returned a, s)
  lift (err e) s = (raised e, s)

  -- `.await` without `?`: the result is kept, and only a cancellation ends the caller.
  abbrev pub attempt : Io S A → Io S (Result A)
  attempt m s = let (r, s') = m s in (settle r, s')

infixl 5 ◌>>=◌ ◌>>◌
abbrev pub ◌>>=◌ : {S A B : Type 0} → Io S A → (A → Io S B) → Io S B
◌>>=◌ m f s =
    let (r, s') = m s in
    elim r [ returned a ↦ f a s' | raised e ↦ (raised e, s') | cancelled ↦ (cancelled, s') ]

abbrev pub ◌>>◌ : {S B : Type 0} → Io S (Unit {0}) → Io S B → Io S B
m >> k = m >>= λ _. k

abbrev pub modify : {S : Type 0} → (S → S) → Io S (Unit {0})
modify f s = (returned tt, f s)

abbrev pub when : {S : Type 0} → Bool → Io S (Unit {0}) → Io S (Unit {0})
when b m = if b then m else pure tt

abbrev settled : {A : Type 0} → Option (Answer A) → Outcome (Answer A)
settled none = cancelled
settled (some a) = returned a

abbrev pub expect : {S A : Type 0} → (SqlxError → Error) → Answer A → Io S A
expect f (answered a) = pure a
expect f (failed e) = raise (f e)

abbrev granted : Bool → Outcome (Unit {0})
granted true = returned tt
granted false = cancelled

module _ {F : Foreign} where
  abbrev pub send : Command F → World F → World F
  send c w = record w { log = c ∷ w.log }

  abbrev pub ask :
      {A : Type 0} → Command F → (List (Command F) → Option (Answer A)) → Io (World F) (Answer A)
  ask c reply w = (settled (reply (c ∷ w.log)), send c w)

  -- `….await.map_err(f)?`
  abbrev pub call :
      {A : Type 0}
      → (SqlxError → Error)
      → Command F
      → (List (Command F) → Option (Answer A))
      → Io (World F) A
  call f c reply = ask c reply >>= expect f

  -- `mutex.lock().await`, which cannot fail.
  abbrev pub wait : (List (Command F) → Bool) → Io (World F) (Unit {0})
  wait reply w = (granted (reply (Command.lock_keeper ∷ w.log)), send Command.lock_keeper w)

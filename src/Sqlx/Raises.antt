-- ===== src/Sqlx/Raises.antt =====
-- Which errors an action raises: a rule for each way to build one.
use sqly.Error.{Result, SqlxError, ok, err, Error}
use sqly.Foreign.{Foreign}
use sqly.Shared.{if◌then◌else◌, Option, Bool, true, false, List, ◌≡◌, arith}
use sqly.Sqlx.Defs.{
  ask, expect, call, when, Answer, lift, pure, raise, attempt, Command, Outcome, returned, raised,
  cancelled, answered, failed, Io, ◌>>=◌,
}

-- Whatever state it starts in, the action raises no error of `P`.
pub record Spares {S A : Type 0} (P : Error → Bool) (m : Io S A) : Type 0 where
  pub spares : (s : S) (e : Error) → (m s).0 ≡ raised e → P e ≡ false

module _ {S : Type 0} {P : Error → Bool} where
  Spares-rest :
      {A B : Type 0} (k : A → Io S B) (r : Outcome A) (s : S) (e : Error)
      → ((d : Error) → r ≡ raised d → P d ≡ false)
      → ((a : A) → Spares P (k a))
      → (((λ (u : S). (r, s)) >>= k) s).0 ≡ raised e
      → P e ≡ false
  Spares-rest k (returned a) s e n h i = (h a).spares s e i
  Spares-rest k (raised x) s e n h i = n e (ground arith)
  Spares-rest k cancelled s e n h i = ground arith

  pub Spares-bind :
      {A B : Type 0} {m : Io S A} {k : A → Io S B}
      → Spares P m
      → ((a : A) → Spares P (k a))
      → Spares P (m >>= k)
  Spares-bind {m} {k} c h = record {
    spares = λ s e. Spares-rest k (m s).0 (m s).1 e (λ d i. c.spares s d i) h;
  }

  pub Spares-pure : {A : Type 0} (a : A) → Spares {S = S} P (pure a)
  Spares-pure a = record { spares = λ s e i. ground arith }

  pub Spares-raise : (A : Type 0) (e : Error) → P e ≡ false → Spares {S = S} {A = A} P (raise e)
  Spares-raise A e h = record { spares = λ s d i. ground arith }

  pub Spares-lift :
      {A : Type 0} (r : Result A)
      → ((e : Error) → r ≡ err e → P e ≡ false)
      → Spares {S = S} P (lift r)
  Spares-lift (ok a) h = record { spares = λ s d i. ground arith }
  Spares-lift (err e) h = record { spares = λ s d i. h d (ground arith) }

  pub Spares-expect :
      {A : Type 0} (f : SqlxError → Error) (a : Answer A)
      → ((x : SqlxError) → P (f x) ≡ false)
      → Spares {S = S} P (expect f a)
  Spares-expect f (answered a) h = record { spares = λ s d i. ground arith }
  Spares-expect f (failed x) h = record { spares = λ s d i. ground (arith, h x) }

  pub Spares-attempt : {A : Type 0} (m : Io S A) → Spares P (attempt m)
  Spares-attempt m = record { spares = λ s d i. ground arith }

  attempt_rest :
      {A B : Type 0} (k : Result A → Io S B) (r : Outcome A) (s : S) (e : Error)
      → ((d : Error) → r ≡ raised d → P d ≡ false)
      → ((q : Result A) → ((d : Error) → q ≡ err d → P d ≡ false) → Spares P (k q))
      → ((attempt (λ (u : S). (r, s)) >>= k) s).0 ≡ raised e
      → P e ≡ false
  attempt_rest k (returned a) s e n h i = (h (ok a) (λ d j. ground arith)).spares s e i
  attempt_rest k (raised x) s e n h i = (h (err x) (λ d j. n d (ground arith))).spares s e i
  attempt_rest k cancelled s e n h i = ground arith

  pub Spares-attempt_bind :
      {A B : Type 0} {m : Io S A} {k : Result A → Io S B}
      → Spares P m
      → ((q : Result A) → ((d : Error) → q ≡ err d → P d ≡ false) → Spares P (k q))
      → Spares P (attempt m >>= k)
  Spares-attempt_bind {m} {k} c h = record {
    spares = λ s e. attempt_rest k (m s).0 (m s).1 e (λ d i. c.spares s d i) h;
  }

  pub Spares-if :
      {A : Type 0} (b : Bool) {m n : Io S A}
      → Spares P m
      → Spares P n
      → Spares P (if b then m else n)
  Spares-if true h k = h
  Spares-if false h k = k

  pub Spares-when : (b : Bool) {m : Io S (Unit {0})} → Spares P m → Spares P (when b m)
  Spares-when b h = Spares-if b h (Spares-pure tt)

module _ {F : Foreign} {P : Error → Bool} where
  pub Spares-ask :
      {A : Type 0} (c : Command F) (reply : List (Command F) → Option (Answer A))
      → Spares P (ask c reply)
  Spares-ask c reply = record { spares = λ s d i. ground arith }

  pub Spares-call :
      {A : Type 0} (f : SqlxError → Error) (c : Command F)
      (reply : List (Command F) → Option (Answer A))
      → ((x : SqlxError) → P (f x) ≡ false)
      → Spares P (call f c reply)
  Spares-call f c reply h = Spares-bind (Spares-ask c reply) λ a. Spares-expect f a h

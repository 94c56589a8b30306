-- ===== src/Sqlx/Sends.antt =====
-- What an action sends: a rule for each way to build one.
use sqly.Error.{Result, SqlxError, ok, err, Error}
use sqly.Foreign.{Foreign}
use sqly.Shared.{
  if◌then◌else◌, Option, Bool, All-append, true, false, sym, ap, All, ◌∙◌, ◌∷◌, ◌++◌, List, ◌⊎◌,
  ◌≡◌, [], inl, inr, refl,
}
use mathlib.Core.List.{append_assoc}
use sqly.Sqlx.Defs.{
  wait, ask, expect, call, when, Answer, lift, pure, raise, attempt, World, Command, Outcome,
  returned, raised, cancelled, answered, failed, Io, ◌>>=◌,
}

pub Outcome-cases :
    {A : Type 0} (r : Outcome A)
    → ((a : A) × (r ≡ returned a)) ⊎ ((e : Error) × (r ≡ raised e)) ⊎ (r ≡ cancelled)
Outcome-cases (returned a) = inl (a, refl)
Outcome-cases (raised e) = inr (inl (e, refl))
Outcome-cases cancelled = inr (inr refl)

module _ {F : Foreign} (P : Command F → Type 0) where
  -- From one log to a longer one by commands of `P`.
  abbrev pub Extends : List (Command F) → List (Command F) → Type 0
  Extends l l' = (cs : List (Command F)) × (l' ≡ cs ++ l) × All P cs

  pub Extends-refl : (l : List (Command F)) → Extends l l
  Extends-refl l = ([], refl, tt)

  pub Extends-one : (c : Command F) (l : List (Command F)) → P c → Extends l (c ∷ l)
  Extends-one c l p = (c ∷ [], refl, (p, tt))

  pub Extends-trans : (l l' l'' : List (Command F)) → Extends l l' → Extends l' l'' → Extends l l''
  Extends-trans l l' l'' (cs, e, p) (ds, d, q) =
      (ds ++ cs, d ∙ ap (◌++◌ ds) e ∙ sym (append_assoc ds cs l), All-append P ds cs q p)

  -- Whatever world it starts in, the action sends only commands of `P`.
  pub record Sends {A : Type 0} (m : Io (World F) A) : Type 0 where
    pub sent : (w : World F) → Extends w.log (m w).1.log

module _ {F : Foreign} {P : Command F → Type 0} where
  pub Sends-bind :
      {A B : Type 0} {m : Io (World F) A} {f : A → Io (World F) B}
      → Sends P m
      → ((a : A) → Sends P (f a))
      → Sends P (m >>= f)
  Sends-bind {m} {f} hm hf = record {
    sent = λ w. elim (Outcome-cases (m w).0) [
      | inl (a, e) ↦
          rw (e, ◌>>=◌) (Extends-trans P w.log (m w).1.log _ (hm.sent w) ((hf a).sent (m w).1))
      | inr (inl (x, e)) ↦ rw (e, ◌>>=◌) (hm.sent w)
      | inr (inr e) ↦ rw (e, ◌>>=◌) (hm.sent w)
    ];
  }

  pub Sends-pure : {A : Type 0} (a : A) → Sends P (pure a)
  Sends-pure a = record { sent = λ w. Extends-refl P w.log }

  pub Sends-raise : (A : Type 0) (e : Error) → Sends P {A = A} (raise e)
  Sends-raise A e = record { sent = λ w. Extends-refl P w.log }

  lift_keeps : {A : Type 0} (r : Result A) (w : World F) → Extends P w.log (lift r w).1.log
  lift_keeps (ok a) w = Extends-refl P w.log
  lift_keeps (err e) w = Extends-refl P w.log

  pub Sends-lift : {A : Type 0} (r : Result A) → Sends P (lift r)
  Sends-lift r = record { sent = lift_keeps r }

  expect_keeps :
      {A : Type 0} (f : SqlxError → Error) (a : Answer A) (w : World F)
      → Extends P w.log (expect f a w).1.log
  expect_keeps f (answered a) w = Extends-refl P w.log
  expect_keeps f (failed e) w = Extends-refl P w.log

  pub Sends-expect : {A : Type 0} (f : SqlxError → Error) (a : Answer A) → Sends P (expect f a)
  Sends-expect f a = record { sent = expect_keeps f a }

  pub Sends-attempt : {A : Type 0} {m : Io (World F) A} → Sends P m → Sends P (attempt m)
  Sends-attempt h = record { sent = h.sent }

  pub Sends-if :
      {A : Type 0} (b : Bool) {m n : Io (World F) A}
      → Sends P m
      → Sends P n
      → Sends P (if b then m else n)
  Sends-if true h k = h
  Sends-if false h k = k

  pub Sends-when : (b : Bool) {m : Io (World F) (Unit {0})} → Sends P m → Sends P (when b m)
  Sends-when b h = Sends-if b h (Sends-pure tt)

  pub Sends-ask :
      {A : Type 0} (c : Command F) (reply : List (Command F) → Option (Answer A))
      → P c
      → Sends P (ask c reply)
  Sends-ask c reply p = record { sent = λ w. Extends-one P c w.log p }

  pub Sends-call :
      {A : Type 0} (f : SqlxError → Error) (c : Command F)
      (reply : List (Command F) → Option (Answer A))
      → P c
      → Sends P (call f c reply)
  Sends-call f c reply p = Sends-bind (Sends-ask c reply p) (Sends-expect f)

  pub Sends-wait : (reply : List (Command F) → Bool) → P Command.lock_keeper → Sends P (wait reply)
  Sends-wait reply p = record { sent = λ w. Extends-one P Command.lock_keeper w.log p }

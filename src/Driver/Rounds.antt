-- ===== src/Driver/Rounds.antt =====
-- src/driver.rs, `postgres_prepare`: how often it asks the server to prepare a statement.
use sqly.Value.{Kind}
use sqly.Shared.Bytes.{Text}
use sqly.Error.{Error, driver}
use sqly.Foreign.{Foreign}
use sqly.Shared.{
  ◌≤◌, ◌+◌, ltb, length, take, Option, ℕ, Bool-cases, ◌∷◌, [], List, Bool, inl, inr, arith, zero,
  suc,
}
use sqly.Sqlx.{
  Io, World, Server, Outcome, Answer, returned, raised, cancelled, answered, failed, Command, pure,
  raise, when, ◌>>=◌, ◌>>◌,
}
use sqly.Driver.Prepare.{
  probed, prepared, check_count, parameter_count, postgres_probe, postgres_prepare, rollback_text,
  raw_sql, prepare_with, parameter_resolution_error,
}

module _ {F : Foreign} where
  -- The statements that a log has asked to prepare.
  abbrev pub prepares : List (Command F) → ℕ
  prepares [] = 0
  prepares (Command.prepare sql types ∷ log) = suc (prepares log)
  prepares (c ∷ log) = prepares log

  -- An action that asks to prepare at most `n` statements.
  record Costs {A : Type 0} (n : ℕ) (m : Io (World F) A) : Type 0 where
    pub bound : (w : World F) → prepares (m w).1.log ≤ prepares w.log + n

  Costs-rest :
      {A B : Type 0} (n k : ℕ) (f : A → Io (World F) B) (r : Outcome A) (w v : World F)
      → prepares v.log ≤ prepares w.log + n
      → ((a : A) → Costs k (f a))
      → prepares (((λ (u : World F). (r, v)) >>= f) w).1.log ≤ prepares w.log + (n + k)
  Costs-rest n k f (returned a) w v h c = omega (arith, h, (c a).bound v)
  Costs-rest n k f (raised e) w v h c = omega (arith, h)
  Costs-rest n k f cancelled w v h c = omega (arith, h)

  Costs-bind :
      {A B : Type 0} (n k : ℕ) {m : Io (World F) A} {f : A → Io (World F) B}
      → Costs n m
      → ((a : A) → Costs k (f a))
      → Costs (n + k) (m >>= f)
  Costs-bind n k {m} {f} c h = record {
    bound = λ w. Costs-rest n k f (m w).0 w (m w).1 (c.bound w) h;
  }

  Costs-pure : {A : Type 0} (n : ℕ) (a : A) → Costs {A = A} n (pure a)
  Costs-pure n a = record { bound = λ w. omega arith }

  Costs-raise : {A : Type 0} (n : ℕ) (e : Error) → Costs {A = A} n (raise e)
  Costs-raise n e = record { bound = λ w. omega arith }

module _ {F : Foreign} (S : Server F) (sql : Text) (types : List Kind) (tx : Bool) where
  prepare_with-Costs : (given : List Kind) → Costs 1 (prepare_with S sql given)
  prepare_with-Costs given = record { bound = λ w. omega arith }

  rollback-Costs : (h : ℕ) → Costs h (when tx (raw_sql S driver rollback_text) >> pure (h + 1))
  unfolding raw_sql
  rollback-Costs h = record { bound = λ w. ground arith }

  probed-Costs :
      (h : ℕ) (again : ℕ → Io (World F) ℕ)
      → ((n : ℕ) → Costs h (again n))
      → (probe : Answer (Option ℕ)) → Costs h (probed S sql types tx h again probe)
  probed-Costs h again c (answered p) = elim (Bool-cases (ltb h (parameter_count p))) [
    | inl e ↦ rw (e, probed) (Costs-pure h (parameter_count p))
    | inr e ↦ rw (e, probed) (c (parameter_count p))
  ]
  probed-Costs h again c (failed e) = elim (Bool-cases (parameter_resolution_error e)) [
    | inl b ↦ rw (b, probed) (rollback-Costs h)
    | inr b ↦ rw (b, probed) (Costs-raise h (driver e))
  ]

  postgres_probe-Costs : (h r : ℕ) → Costs h (postgres_probe S sql types tx h r)
  unfolding postgres_probe
  postgres_probe-Costs zero r = Costs-pure 0 r
  postgres_probe-Costs (suc h) r =
      let all =
        Costs-bind 1 h (prepare_with-Costs (take h types))
          (probed-Costs h (postgres_probe S sql types tx h) (postgres_probe-Costs h)) in
      record { bound = λ w. omega (arith, all.bound w) }

  prepared-Costs : (n : ℕ) (a : Answer (Option ℕ)) → Costs 0 (prepared S sql types tx n a)
  prepared-Costs n a = record { bound = λ w. ground arith }

  check_count-Costs : (m n : ℕ) → Costs 0 (check_count S m n)
  check_count-Costs m n = record { bound = λ w. ground arith }

  -- The loop over the hints ends: preparing a statement asks the server to prepare at most once more
  -- than there are bindings, whatever it answers.
  pub postgres_prepare-prepares :
      (w : World F)
      → prepares (postgres_prepare S sql types tx w).1.log ≤ prepares w.log + (length types + 1)
  unfolding postgres_prepare
  postgres_prepare-prepares w =
      let n = length types in
      let all = Costs-bind 1 (0 + (0 + (n + 0))) (prepare_with-Costs types) λ statement.
        Costs-bind 0 (0 + (n + 0)) (prepared-Costs n statement) λ expected.
          Costs-bind 0 (n + 0) (check_count-Costs expected n) λ u.
            Costs-bind n 0 (postgres_probe-Costs n n)
              λ referenced. check_count-Costs referenced n in
      omega (arith, all.bound w)

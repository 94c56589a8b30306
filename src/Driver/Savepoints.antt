-- ===== src/Driver/Savepoints.antt =====
-- src/driver.rs, `postgres_statement`: the savepoint around the preparation in a transaction.
use sqly.Driver.Execute.{is_bind_count, is_reusable}
use sqly.Error.{SqlxError, Error, driver}
use sqly.Sqlx.Sends.{
  Sends-call, Sends-when, Sends-raise, Sends-if, Sends-ask, Sends-bind, Sends-pure, Sends, Extends,
}
use sqly.Value.{Kind}
use sqly.Shared.Bytes.{eq_text, Text}
use sqly.Foreign.{Foreign}
use sqly.Shared.{
  true, false, arith, none, some, take, ◌+◌, ltb, Bool-cases, ◌==◌, length, inl, inr, Option, ◌-◌,
  if◌then◌else◌, ◌∷◌, Bool, ◌++◌, All, ◌≡◌, ℕ, List, [], zero, suc, refl,
}
use sqly.Sqlx.{send, World, Io, Answer, Server, Command, answered, failed}
use sqly.Driver.Prepare.{
  savepoint_text, rollback_text, release_text, raw_sql, postgres_probe, postgres_prepare,
  postgres_statement, prepared, probed, check_count, parameter_count, parameter_resolution_error,
  indeterminate_parameter,
}

abbrev opens : Text → ℕ → ℕ
opens sql n =
    if eq_text sql savepoint_text then suc n else (if eq_text sql release_text then n - 1 else n)

module _ {F : Foreign} where
  -- The savepoints that a log leaves open.
  abbrev pub open_savepoints : List (Command F) → ℕ
  open_savepoints [] = 0
  open_savepoints (Command.raw sql ∷ log) = opens sql (open_savepoints log)
  open_savepoints (c ∷ log) = open_savepoints log

  -- The statements that a log has run, other than control statements.
  abbrev pub runs : List (Command F) → ℕ
  runs [] = 0
  runs (Command.run m sql args ∷ log) = suc (runs log)
  runs (c ∷ log) = runs log

  -- Preparing, and rolling back to a savepoint.
  abbrev pub IsProbe : Command F → Type 0
  IsProbe (Command.prepare sql types) = Unit
  IsProbe (Command.raw sql) = sql ≡ rollback_text
  IsProbe c = ⊥

  probes_keep :
      (cs log : List (Command F))
      → All IsProbe cs
      → (open_savepoints (cs ++ log) ≡ open_savepoints log) × (runs (cs ++ log) ≡ runs log)
  probes_keep [] log p = (refl, refl)
  probes_keep (Command.prepare sql types ∷ cs) log p = probes_keep cs log p.1
  probes_keep (Command.raw sql ∷ cs) log p =
      let rest = probes_keep cs log p.1 in (rw p.0 (rest.0), rest.1)
  probes_keep (c ∷ cs) log p = absurd (p.0)

  Extends-keep :
      {l l' : List (Command F)}
      → Extends IsProbe l l'
      → (open_savepoints l' ≡ open_savepoints l) × (runs l' ≡ runs l)
  Extends-keep {l} (cs, e, p) = rw e (probes_keep cs l p)

module _ {F : Foreign} (S : Server F) (sql : Text) (types : List Kind) where
  probed-Sends :
      (tx : Bool) (h : ℕ) (again : ℕ → Io (World F) ℕ)
      → ((n : ℕ) → Sends IsProbe (again n))
      → (probe : Answer (Option ℕ)) → Sends IsProbe (probed S sql types tx h again probe)
  unfolding raw_sql
  probed-Sends tx h again ih (answered p) = elim (Bool-cases (ltb h (parameter_count p))) [
    | inl e ↦ rw (e, probed) (Sends-pure (parameter_count p))
    | inr e ↦ rw (e, probed) (ih (parameter_count p))
  ]
  probed-Sends tx h again ih (failed e) =
      Sends-if (parameter_resolution_error e)
        (Sends-bind (Sends-when tx (Sends-call driver (Command.raw rollback_text) S.acts refl))
          λ _. Sends-pure (h + 1))
        (Sends-raise ℕ (driver e))

  postgres_probe-Sends : (tx : Bool) (h r : ℕ) → Sends IsProbe (postgres_probe S sql types tx h r)
  unfolding postgres_probe
  postgres_probe-Sends tx zero r = Sends-pure r
  postgres_probe-Sends tx (suc h) r =
      Sends-bind (Sends-ask (Command.prepare sql (take h types)) S.prepares tt)
        (probed-Sends tx h (postgres_probe S sql types tx h) (postgres_probe-Sends tx h))

  prepared-Sends :
      (tx : Bool) (n : ℕ) (a : Answer (Option ℕ)) → Sends IsProbe (prepared S sql types tx n a)
  prepared-Sends tx n (answered p) = Sends-pure (parameter_count p)
  prepared-Sends tx n (failed e) =
      Sends-if (indeterminate_parameter e) (Sends-raise ℕ (Error.bind_count none n))
        (Sends-raise ℕ (driver e))

  check_count-Sends : (m n : ℕ) → Sends IsProbe (check_count S m n)
  check_count-Sends m n =
      Sends-if (m == n) (Sends-pure tt) (Sends-raise (Unit {0}) (Error.bind_count (some m) n))

  -- Preparing runs nothing, and leaves the open savepoints as they are.
  pub postgres_prepare-Sends : (tx : Bool) → Sends IsProbe (postgres_prepare S sql types tx)
  unfolding postgres_prepare
  postgres_prepare-Sends tx =
      let n = length types in
      Sends-bind (Sends-ask (Command.prepare sql types) S.prepares tt) λ statement.
        Sends-bind (prepared-Sends tx n statement) λ expected.
          Sends-bind (check_count-Sends expected n) λ _.
            Sends-bind (postgres_probe-Sends tx n n) λ referenced. check_count-Sends referenced n

-- A driver error is never reported as a count of bindings.
pub is_bind_count-driver : (e : SqlxError) → is_bind_count (driver e) ≡ false
unfolding driver
is_bind_count-driver (SqlxError.database db) = ground arith
is_bind_count-driver e = ground arith

module _ {F : Foreign} (S : Server F) (sql : Text) (types : List Kind) where
  -- Nothing is run by preparing a statement, in a transaction or not, whatever happens.
  pub postgres_statement-runs :
      (tx : Bool) (w : World F) → runs (postgres_statement S sql types tx w).1.log ≡ runs w.log
  unfolding postgres_statement raw_sql
  postgres_statement-runs true w =
      let w1 = send (Command.raw savepoint_text) w in
      ground (arith, Extends-keep ((postgres_prepare-Sends S sql types true).sent w1))
  postgres_statement-runs false w =
      ground (arith, Extends-keep ((postgres_prepare-Sends S sql types false).sent w))

  -- If a statement is prepared, or refused for its number of bindings, as many savepoints are open
  -- as before.
  pub postgres_statement-savepoints :
      (tx : Bool) (w : World F)
      → is_reusable (postgres_statement S sql types tx w).0 ≡ true
      → open_savepoints (postgres_statement S sql types tx w).1.log ≡ open_savepoints w.log
  unfolding postgres_statement raw_sql
  postgres_statement-savepoints true w h =
      let w1 = send (Command.raw savepoint_text) w in
      grind (
        arith,
        Extends-keep ((postgres_prepare-Sends S sql types true).sent w1),
        is_bind_count-driver,
      )
  postgres_statement-savepoints false w h =
      ground (arith, Extends-keep ((postgres_prepare-Sends S sql types false).sent w))

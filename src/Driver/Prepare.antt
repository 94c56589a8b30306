-- ===== src/Driver/Prepare.antt =====
-- src/driver.rs, `postgres_prepare` and `postgres_statement`: the parameters that a statement
-- refers to are counted by preparing it with fewer and fewer type hints.
use sqly.Value.{Kind}
use sqly.Shared.Bytes.{eq_text, bytes, Text}
use sqly.Foreign.{Foreign}
use sqly.Error.{driver, database_code, one_of, Result, Error, code_is, SqlxError, ok, err}
use sqly.Shared.{
  ◌+◌, ◌||◌, ltb, take, ◌==◌, length, if◌then◌else◌, ◌∷◌, ℕ, Bool, Option, List, [], none, some,
  zero, suc, true, false,
}
use sqly.Sqlx.{
  lift, raise, attempt, Command, failed, when, answered, call, ask, pure, World, Answer, Io, Server,
  ◌>>=◌, ◌>>◌,
}

abbrev pub savepoint_text : Text
savepoint_text = bytes "SAVEPOINT sqly_prepare"

abbrev pub rollback_text : Text
rollback_text = bytes "ROLLBACK TO SAVEPOINT sqly_prepare"

abbrev pub release_text : Text
release_text = bytes "RELEASE SAVEPOINT sqly_prepare"

unfoldable pub indeterminate_parameter : SqlxError → Bool
indeterminate_parameter e = code_is (λ c. eq_text c (bytes "42P18")) (database_code e)

abbrev resolution_codes : List Text
resolution_codes =
    bytes "42P18"
    ∷ bytes "42P08"
    ∷ bytes "42725"
    ∷ bytes "42883"
    ∷ bytes "42804"
    ∷ bytes "42846"
    ∷ []

unfoldable pub parameter_resolution_error : SqlxError → Bool
parameter_resolution_error e = code_is (one_of resolution_codes) (database_code e)

-- `map_or(0, …)` over `parameters()`.
abbrev pub parameter_count : Option ℕ → ℕ
parameter_count none = 0
parameter_count (some n) = n

module _ {F : Foreign} (S : Server F) where
  -- `sqlx::raw_sql(sql).execute(…).await.map_err(f)?`
  unfoldable pub raw_sql : (SqlxError → Error) → Text → Io (World F) (Unit {0})
  raw_sql f sql = call f (Command.raw sql) S.acts

  abbrev pub prepare_with : Text → List Kind → Io (World F) (Answer (Option ℕ))
  prepare_with sql types = ask (Command.prepare sql types) S.prepares

  -- `if expected != actual { return Err(BindCount) }`
  abbrev pub check_count : ℕ → ℕ → Io (World F) (Unit {0})
  check_count expected actual =
      if expected == actual then pure tt else raise (Error.bind_count (some expected) actual)

  module _ (sql : Text) (types : List Kind) (in_transaction : Bool) where
    -- One round of the loop over `hint_count`, which is `h`, when the server has answered; `again`
    -- is the rest of the loop.
    abbrev pub probed : ℕ → (ℕ → Io (World F) ℕ) → Answer (Option ℕ) → Io (World F) ℕ
    probed h again (answered parameters) = elim (ltb h (parameter_count parameters)) [
      | true ↦ pure (parameter_count parameters)
      | false ↦ again (parameter_count parameters)
    ]
    probed h again (failed e) =
        if parameter_resolution_error e
        then when in_transaction (raw_sql driver rollback_text) >> pure (h + 1)
        else raise (driver e)

    -- The loop with as many rounds left; `referenced` is its variable, and the result its last value.
    unfoldable pub postgres_probe : ℕ → ℕ → Io (World F) ℕ
    postgres_probe zero referenced = pure referenced
    postgres_probe (suc h) referenced =
        prepare_with sql (take h types) >>= probed h (postgres_probe h)

    abbrev pub prepared : ℕ → Answer (Option ℕ) → Io (World F) ℕ
    prepared actual (answered parameters) = pure (parameter_count parameters)
    prepared actual (failed e) =
        if indeterminate_parameter e then raise (Error.bind_count none actual) else raise (driver e)

    -- The statement itself is SQLx's; what matters is that there is one.
    unfoldable pub postgres_prepare : Io (World F) (Unit {0})
    postgres_prepare = do
      let actual = length types
      statement ← prepare_with sql types
      expected ← prepared actual statement
      check_count expected actual
      referenced ← postgres_probe actual actual
      check_count referenced actual

    abbrev pub is_count_error : Result (Unit {0}) → Bool
    is_count_error (err (Error.bind_count e a)) = true
    is_count_error r = false

    abbrev pub is_ok : Result (Unit {0}) → Bool
    is_ok (ok a) = true
    is_ok (err e) = false

    unfoldable pub postgres_statement : Io (World F) (Unit {0})
    postgres_statement = do
      when in_transaction (raw_sql driver savepoint_text)
      result ← attempt postgres_prepare
      when in_transaction (when (is_count_error result) (raw_sql driver rollback_text))
      when in_transaction
          (when (is_ok result || is_count_error result) (raw_sql driver release_text))
      lift result

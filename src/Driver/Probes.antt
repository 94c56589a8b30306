-- ===== src/Driver/Probes.antt =====
-- src/driver.rs, `postgres_prepare`: the probes find the number of the last parameter that a
-- statement refers to, and the bindings are accepted exactly when there are as many.
use native.Mathlib.Decide.{dec_le}
use sqly.Error.{driver, Error, SqlxError}
use sqly.Value.{Kind}
use sqly.Shared.Bytes.{Text}
use sqly.Foreign.{Foreign}
use sqly.Shared.{
  ltb_irrefl, ◌==◌, if◌then◌else◌, ◌⊎◌, take, ◌<◌, length, ◌≤◌, ◌≡◌, ◌∷◌, Bool, ℕ, List, none, some,
  zero, suc, true, inl, inr, arith,
}
use sqly.Sqlx.{send, raised, World, Command, Server, returned, answered, failed, ◌>>=◌}
use sqly.Driver.Prepare.{
  indeterminate_parameter, probed, rollback_text, parameter_resolution_error, postgres_probe,
  postgres_prepare, raw_sql,
}

-- How PostgreSQL answers to a statement whose parameters are `$1` to `$last`, each used, when it is
-- prepared with type hints: an unused hint counts as a parameter; where a used parameter has no
-- hint, it is counted all the same if its type can be inferred, and otherwise the types of the
-- statement cannot be resolved. The hints that the bindings give fit if there are enough.
pub record IsPostgres {F : Foreign} (S : Server F) (sql : Text) (types : List Kind) (last : ℕ)
    : Type 0 where
  pub full :
      (log : List (Command F))
      → last ≤ length types
      → S.prepares (Command.prepare sql types ∷ log) ≡ some (answered (some (length types)))
  pub short :
      (log : List (Command F))
      → length types < last
      → (S.prepares (Command.prepare sql types ∷ log) ≡ some (answered (some last)))
        ⊎ ((e : SqlxError) × (S.prepares (Command.prepare sql types ∷ log) ≡ some (failed e))
            × (parameter_resolution_error e ≡ true))
  pub hinted :
      (h : ℕ) (log : List (Command F))
      → last ≤ h
      → h < length types
      → S.prepares (Command.prepare sql (take h types) ∷ log) ≡ some (answered (some h))
  pub unhinted :
      (h : ℕ) (log : List (Command F))
      → h < last
      → h < length types
      → (S.prepares (Command.prepare sql (take h types) ∷ log) ≡ some (answered (some last)))
        ⊎ ((e : SqlxError) × (S.prepares (Command.prepare sql (take h types) ∷ log)
              ≡ some (failed e))
            × (parameter_resolution_error e ≡ true))
  -- The savepoint can be rolled back to.
  pub restored :
      (log : List (Command F)) → S.acts (Command.raw rollback_text ∷ log) ≡ some (answered tt)

module _ {F : Foreign} (S : Server F) (sql : Text) (types : List Kind) (last : ℕ) (tx : Bool)
    (pg : IsPostgres S sql types last) where
  -- With every hint from `h` on known to be unused, the loop finds the last parameter.
  postgres_probe_lem :
      (h : ℕ) (w : World F)
      → last ≤ h
      → h ≤ length types
      → (postgres_probe S sql types tx h h w).0 ≡ returned last
  unfolding postgres_probe raw_sql
  postgres_probe_lem zero w low high = ground arith
  postgres_probe_lem (suc h) w low high = elim (dec_le last h) [
    | yes unused ↦
        rw (pg.hinted h w.log unused (omega arith), ◌>>=◌)
          (rw (ltb_irrefl h, probed)
            (postgres_probe_lem h (send (Command.prepare sql (take h types)) w) unused
              (omega arith)))
    | no used ↦ elim (pg.unhinted h w.log (omega arith) (omega arith)) [
      | inl e ↦ ground arith
      | inr (x, e, resolution) ↦
          ground (arith, pg.restored (Command.prepare sql (take h types) ∷ w.log))
    ]
  ]

  -- With enough bindings, preparing succeeds if there are as many as the statement has parameters.
  prepared_enough :
      (w : World F)
      → last ≤ length types
      → (postgres_prepare S sql types tx w).0 ≡ (
          if last == length types
          then returned tt
          else raised (Error.bind_count (some last) (length types)))
  unfolding postgres_prepare
  prepared_enough w within = ground (
    arith,
    pg.full w.log within,
    postgres_probe_lem (length types) (send (Command.prepare sql types) w) within (omega arith),
  )

  -- Against such a server, preparing a statement with as many bindings as parameters returns, and
  -- with more it fails with the true number of parameters and the number of bindings. With fewer it
  -- fails with those numbers too, unless the server cannot resolve the types: then the number of
  -- parameters is unknown, if the server's error says that it cannot infer a parameter's type, and
  -- otherwise that error is given.
  pub postgres_prepare_lem :
      (w : World F)
      → ((postgres_prepare S sql types tx w).0 ≡ (
          if last == length types
          then returned tt
          else raised (Error.bind_count (some last) (length types))))
        ⊎ ((length types < last)
            × (e : SqlxError) × (S.prepares (Command.prepare sql types ∷ w.log) ≡ some (failed e))
            × (parameter_resolution_error e ≡ true)
            × ((postgres_prepare S sql types tx w).0
                ≡ raised (
                    if indeterminate_parameter e
                    then Error.bind_count none (length types)
                    else driver e)))
  unfolding postgres_prepare
  postgres_prepare_lem w = elim (dec_le last (length types)) [
    | yes within ↦ inl (prepared_enough w within)
    | no beyond ↦ elim (pg.short w.log (omega arith)) [
      | inl e ↦ inl (ground (arith, e))
      | inr (x, e, resolution) ↦ inr (omega arith, x, e, resolution, ground (arith, e))
    ]
  ]

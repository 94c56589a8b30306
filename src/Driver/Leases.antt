-- ===== src/Driver/Leases.antt =====
-- src/driver.rs, `rows`: when the connection of a stream goes back to the pool.
use sqly.Value.{Value}
use sqly.Shared.Bytes.{Text}
use sqly.Row.{Row, Backend}
use sqly.Foreign.{Foreign}
use sqly.Sql.{Sql}
use sqly.Shared.{
  ◌∷◌, ◌≡◌, ◌≢◌, subst, sym, ◌⊎◌, inl, inr, first, refl, arith, Option, ℕ, List, Bool, some, none,
  false, zero, suc,
}
use sqly.Sqlx.{
  send, Command, World, Server, Outcome, Answer, answered, failed, returned, raised, cancelled,
  SqlxRow,
}
use sqly.Driver.Stream.{
  Stop, Taken, read_rows, sqlite_rows, postgres_rows, backend_rows, rows, started, nothing,
  bound_sqlite, sqlite_checked, bound_postgres, on_answer, guarded_rows, leased,
}

abbrev pub text_of : Backend → Sql → Text
text_of Backend.sqlite sql = sql.sqlite
text_of Backend.postgres sql = sql.postgres

module _ {F : Foreign} (S : Server F) where
  -- The last that was asked of the server is the next row of the statement, and it answered that
  -- there is none.
  pub record IsDrained (sql : Text) (log : List (Command F)) : Type 0 where
    pub args : List (Value F)
    pub before : List (Command F)
    pub asked : log ≡ Command.next sql args ∷ before
    pub answer : S.fetches_optional (Command.next sql args ∷ before) ≡ some (answered none)

  record Drains (sql : Text) (r : Taken F × World F) : Type 0 where
    pub drained : r.0.stop ≡ Stop.ended → IsDrained sql r.1.log

  -- A stream that has not ended has nothing to show.
  Drains-stopped :
      (sql : Text) (taken : Taken F) (w : World F) → taken.stop ≢ Stop.ended → Drains sql (taken, w)
  Drains-stopped sql taken w n = record { drained = λ e. absurd (n e) }

  module _ (wants : Row F → Bool) where
    on_answer-Drains :
        (sql : Text) (b : Backend) (r : Outcome (Answer (Option (SqlxRow F)))) (w : World F)
        (rest : Taken F × World F)
        → (r ≡ returned (answered none) → IsDrained sql w.log)
        → Drains sql rest
        → Drains sql (on_answer b wants r w rest)
    on_answer-Drains sql b (returned (answered (some columns))) w rest h d = record {
      drained = λ e. ground (arith, d.drained);
    }
    on_answer-Drains sql b (returned (answered none)) w rest h d = record { drained = λ e. h refl }
    on_answer-Drains sql b (returned (failed e)) w rest h d = Drains-stopped sql _ _ (λ f. cc)
    on_answer-Drains sql b (raised e) w rest h d = Drains-stopped sql _ _ (λ f. cc)
    on_answer-Drains sql b cancelled w rest h d = Drains-stopped sql _ _ (λ f. cc)

    read_rows-Drains :
        (sql : Text) (b : Backend) (args : List (Value F)) (n : ℕ) (w : World F)
        → Drains sql (read_rows S wants b sql args n w)
    unfolding read_rows
    read_rows-Drains sql b args zero w = Drains-stopped sql _ _ (λ f. cc)
    read_rows-Drains sql b args (suc n) w =
        on_answer-Drains sql b _ _ (read_rows S wants b sql args n _)
          (λ e. record { args = args; before = w.log; asked = refl; answer = ground arith })
          (read_rows-Drains sql b args n _)

    started-Drains :
        {A : Type 0} (sql : Text) (k : A → World F → Taken F × World F) (r : Outcome A × World F)
        → ((a : A) (w : World F) → Drains sql (k a w))
        → Drains sql (started k r)
    started-Drains sql k (returned a, w) h = h a w
    started-Drains sql k (raised e, w) h = Drains-stopped sql _ _ (λ f. cc)
    started-Drains sql k (cancelled, w) h = Drains-stopped sql _ _ (λ f. cc)

    guarded_rows-Drains :
        (sql : Text) (m : World F → Taken F × World F) (w : World F)
        → ((v : World F) → Drains sql (m v))
        → Drains sql (guarded_rows S wants m w)
    guarded_rows-Drains sql m w h = record {
      drained = λ e. ground (arith, (h (record w { interrupting = false })).drained e);
    }

    backend_rows-Drains :
        (b : Backend) (sql : Sql) (values : List (Value F)) (n : ℕ) (w : World F)
        → Drains (text_of b sql) (backend_rows S wants b sql values false n w)
    unfolding sqlite_rows postgres_rows
    backend_rows-Drains Backend.sqlite sql values zero w = Drains-stopped sql.sqlite _ _ (λ f. cc)
    backend_rows-Drains Backend.sqlite sql values (suc n) w =
        started-Drains sql.sqlite _ (bound_sqlite S wants values w) λ bound v.
          guarded_rows-Drains sql.sqlite _ v λ x.
            started-Drains sql.sqlite _ (sqlite_checked S wants sql.sqlite bound.1 x)
              λ u y. read_rows-Drains sql.sqlite Backend.sqlite bound.0 (suc n) y
    backend_rows-Drains Backend.postgres sql values zero w =
        Drains-stopped sql.postgres _ _ (λ f. cc)
    backend_rows-Drains Backend.postgres sql values (suc n) w =
        started-Drains sql.postgres _ (bound_postgres S wants sql.postgres values false w)
          λ args v. read_rows-Drains sql.postgres Backend.postgres args (suc n) v

  -- What becomes of the connection of a stream that has ended, and of one that has not.
  abbrev pub Kept : Text → Taken F × World F → Type 0
  Kept sql r =
      (r.0.stop ≡ Stop.ended)
      × (log : List (Command F)) × (r.1.log ≡ Command.release ∷ log)
      × IsDrained sql log

  abbrev pub Closed : Taken F × World F → Type 0
  Closed r = (r.0.stop ≢ Stop.ended) × (first r.1.log ≡ some Command.discard)

  leased-end :
      (wants : Row F → Bool) (sql : Text) (stop : Stop) (given : List (Row F)) (w : World F)
      → Drains sql (record { rows = given; stop = stop }, w)
      → Kept sql (leased S wants (record { rows = given; stop = stop }, w))
        ⊎ Closed (leased S wants (record { rows = given; stop = stop }, w))
  leased-end wants sql Stop.ended given w d = inl (refl, w.log, refl, d.drained refl)
  leased-end wants sql (Stop.broke e) given w d = inr (λ f. cc, refl)
  leased-end wants sql Stop.dropped given w d = inr (λ f. cc, refl)

  acquired-or_not :
      (x : Option (Answer (Unit {0}))) → (x ≡ some (answered tt)) ⊎ (x ≢ some (answered tt))
  acquired-or_not none = inr (λ e. cc)
  acquired-or_not (some (answered u)) = inl refl
  acquired-or_not (some (failed e)) = inr (λ f. cc)

  rows-acquired :
      (wants : Row F → Bool) (b : Backend) (sql : Sql) (values : List (Value F)) (n : ℕ)
      (w : World F)
      → S.acts (Command.acquire ∷ w.log) ≡ some (answered tt)
      → rows S wants b sql values (suc n) w
        ≡ leased S wants (backend_rows S wants b sql values false (suc n) (send Command.acquire w))
  unfolding rows
  rows-acquired wants b sql values n w h = ground (arith, h)

  -- A stream on a pooled connection, on either backend: either it has ended, the last that was asked
  -- of the server is the next row of the statement, the server has answered that there is none, and
  -- the connection goes back to the pool; or it has not ended, it was dropped or gave an error, and
  -- the connection is closed; or no connection was acquired, and nothing else was asked. A stream
  -- that is never polled does nothing.
  pub rows-lease :
      (wants : Row F → Bool) (b : Backend) (sql : Sql) (values : List (Value F)) (n : ℕ)
      (w : World F)
      → (Kept (text_of b sql) (rows S wants b sql values (suc n) w)
          ⊎ Closed (rows S wants b sql values (suc n) w)
          ⊎ ((S.acts (Command.acquire ∷ w.log) ≢ some (answered tt))
              × ((rows S wants b sql values (suc n) w).0.stop ≢ Stop.ended)
              × ((rows S wants b sql values (suc n) w).1.log ≡ Command.acquire ∷ w.log)))
        × (rows S wants b sql values zero w ≡ (nothing Stop.dropped, w))
  unfolding rows
  rows-lease wants b sql values n w = (
    elim (acquired-or_not (S.acts (Command.acquire ∷ w.log))) [
      | inl e ↦
          elim (leased-end wants (text_of b sql) _ _ _
            (backend_rows-Drains wants b sql values (suc n) (send Command.acquire w))) [
              | inl k ↦
                  inl
                    (subst (Kept (text_of b sql)) (sym (rows-acquired wants b sql values n w e)) k)
              | inr c ↦ inr (inl (subst Closed (sym (rows-acquired wants b sql values n w e)) c))
            ]
      | inr no_lease ↦ inr (inr (no_lease, ground (arith, no_lease), ground (arith, no_lease)))
    ],
    refl,
  )

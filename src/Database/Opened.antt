-- ===== src/Database/Opened.antt =====
-- src/database.rs, `DatabaseBuilder::connect`: what it opens.

use sqly.Shared.{
  if◌then◌else◌, ◌&&◌, Bool-cases, inl, inr, ◌<◌, ◌≤◌, any, All, length, arith, subst, sym, refl,
  ◌≡◌, ◌∷◌, none, some, true, false,
}
use sqly.Error.{Result, ok, err}
use sqly.Row.{Backend}
use sqly.Sqlx.{Io, lift, pure, ◌>>◌, ◌>>=◌, Outcome, returned, raised, cancelled}
use sqly.Options.{
  SqliteOptions, PostgresOptions, ConnectOptions, validate_sqlite, validate_postgres, refuse_if,
  max_millis, as_millis,
}
use sqly.Database.Builder.{
  DatabaseBuilder, Platform, Open, Opening, check_builder, connect_sqlite, connect_postgres,
  connect, connect_with, fetch_id, is_several, inherited, pg_connect, unwrap_or, sqlite_connect,
  memory_connect, open_memory, open_file, connect_to, new_keeper,
}
use sqly.Options.Validity.{IsUsable, validate_sqlite_iff}

-- What holds of everything that is opened: foreign keys are enforced, statements are not logged,
-- pools have room and time, and a database in memory has one pooled connection and a keeper.
abbrev pub IsSafe : Open → Type 0
IsSafe (Open.keeper_connection c) =
    (c.foreign_keys ≡ true)
    × (c.statement_logging ≡ false)
    × (c.in_memory ≡ true)
    × (c.shared_cache ≡ true)
IsSafe (Open.sqlite_pool c size timeout kept) =
    (c.foreign_keys ≡ true)
    × (c.statement_logging ≡ false)
    × (0 < size)
    × (0 < timeout)
    × (as_millis c.busy_timeout ≤ max_millis)
    × (kept ≡ c.in_memory)
    × (c.in_memory ≡ true → size ≡ 1)
    × (c.read_only ≡ true → (c.create_if_missing ≡ false) × (c.wal ≡ false))
IsSafe (Open.postgres_pool c size timeout) =
    (c.statement_cache_capacity ≡ 0)
    × (c.statement_logging ≡ false)
    × (0 < size)
    × (0 < timeout)
    × (0 < c.port)
    × (0 < length c.host)
    × (0 < length c.username)

-- An action that opens nothing but what is safe.
record IsCareful {A : Type 0} (m : Io Opening A) : Type 0 where
  pub keeps : (s : Opening) → All IsSafe s.opened → All IsSafe (m s).1.opened

IsCareful-lift :
    {A B : Type 0} (r : Result A) (k : A → Io Opening B)
    → ((a : A) → r ≡ ok a → IsCareful (k a))
    → IsCareful (lift r >>= k)
IsCareful-lift (ok a) k h = record { keeps = λ s i. (h a refl).keeps s i }
IsCareful-lift (err e) k h = record { keeps = λ s i. i }

careful_rest :
    {A B : Type 0} (k : A → Io Opening B) (r : Outcome A) (s : Opening)
    → ((a : A) → IsCareful (k a))
    → All IsSafe s.opened
    → All IsSafe (((λ (u : Opening). (r, s)) >>= k) s).1.opened
careful_rest k (returned a) s h i = (h a).keeps s i
careful_rest k (raised e) s h i = i
careful_rest k cancelled s h i = i

IsCareful-bind :
    {A B : Type 0} (m : Io Opening A) (k : A → Io Opening B)
    → IsCareful m
    → ((a : A) → IsCareful (k a))
    → IsCareful (m >>= k)
IsCareful-bind m k c h = record { keeps = λ s i. careful_rest k (m s).0 (m s).1 h (c.keeps s i) }

IsCareful-pure : {A : Type 0} (a : A) → IsCareful {A = A} (pure a)
IsCareful-pure a = record { keeps = λ s i. i }

module _ (p : Platform) where
  IsCareful-fetch_id : IsCareful (fetch_id p)
  IsCareful-fetch_id = record { keeps = λ s i. i }

  connect_with-opened : (o : Open) (s : Opening) → (connect_with p o s).1.opened ≡ o ∷ s.opened
  connect_with-opened o s = ground arith

  IsCareful-open : (o : Open) → IsSafe o → IsCareful (connect_with p o)
  IsCareful-open o h = record {
    keeps = λ s i. subst (All IsSafe) (sym (connect_with-opened o s)) (h, i);
  }

  check_builder-eq_ok :
      (b : DatabaseBuilder)
      → check_builder p b ≡ ok tt
      → (0 < b.acquire_timeout) × (0 < unwrap_or 5 b.max_connections)
  unfolding check_builder
  check_builder-eq_ok b h = ground arith

  validate_postgres-eq_ok :
      (o : PostgresOptions)
      → validate_postgres o ≡ ok tt
      → (0 < o.port) × (0 < length o.host) × (0 < length o.username)
  unfolding validate_postgres
  validate_postgres-eq_ok o h = ground arith

  module _ (b : DatabaseBuilder) (fine : check_builder p b ≡ ok tt) where
    open_memory-IsCareful :
        (o : SqliteOptions)
        → IsUsable p.same_path o
        → o.memory ≡ true
        → IsCareful (open_memory p b o)
    open_memory-IsCareful o u m = IsCareful-bind (fetch_id p) _ IsCareful-fetch_id λ id.
        IsCareful-bind (connect_with p (Open.keeper_connection (memory_connect p o id))) _
          (IsCareful-open (Open.keeper_connection (memory_connect p o id)) (refl, refl, refl, refl))
          λ x.
            IsCareful-bind
              (connect_with p (Open.sqlite_pool (memory_connect p o id) 1 b.acquire_timeout true)) _
              (IsCareful-open (Open.sqlite_pool (memory_connect p o id) 1 b.acquire_timeout true) (
                refl,
                refl,
                omega arith,
                (check_builder-eq_ok b fine).0,
                u.patient,
                refl,
                λ h. refl,
                u.frozen,
              ))
              λ y. IsCareful-pure (some (new_keeper p))

    open_file-IsCareful : (o : SqliteOptions) → IsUsable p.same_path o → IsCareful (open_file p b o)
    open_file-IsCareful o u =
        let open_pool : Open =
          Open.sqlite_pool (sqlite_connect p o) (unwrap_or 5 b.max_connections) b.acquire_timeout
            false in
        IsCareful-bind (connect_with p open_pool) _
          (IsCareful-open open_pool (
            refl,
            refl,
            (check_builder-eq_ok b fine).1,
            (check_builder-eq_ok b fine).0,
            u.patient,
            refl,
            λ h. absurd (ground arith),
            u.frozen,
          ))
          λ y. IsCareful-pure none

    open_any-IsCareful :
        (o : SqliteOptions)
        → IsUsable p.same_path o
        → IsCareful (if o.memory then open_memory p b o else open_file p b o)
    open_any-IsCareful o u = elim (Bool-cases o.memory) [
      | inl m ↦ rw m (open_memory-IsCareful o u m)
      | inr m ↦ rw m (open_file-IsCareful o u)
    ]

    connect_sqlite-IsCareful : (o : SqliteOptions) → IsCareful (connect_sqlite p b o)
    unfolding connect_sqlite
    connect_sqlite-IsCareful o = IsCareful-lift (validate_sqlite p.same_path o) _ λ u valid.
        IsCareful-lift
          (refuse_if (o.memory && is_several b.max_connections)
            "in-memory SQLite requires one query connection")
          _ λ v single. open_any-IsCareful o ((validate_sqlite_iff p.same_path o).0 valid)

    connect_postgres-IsCareful : (o : PostgresOptions) → IsCareful (connect_postgres p b o)
    unfolding connect_postgres
    connect_postgres-IsCareful o = IsCareful-lift (validate_postgres o) _ λ u valid.
        IsCareful-lift
          (refuse_if (any p.var_os inherited)
            "inherited PGOPTIONS or TLS certificate environment is unsupported; use explicit options")
          _
          λ v clear.
            let (a, q) = check_builder-eq_ok b fine in
            let (x, y, z) = validate_postgres-eq_ok o valid in
            IsCareful-open
              (Open.postgres_pool (pg_connect p o) (unwrap_or 5 b.max_connections)
                b.acquire_timeout)
              (refl, refl, q, a, x, y, z)

    connect_to-IsCareful : (o : ConnectOptions) → IsCareful (connect_to p b o)
    connect_to-IsCareful (ConnectOptions.sqlite_options o) =
        IsCareful-bind (connect_sqlite p b o) _ (connect_sqlite-IsCareful o)
          λ keeper. IsCareful-pure (Backend.sqlite, keeper)
    connect_to-IsCareful (ConnectOptions.postgres_options o) =
        IsCareful-bind (connect_postgres p b o) _ (connect_postgres-IsCareful o)
          λ u. IsCareful-pure (Backend.postgres, none)

  -- Whatever the builder, the options and the platform are, if all that is open is safe then so is
  -- all that is open after `connect`: SQLite connections enforce foreign keys, no connection logs
  -- its statements and PostgreSQL's cache none, each pool has a size and a timeout that are not
  -- 0, a database in memory has a pool of one connection and a keeper, SQLite's busy timeout is in
  -- range, a read-only file is not created, and PostgreSQL's host, port and user are given.
  pub connect-IsSafe :
      (b : DatabaseBuilder) (options : Result ConnectOptions) (s : Opening)
      → All IsSafe s.opened
      → All IsSafe (connect p b options s).1.opened
  unfolding connect
  connect-IsSafe b options s h =
      (IsCareful-lift options (λ given. lift (check_builder p b) >> connect_to p b given)
          λ given e.
            IsCareful-lift (check_builder p b) (λ u. connect_to p b given)
              λ u fine. connect_to-IsCareful b fine given).keeps
        s h

-- ===== src/Database/Refused.antt =====
-- src/database.rs, `DatabaseBuilder::connect`: a configuration that is refused.
use sqly.Shared.Bytes.{Text}
use sqly.Shared.{
  if◌then◌else◌, ◌&&◌, any, Bool-cases, inl, inr, ◌≢◌, arith, refl, ◌≡◌, none, some, true, false,
}
use sqly.Error.{Error, Result, ok, err, driver}
use sqly.Row.{Backend}
use sqly.Sqlx.{Io, lift, pure, ◌>>◌, ◌>>=◌, Outcome, returned, raised, cancelled}
use sqly.Options.{
  SqliteOptions, PostgresOptions, ConnectOptions, validate_sqlite, validate_postgres, refuse_if,
}
use sqly.Database.Builder.{
  DatabaseBuilder, Platform, Open, Opening, check_builder, connect_sqlite, connect_postgres,
  connect, connect_with, fetch_id, is_several, inherited, pg_connect, unwrap_or, sqlite_connect,
  memory_connect, open_memory, open_file, connect_to, new_keeper,
}

-- An action that refuses a configuration only before it changes anything.
record IsEarly {A : Type 0} (m : Io Opening A) : Type 0 where
  pub early :
      (s : Opening) (reason : Text) → (m s).0 ≡ raised (Error.configuration reason) → (m s).1 ≡ s

-- An action that refuses no configuration.
record IsAccepting {A : Type 0} (m : Io Opening A) : Type 0 where
  pub accepts : (s : Opening) (reason : Text) → (m s).0 ≢ raised (Error.configuration reason)

IsEarly-lift :
    {A B : Type 0} (r : Result A) (k : A → Io Opening B)
    → ((a : A) → IsEarly (k a))
    → IsEarly (lift r >>= k)
IsEarly-lift (ok a) k h = record { early = λ s t e. (h a).early s t e }
IsEarly-lift (err e) k h = record { early = λ s t i. refl }

IsEarly-accepting : {A : Type 0} {m : Io Opening A} → IsAccepting m → IsEarly m
IsEarly-accepting c = record { early = λ s t e. absurd (c.accepts s t e) }

accepting_rest :
    {A B : Type 0} (k : A → Io Opening B) (r : Outcome A) (s : Opening) (t : Text)
    → r ≢ raised (Error.configuration t)
    → ((a : A) → IsAccepting (k a))
    → (((λ (u : Opening). (r, s)) >>= k) s).0 ≢ raised (Error.configuration t)
accepting_rest k (returned a) s t n h e = (h a).accepts s t e
accepting_rest k (raised x) s t n h e = n (ground arith)
accepting_rest k cancelled s t n h e = ground arith

IsAccepting-bind :
    {A B : Type 0} (m : Io Opening A) (k : A → Io Opening B)
    → IsAccepting m
    → ((a : A) → IsAccepting (k a))
    → IsAccepting (m >>= k)
IsAccepting-bind m k c h = record {
  accepts = λ s t. accepting_rest k (m s).0 (m s).1 t (λ e. c.accepts s t e) h;
}

-- What follows an action that refuses nothing and ends in `pure`.
early_rest :
    {A B : Type 0} (f : A → B) (r : Outcome A) (s u : Opening) (t : Text)
    → (r ≡ raised (Error.configuration t) → s ≡ u)
    → (((λ (v : Opening). (r, s)) >>= λ a. pure (f a)) s).0 ≡ raised (Error.configuration t)
    → (((λ (v : Opening). (r, s)) >>= λ a. pure (f a)) s).1 ≡ u
early_rest f (returned a) s u t h e = ground arith
early_rest f (raised x) s u t h e = h (ground arith)
early_rest f cancelled s u t h e = ground arith

IsEarly-map :
    {A B : Type 0} (m : Io Opening A) (f : A → B) → IsEarly m → IsEarly (m >>= λ a. pure (f a))
IsEarly-map m f c = record { early = λ s t e. early_rest f (m s).0 (m s).1 s t (c.early s t) e }

IsAccepting-pure : {A : Type 0} (a : A) → IsAccepting {A = A} (pure a)
IsAccepting-pure a = record { accepts = λ s t e. ground arith }

module _ (p : Platform) where
  IsAccepting-fetch_id : IsAccepting (fetch_id p)
  IsAccepting-fetch_id = record { accepts = λ s t e. ground arith }

  IsAccepting-open : (o : Open) → IsAccepting (connect_with p o)
  unfolding driver
  IsAccepting-open o = record { accepts = λ s t e. ground arith }

  module _ (b : DatabaseBuilder) where
    open_memory-IsAccepting : (o : SqliteOptions) → IsAccepting (open_memory p b o)
    open_memory-IsAccepting o = IsAccepting-bind (fetch_id p) _ IsAccepting-fetch_id λ id.
        IsAccepting-bind _ _ (IsAccepting-open (Open.keeper_connection (memory_connect p o id)))
          λ x.
            IsAccepting-bind _ _
              (IsAccepting-open (Open.sqlite_pool (memory_connect p o id) 1 b.acquire_timeout true))
              λ y. IsAccepting-pure (some (new_keeper p))

    open_file-IsAccepting : (o : SqliteOptions) → IsAccepting (open_file p b o)
    open_file-IsAccepting o =
        IsAccepting-bind _ _
          (IsAccepting-open (
            Open.sqlite_pool (sqlite_connect p o) (unwrap_or 5 b.max_connections) b.acquire_timeout
              false))
          λ y. IsAccepting-pure none

    open_any-IsAccepting :
        (o : SqliteOptions) → IsAccepting (if o.memory then open_memory p b o else open_file p b o)
    open_any-IsAccepting o = elim (Bool-cases o.memory) [
      | inl m ↦ rw m (open_memory-IsAccepting o)
      | inr m ↦ rw m (open_file-IsAccepting o)
    ]

    connect_sqlite-IsEarly : (o : SqliteOptions) → IsEarly (connect_sqlite p b o)
    unfolding connect_sqlite
    connect_sqlite-IsEarly o = IsEarly-lift (validate_sqlite p.same_path o) _ λ u.
        IsEarly-lift
          (refuse_if (o.memory && is_several b.max_connections)
            "in-memory SQLite requires one query connection")
          _ λ v. IsEarly-accepting (open_any-IsAccepting o)

    connect_postgres-IsEarly : (o : PostgresOptions) → IsEarly (connect_postgres p b o)
    unfolding connect_postgres
    connect_postgres-IsEarly o = IsEarly-lift (validate_postgres o) _ λ u.
        IsEarly-lift
          (refuse_if (any p.var_os inherited)
            "inherited PGOPTIONS or TLS certificate environment is unsupported; use explicit options")
          _
          λ v. IsEarly-accepting (
            IsAccepting-open (
              Open.postgres_pool (pg_connect p o) (unwrap_or 5 b.max_connections)
                b.acquire_timeout))

    connect_to-IsEarly : (o : ConnectOptions) → IsEarly (connect_to p b o)
    connect_to-IsEarly (ConnectOptions.sqlite_options o) =
        IsEarly-map (connect_sqlite p b o) (λ keeper. (Backend.sqlite, keeper))
          (connect_sqlite-IsEarly o)
    connect_to-IsEarly (ConnectOptions.postgres_options o) =
        IsEarly-map (connect_postgres p b o) (λ u. (Backend.postgres, none))
          (connect_postgres-IsEarly o)

  -- If `connect` fails with a configuration error, then it has opened nothing, and has counted no
  -- database in memory.
  pub connect-refused :
      (b : DatabaseBuilder) (options : Result ConnectOptions) (s : Opening) (reason : Text)
      → (connect p b options s).0 ≡ raised (Error.configuration reason)
      → (connect p b options s).1 ≡ s
  unfolding connect
  connect-refused b options s reason e =
      (IsEarly-lift options (λ given. lift (check_builder p b) >> connect_to p b given)
          λ given.
            IsEarly-lift (check_builder p b) (λ u. connect_to p b given)
              λ u. connect_to-IsEarly b given).early
        s reason e

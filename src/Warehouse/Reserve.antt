-- ===== src/Warehouse/Reserve.antt =====
-- consumers/warehouse/src/lib.rs, `Warehouse::reserve`: what a reservation does to its transaction.
use sqly.Scoped.Buffered.{scoped}
use sqly.Sql.{text_for}
use sqly.Driver.{postgres_argument, sqlite_argument}
use sqly.Sqlx.Sends.{Outcome-cases}
use sqly.Shared.{
  Bool-cases, ℕ, [], ◌∷◌, ◌≡◌, ◌∙◌, ap, refl, sym, none, true, false, inl, inr, arith,
}
use sqly.Shared.Int.{ℤ, ltb_ℤ}
use sqly.Foreign.{Foreign}
use sqly.Error.{Error}
use sqly.Value.{variant, validate, encode_value, Value, into_value}
use sqly.Row.{Backend}
use sqly.Query.{bind, new_query, Query, in_transaction, fetch_one, execute}
use sqly.Query.Trace.{Executes, execute-trace, fetch_one-trace, >>=-returned}
use sqly.Driver.Trace.{Event, trace, executed}
use sqly.Transaction.{Transaction}
use sqly.Sqlx.{pure, Io, Outcome, Server, returned}
use sqly.Scoped.Enter.{Ending}
use sqly.Scoped.Work.{Work, perform, work_of, ◌>>=◌}
use sqly.Warehouse.Items.{
  encode_sku, Sku, Stock, ReserveError, insert, select_stock, take_stock, insert_reservation,
  stock_from_row, select_text, update_text, insert_text,
}
use sqly.Warehouse.Defs.{reservation, taken}

work_of-succeeded :
    {E A : Type 0} (from : Error → E) (r : Outcome A) (a : A)
    → work_of from r ≡ Ending.succeeded a
    → r ≡ returned a
work_of-succeeded from r a h = ground arith

-- A chain that succeeds succeeds at each of its two steps.
>>=-succeeded :
    {E S A B : Type 0} (from : Error → E) (m : Io S A) (f : A → Work E S B) (s : S) (b : B)
    → ((perform from m >>= f) s).0 ≡ Ending.succeeded b
    → (a : A) × ((m s).0 ≡ returned a)
      × ((f a (m s).1).0 ≡ Ending.succeeded b)
      × (((perform from m >>= f) s).1 ≡ (f a (m s).1).1)
>>=-succeeded from m f s b h = elim (Outcome-cases (m s).0) [
  | inl (a, e) ↦ (a, e, ground arith, ground arith)
  | inr (inl (x, e)) ↦ absurd (ground arith)
  | inr (inr e) ↦ absurd (ground arith)
]

module _ {F : Foreign} (sku : Sku) where
  abbrev words : Value F
  words = Value.text sku.text

  -- What each statement is executed with, on either backend.
  abbrev pub selected : Event F
  selected = Event.statement select_text (words ∷ [])

  abbrev pub updated : ℤ → Event F
  updated quantity = Event.statement update_text (Value.i64 quantity ∷ words ∷ [])

  abbrev pub inserted : ℤ → ℤ → Event F
  inserted id quantity =
      Event.statement insert_text (Value.i64 id ∷ words ∷ Value.i64 quantity ∷ [])

-- The query is bound, and this is what it executes on either backend.
record Gives {F : Foreign} (q : Query F) (event : Event F) : Type 0 where
  pub bound : q.error ≡ none
  pub on_sqlite : executed q.sql.sqlite Backend.sqlite q.values ≡ event
  pub on_postgres : executed q.sql.postgres Backend.postgres q.values ≡ event

given-event :
    {F : Foreign} {q : Query F} {event : Event F} (b : Backend)
    → Gives q event
    → executed (text_for b q.sql) b q.values ≡ event
given-event Backend.sqlite g = g.on_sqlite
given-event Backend.postgres g = g.on_postgres

module _ {F : Foreign} (sku : Sku) where
  select_stock-Gives : Gives (select_stock F sku) (selected sku)
  unfolding select_stock scoped new_query bind encode_value encode_sku into_value validate variant
      sqlite_argument postgres_argument
  select_stock-Gives = record { bound = refl; on_sqlite = refl; on_postgres = refl }

  take_stock-Gives : (quantity : ℤ) → Gives (take_stock F quantity sku) (updated sku quantity)
  unfolding take_stock scoped new_query bind encode_value encode_sku into_value validate variant
      sqlite_argument postgres_argument
  take_stock-Gives quantity = record { bound = refl; on_sqlite = refl; on_postgres = refl }

  insert_reservation-Gives :
      (id quantity : ℤ) → Gives (insert_reservation F id sku quantity) (inserted sku id quantity)
  unfolding insert_reservation scoped new_query bind encode_value encode_sku into_value validate
      variant sqlite_argument postgres_argument
  insert_reservation-Gives id quantity = record {
    bound = refl;
    on_sqlite = refl;
    on_postgres = refl;
  }

module _ {F : Foreign} (S : Server F) where
  Executes-trace :
      {q : Query F} {event : Event F} (t t' : Transaction F)
      → Gives q event
      → Executes S q t t'
      → trace t'.world.log ≡ event ∷ trace t.world.log
  Executes-trace t t' g sent =
      sent.0 ∙ ap (λ event. event ∷ trace t.world.log) (given-event t.backend g)

  execute-event :
      {q : Query F} {event : Event F} (t : Transaction F) (n : ℕ)
      → Gives q event
      → (execute (in_transaction S q) t).0 ≡ returned n
      → trace (execute (in_transaction S q) t).1.world.log ≡ event ∷ trace t.world.log
  execute-event {q} t n g h =
      Executes-trace t (execute (in_transaction S q) t).1 g (execute-trace S q t n g.bound h)

module _ {F : Foreign} (S : Server F) (id : ℤ) (sku : Sku) (quantity : ℤ) where
  abbrev pub selecting : Io (Transaction F) Stock
  selecting = fetch_one (in_transaction S (select_stock F sku)) (stock_from_row F)

  selecting-trace :
      (t : Transaction F) (stock : Stock)
      → (selecting t).0 ≡ returned stock
      → trace (selecting t).1.world.log ≡ selected sku ∷ trace t.world.log
  selecting-trace t stock h =
      let g = select_stock-Gives sku in
      Executes-trace S t (selecting t).1 g
        (fetch_one-trace S (stock_from_row F) (select_stock F sku) t stock g.bound h)

  insert-trace :
      (t : Transaction F)
      → (insert (in_transaction S) id sku quantity t).0 ≡ returned tt
      → trace (insert (in_transaction S) id sku quantity t).1.world.log
        ≡ inserted sku id quantity ∷ trace t.world.log
  unfolding insert
  insert-trace t h =
      let q = insert_reservation F id sku quantity in
      let (n, ran, rest, same) =
        >>=-returned (execute (in_transaction S q)) (λ n. pure tt) t tt h in
      rw same (execute-event S t n (insert_reservation-Gives sku id quantity) ran)

  taken-trace :
      (stock : Stock) (t : Transaction F)
      → (taken (in_transaction S) id sku quantity stock t).0 ≡ Ending.succeeded tt
      → (ltb_ℤ stock.available quantity ≡ false)
        × (trace (taken (in_transaction S) id sku quantity stock t).1.world.log
            ≡ inserted sku id quantity ∷ updated sku quantity ∷ trace t.world.log)
  unfolding taken
  taken-trace stock t h = elim (Bool-cases (ltb_ℤ stock.available quantity)) [
    | inl short ↦ absurd (ground arith)
    | inr enough ↦
        let q = take_stock F quantity sku in
        let after = insert (in_transaction S) id sku quantity in
        let (n, ran, rest, same) =
          >>=-succeeded ReserveError.database (execute (in_transaction S q))
            (λ n. perform ReserveError.database after) t tt (ground arith) in
        let inserted_at = insert-trace (execute (in_transaction S q) t).1 (
          work_of-succeeded ReserveError.database (after (execute (in_transaction S q) t).1).0 tt
            rest) in
        let whole : taken (in_transaction S) id sku quantity stock t
            ≡ (perform ReserveError.database (execute (in_transaction S q)) >>= λ n.
                  perform ReserveError.database after)
                t =
          rw (enough, taken) refl in
        (
          enough,
          ap (λ (r : Ending ReserveError (Unit {0}) × Transaction F). trace r.1.world.log) whole
              ∙ ap (λ (u : Transaction F). trace u.world.log) same
              ∙ inserted_at
              ∙ ap (λ events. inserted sku id quantity ∷ events)
                  (execute-event S t n (take_stock-Gives sku quantity) ran),
        )
  ]

  -- A reservation that succeeds on a transaction has found a stock that is enough, and has executed
  -- its three statements, in order and nothing else.
  pub reservation-trace :
      (t : Transaction F)
      → (reservation (in_transaction S) id sku quantity t).0 ≡ Ending.succeeded tt
      → (stock : Stock) × ((selecting t).0 ≡ returned stock)
        × (ltb_ℤ stock.available quantity ≡ false)
        × (trace (reservation (in_transaction S) id sku quantity t).1.world.log
            ≡ inserted sku id quantity ∷ updated sku quantity ∷ selected sku ∷ trace t.world.log)
  unfolding reservation
  reservation-trace t h =
      let (stock, found, rest, same) =
        >>=-succeeded ReserveError.database selecting (taken (in_transaction S) id sku quantity) t
          tt h in
      let (enough, sent) = taken-trace stock (selecting t).1 rest in
      (
        stock,
        found,
        enough,
        ap (λ (u : Transaction F). trace u.world.log) same
            ∙ sent
            ∙ ap (λ events. inserted sku id quantity ∷ updated sku quantity ∷ events)
                (selecting-trace t stock found),
      )

  taken-short :
      (stock : Stock) (t : Transaction F)
      → (taken (in_transaction S) id sku quantity stock t).0
        ≡ Ending.failed ReserveError.insufficient_stock
      → (ltb_ℤ stock.available quantity ≡ true)
        × ((taken (in_transaction S) id sku quantity stock t).1 ≡ t)
  unfolding taken
  taken-short stock t h = elim (Bool-cases (ltb_ℤ stock.available quantity)) [
    | inl short ↦ (short, rw (short, taken) refl)
    | inr enough ↦ absurd (ground arith)
  ]

  -- A reservation fails for its stock only if the stock that it has read is too little; it has
  -- executed its SELECT, and nothing else.
  pub reservation-short :
      (t : Transaction F)
      → (reservation (in_transaction S) id sku quantity t).0
        ≡ Ending.failed ReserveError.insufficient_stock
      → (stock : Stock) × ((selecting t).0 ≡ returned stock)
        × (ltb_ℤ stock.available quantity ≡ true)
        × (trace (reservation (in_transaction S) id sku quantity t).1.world.log
            ≡ selected sku ∷ trace t.world.log)
  unfolding reservation
  reservation-short t h = elim (Outcome-cases (selecting t).0) [
    | inl (stock, found) ↦
        let same : reservation (in_transaction S) id sku quantity t
            ≡ taken (in_transaction S) id sku quantity stock (selecting t).1 =
          ground arith in
        let (short, kept) =
          taken-short stock (selecting t).1
            (ap (λ (x : Ending ReserveError (Unit {0}) × Transaction F). x.0) (sym same) ∙ h) in
        (
          stock,
          found,
          short,
          ap (λ (x : Ending ReserveError (Unit {0}) × Transaction F). trace x.1.world.log) same
              ∙ ap (λ (u : Transaction F). trace u.world.log) kept
              ∙ selecting-trace t stock found,
        )
    | inr (inl (x, e)) ↦ absurd (ground arith)
    | inr (inr e) ↦ absurd (ground arith)
  ]

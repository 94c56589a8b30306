-- ===== src/Lock/Builder.antt =====
-- src/lock.rs: a lock that was built without an error is well formed, and holds the given keys.
use sqly.Shared.{
  subst, ℕ, ◌+◌, ◌≡◌, refl, sym, ap, ◌∙◌, Bool, true, false, Option, none, some, List, [], ◌∷◌,
  ◌++◌, map, arith, All, All-append, length,
}
use mathlib.Core.List.{append-nil, map-append, append_assoc}
use sqly.Shared.Bytes.{Text, eq_text, eq_text_iff}
use sqly.Error.{Error, Result, ok, err, at_parameter}
use sqly.Value.{Foreign, Value, is_null}
use sqly.Lock.Defs.{statement, Lock, identifier, new_row, has_column, key_value, key}

module _ (F : Foreign) where
  abbrev pub IsKey : Text × Value F → Type 0
  IsKey k = (identifier k.0 ≡ ok tt) × (is_null F k.1 ≡ false)

  abbrev pub IsDistinct : List (Text × Value F) → Type 0
  IsDistinct [] = Unit
  IsDistinct (k ∷ ks) = (has_column F k.0 ks ≡ false) × IsDistinct ks

  -- What the code relies on when it writes the SQL.
  pub record IsWellFormed (lock : Lock F) : Type 0 where
    pub named : identifier lock.table ≡ ok tt
    pub keyed : All IsKey lock.keys
    pub distinct : IsDistinct lock.keys

  -- `Lock::row(table).key(c, v).key(c', v')…`
  abbrev pub add_keys : Lock F → List (Text × Result (Value F)) → Lock F
  add_keys lock [] = lock
  add_keys lock ((column, encoded) ∷ given) = add_keys (key F lock column encoded) given

  abbrev pub build : Text → List (Text × Result (Value F)) → Lock F
  build table given = add_keys (new_row F table) given

  eq_text-sym : (s t : Text) → eq_text s t ≡ false → eq_text t s ≡ false
  eq_text-sym s t h = ground (arith, eq_text_iff s t, eq_text_iff t s)

  has_column-append :
      (c d : Text) (v : Value F) (ks : List (Text × Value F))
      → has_column F d ks ≡ false
      → eq_text c d ≡ false
      → has_column F d (ks ++ (c, v) ∷ []) ≡ false
  has_column-append c d v [] h e = ground arith
  has_column-append c d v (k ∷ ks) h e = ground (arith, has_column-append c d v ks)

  append-IsDistinct :
      (c : Text) (v : Value F) (ks : List (Text × Value F))
      → has_column F c ks ≡ false
      → IsDistinct ks
      → IsDistinct (ks ++ (c, v) ∷ [])
  append-IsDistinct c v [] h d = (refl, tt)
  append-IsDistinct c v (k ∷ ks) h d =
      ground (arith, has_column-append c k.0 v ks d.0, eq_text-sym k.0 c, append-IsDistinct c v ks)

  -- A key that is accepted was encoded, is new and not null, and is put last.
  abbrev Accepted : Lock F → Text → Result (Value F) → Type 0
  Accepted lock column encoded =
      (v : Value F) × (encoded ≡ ok v)
      × (identifier column ≡ ok tt)
      × (is_null F v ≡ false)
      × (has_column F column lock.keys ≡ false)
      × (lock.error ≡ none)
      × (key F lock column encoded ≡ record lock { keys = lock.keys ++ (column, v) ∷ [] })

  pub key-Accepted :
      (lock : Lock F) (column : Text) (encoded : Result (Value F))
      → (key F lock column encoded).error ≡ none
      → Accepted lock column encoded
  unfolding key key_value
  key-Accepted lock column (ok v) h =
      (v, refl, ground arith, ground arith, ground arith, ground arith, ground arith)
  key-Accepted lock column (err e) h = absurd (ground arith)

  accepted-IsWellFormed :
      (lock : Lock F) (column : Text) (v : Value F)
      → IsWellFormed lock
      → IsKey (column, v)
      → has_column F column lock.keys ≡ false
      → IsWellFormed (record lock { keys = lock.keys ++ (column, v) ∷ [] })
  accepted-IsWellFormed lock column v w k fresh = record {
    named = w.named;
    keyed = All-append IsKey lock.keys ((column, v) ∷ []) w.keyed (k, tt);
    distinct = append-IsDistinct column v lock.keys fresh w.distinct;
  }

  -- The keys of a lock, as they were given to the builder.
  abbrev pub given_keys : List (Text × Value F) → List (Text × Result (Value F))
  given_keys = map (λ (k : Text × Value F). (k.0, ok k.1))

  abbrev Built : Lock F → List (Text × Result (Value F)) → Lock F → Type 0
  Built lock given built =
      IsWellFormed built
      × (given_keys built.keys ≡ given_keys lock.keys ++ given)
      × (built.table ≡ lock.table)

  add_keys-error :
      (lock : Lock F) (given : List (Text × Result (Value F)))
      → (add_keys lock given).error ≡ none
      → lock.error ≡ none
  add_keys-error lock [] h = h
  add_keys-error lock ((column, encoded) ∷ given) h =
      (key-Accepted lock column encoded (add_keys-error (key F lock column encoded) given h)).5

  add_keys-Built :
      (lock : Lock F) (given : List (Text × Result (Value F)))
      → IsWellFormed lock
      → (add_keys lock given).error ≡ none
      → Built lock given (add_keys lock given)
  add_keys-Built lock [] w h = (w, sym (append-nil _), refl)
  add_keys-Built lock ((column, encoded) ∷ given) w h =
      let next = key F lock column encoded in
      let accepted = key-Accepted lock column encoded (add_keys-error next given h) in
      let grown : Lock F = record lock { keys = lock.keys ++ (column, accepted.0) ∷ [] } in
      let same : next ≡ grown = accepted.6 in
      let valid =
        accepted-IsWellFormed lock column accepted.0 w (accepted.2, accepted.3) accepted.4 in
      let rest = add_keys-Built next given (subst IsWellFormed (sym same) valid) h in
      let keys : given_keys next.keys ++ given
          ≡ given_keys lock.keys ++ ((column, encoded) ∷ given) =
        rw (same, accepted.1, map-append, append_assoc) in
      (rest.0, rest.1 ∙ keys, rest.2 ∙ ap (λ (l : Lock F). l.table) same)

  -- A lock that was built without an error has a valid table name, and exactly the given keys in
  -- the given order, each encoded; their columns are valid names, no two are equal, none is NULL.
  pub build-IsWellFormed :
      (table : Text) (given : List (Text × Result (Value F)))
      → (build table given).error ≡ none
      → IsWellFormed (build table given)
        × (given_keys (build table given).keys ≡ given)
        × ((build table given).table ≡ table)
  unfolding new_row
  build-IsWellFormed table given h =
      add_keys-Built (new_row F table) given
        (record {
          named = ground (arith, add_keys-error (new_row F table) given h);
          keyed = tt;
          distinct = tt;
        })
        h

  key-fails :
      (lock : Lock F) (column : Text) (encoded : Result (Value F)) (e : Error)
      → lock.error ≡ some e
      → key F lock column encoded ≡ lock
  unfolding key
  key-fails lock column encoded e h = ground arith

  -- The first error of a builder stays: any keys given afterwards leave the lock as it is.
  pub add_keys-first_error :
      (lock : Lock F) (given : List (Text × Result (Value F))) (e : Error)
      → lock.error ≡ some e
      → add_keys lock given ≡ lock
  add_keys-first_error lock [] e h = refl
  add_keys-first_error lock ((column, encoded) ∷ given) e h =
      rw (key-fails lock column encoded e h) (add_keys-first_error lock given e h)

-- The errors of a selector: an invalid one, and a key that does not encode.
abbrev pub is_lock_error : Error → Bool
is_lock_error (Error.invalid_lock reason) = true
is_lock_error (Error.encode_failed parameter c) = true
is_lock_error e = false

abbrev AllLockErrors : Option Error → Type 0
AllLockErrors none = Unit
AllLockErrors (some e) = is_lock_error e ≡ true

at_parameter-encode : (p : ℕ) (e : Error) → is_lock_error (at_parameter p e) ≡ true
unfolding at_parameter
at_parameter-encode p (Error.encode_failed q c) = refl
at_parameter-encode p e = refl

module _ (F : Foreign) where
  key-AllLockErrors :
      (lock : Lock F) (column : Text) (encoded : Result (Value F))
      → AllLockErrors lock.error
      → AllLockErrors (key F lock column encoded).error
  unfolding key key_value
  key-AllLockErrors lock column (ok v) h = ground arith
  key-AllLockErrors lock column (err e) h =
      ground (arith, at_parameter-encode (length lock.keys + 1) e)

  add_keys-AllLockErrors :
      (lock : Lock F) (given : List (Text × Result (Value F)))
      → AllLockErrors lock.error
      → AllLockErrors (add_keys F lock given).error
  add_keys-AllLockErrors lock [] h = h
  add_keys-AllLockErrors lock ((column, encoded) ∷ given) h =
      add_keys-AllLockErrors (key F lock column encoded) given
        (key-AllLockErrors lock column encoded h)

  -- A lock from the builder turns into SQL, or fails as an invalid selector or as a key that does
  -- not encode.
  pub statement-is_lock_error :
      (table : Text) (given : List (Text × Result (Value F))) (postgres : Bool) (e : Error)
      → statement F (build F table given) postgres ≡ err e
      → is_lock_error e ≡ true
  unfolding statement new_row
  statement-is_lock_error table given postgres e h =
      ground (arith, add_keys-AllLockErrors (new_row F table) given (ground arith))

-- ===== src/Options/Parsing.antt =====
-- src/options.rs, `from_str`: the settings that a URL gives, and what its errors say.

use sqly.Shared.{
  ◌∙◌, Bool-cases, inl, inr, All, if◌then◌else◌, arith, List, [], ◌∷◌, Option, none, some, ◌≡◌, ◌⊎◌,
  true, false, Bool,
}
use Prim.Native.String.{String}
use sqly.Shared.Bytes.{eq_text, eq_text_iff, bytes, Text}
use sqly.Shared.{◌⊎◌, ◌≡◌, List, Bool, Option, [], none, some, true, false, refl}
use sqly.Error.{◌>>◌, ok, >>=-eq-ok}
use sqly.Options.Defs.{PostgresOptions, TlsMode, refuse_if}
use sqly.Options.Url.{has_text, apply_pair, postgres_pairs, tls_of}

-- The value of a key, by its first pair.
abbrev pub find : Text → List (Text × Text) → Option Text
find key [] = none
find key ((k, v) ∷ pairs) = let rest = find key pairs in if eq_text k key then some v else rest

abbrev pub text_or : Text → Option Text → Text
text_or t none = t
text_or t (some v) = v

abbrev pub path_or : Option Text → Option Text → Option Text
path_or t none = t
path_or t (some v) = some v

abbrev pub mode_or : TlsMode → Option TlsMode → TlsMode
mode_or t none = t
mode_or t (some v) = v

abbrev pub tls_or : TlsMode → Option Text → TlsMode
tls_or t none = t
tls_or t (some v) = mode_or t (tls_of v)

-- No key is given twice.
abbrev pub IsOnce : List (Text × Text) → Type 0
IsOnce [] = Unit
IsOnce ((k, v) ∷ pairs) = (find k pairs ≡ none) × IsOnce pairs

abbrev pub IsKnown : Text × Text → Type 0
IsKnown p = (p.0 ≡ bytes "sslmode") ⊎ (p.0 ≡ bytes "sslrootcert") ⊎ (p.0 ≡ bytes "application_name")

refuse_if-eq_ok : (b : Bool) (reason : String) → refuse_if b reason ≡ ok tt → b ≡ false
refuse_if-eq_ok true reason h = cc
refuse_if-eq_ok false reason h = refl

-- What one round of the loop over the pairs has done.
record Round (seen : List Text) (o next : PostgresOptions) (key value : Text) : Type 0 where
  pub fresh : has_text key seen ≡ false
  pub applied : apply_pair key value o ≡ ok next

round :
    (seen : List Text) (o o' : PostgresOptions) (key value : Text) (pairs : List (Text × Text))
    → postgres_pairs seen o ((key, value) ∷ pairs) ≡ ok o'
    → (next : PostgresOptions) × Round seen o next key value
      × (postgres_pairs (key ∷ seen) next pairs ≡ ok o')
unfolding postgres_pairs
round seen o o' key value pairs h =
    let later =
      >>=-eq-ok
        (refuse_if (has_text key seen) "duplicate PostgreSQL URL option" >> apply_pair key value o)
        _ h in
    let now =
      >>=-eq-ok (refuse_if (has_text key seen) "duplicate PostgreSQL URL option") _ later.1 in
    (
      later.0,
      record {
        fresh = refuse_if-eq_ok (has_text key seen) "duplicate PostgreSQL URL option" now.1;
        applied = now.2;
      },
      later.2,
    )

seen-absent :
    (seen : List Text) (o o' : PostgresOptions) (pairs : List (Text × Text)) (key : Text)
    → postgres_pairs seen o pairs ≡ ok o'
    → has_text key seen ≡ true
    → find key pairs ≡ none
seen-absent seen o o' [] key h m = refl
seen-absent seen o o' ((k, v) ∷ pairs) key h m =
    let (next, now, later) = round seen o o' k v pairs h in
    ground (arith, eq_text_iff k key, now.fresh, seen-absent (k ∷ seen) next o' pairs key later)

-- The settings behind the loop, by the first pair of each key.
abbrev pub with_pairs : PostgresOptions → List (Text × Text) → PostgresOptions
with_pairs o pairs = record o {
  tls = tls_or o.tls (find (bytes "sslmode") pairs);
  root_cert = path_or o.root_cert (find (bytes "sslrootcert") pairs);
  application_name = text_or o.application_name (find (bytes "application_name") pairs);
}

-- What one accepted pair sets.
abbrev Sets : PostgresOptions → PostgresOptions → Text → Text → Type 0
Sets o next key value =
    ((key ≡ bytes "sslmode") × (next ≡ record o { tls = tls_or o.tls (some value) }))
    ⊎ ((key ≡ bytes "sslrootcert") × (next ≡ record o { root_cert = some value }))
    ⊎ ((key ≡ bytes "application_name") × (next ≡ record o { application_name = value }))

apply_pair-Sets :
    (o next : PostgresOptions) (key value : Text)
    → apply_pair key value o ≡ ok next
    → Sets o next key value
apply_pair-Sets o next key value h = elim (Bool-cases (eq_text key (bytes "sslmode"))) [
  | inl tls ↦ inl ((eq_text_iff key (bytes "sslmode")).0 tls, ground arith)
  | inr a ↦ elim (Bool-cases (eq_text key (bytes "sslrootcert"))) [
    | inl cert ↦ inr (inl ((eq_text_iff key (bytes "sslrootcert")).0 cert, ground arith))
    | inr b ↦ elim (Bool-cases (eq_text key (bytes "application_name"))) [
      | inl name ↦ inr (inr ((eq_text_iff key (bytes "application_name")).0 name, ground arith))
      | inr c ↦ absurd (ground arith)
    ]
  ]
]

abbrev Adds : PostgresOptions → PostgresOptions → Text → Text → List (Text × Text) → Type 0
Adds o next key value pairs =
    IsKnown (key, value) × (with_pairs next pairs ≡ with_pairs o ((key, value) ∷ pairs))

Sets-Adds :
    (o next : PostgresOptions) (key value : Text) (pairs : List (Text × Text))
    → Sets o next key value
    → find key pairs ≡ none
    → Adds o next key value pairs
Sets-Adds o next key value pairs (inl (k, n)) once =
    let later : find (bytes "sslmode") pairs ≡ none = rw k at once in
    (inl k, rw (k, n) (ground (arith, later)))
Sets-Adds o next key value pairs (inr (inl (k, n))) once =
    let later : find (bytes "sslrootcert") pairs ≡ none = rw k at once in
    (inr (inl k), rw (k, n) (ground (arith, later)))
Sets-Adds o next key value pairs (inr (inr (k, n))) once =
    let later : find (bytes "application_name") pairs ≡ none = rw k at once in
    (inr (inr k), rw (k, n) (ground (arith, later)))

-- The pairs of an accepted URL: each key is known and given once, and the order does not matter.
pub postgres_pairs_lem :
    (seen : List Text) (o o' : PostgresOptions) (pairs : List (Text × Text))
    → postgres_pairs seen o pairs ≡ ok o'
    → IsOnce pairs × All IsKnown pairs × (o' ≡ with_pairs o pairs)
unfolding postgres_pairs
postgres_pairs_lem seen o o' [] h = ground arith
postgres_pairs_lem seen o o' ((k, v) ∷ pairs) h =
    let (next, now, later) = round seen o o' k v pairs h in
    let ih = postgres_pairs_lem (k ∷ seen) next o' pairs later in
    let once : find k pairs ≡ none =
      seen-absent (k ∷ seen) next o' pairs k later (ground (arith, eq_text_iff k k)) in
    let added = Sets-Adds o next k v pairs (apply_pair-Sets o next k v now.applied) once in
    ((once, ih.0), (added.0, ih.1), ih.2 ∙ added.1)

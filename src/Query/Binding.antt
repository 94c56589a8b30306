-- ===== src/Query/Binding.antt =====
-- src/query.rs, `bind`: the bindings are kept in order up to the first that does not encode.
use mathlib.Core.List.{append_assoc, append-nil}
use sqly.Value.{Value}
use sqly.Sql.{Sql}
use sqly.Foreign.{Foreign}
use sqly.Shared.{
  length-append, ◌∙◌, ◌+◌, length, ◌++◌, ◌∷◌, Option, ◌≡◌, ℕ, List, [], none, some, suc, refl,
  arith,
}
use sqly.Error.{Error, Result, ok, err, at_parameter}
use sqly.Query.Defs.{Query, bind, bind_all, new_query}

module _ {F : Foreign} where
  -- The values in front of the first failure.
  abbrev pub encoded_prefix : List (Result (Value F)) → List (Value F)
  encoded_prefix [] = []
  encoded_prefix (ok v ∷ given) = v ∷ encoded_prefix given
  encoded_prefix (err e ∷ given) = []

  -- The first failure, at the number of its parameter; the first one has number `n`.
  abbrev pub first_failure : ℕ → List (Result (Value F)) → Option Error
  first_failure n [] = none
  first_failure n (ok v ∷ given) = first_failure (suc n) given
  first_failure n (err e ∷ given) = some (at_parameter n e)

  bind-keeps :
      (q : Query F) (given : List (Result (Value F))) (e : Error)
      → q.error ≡ some e
      → bind_all q given ≡ q
  unfolding bind
  bind-keeps q [] e h = refl
  bind-keeps q (r ∷ given) e h =
      let same : bind q r ≡ q = ground arith in rw same (bind-keeps q given e h)

  bind_all-eq :
      (sql : Sql) (bound : List (Value F)) (given : List (Result (Value F)))
      → bind_all (record { sql = sql; values = bound; error = none }) given ≡ record {
        sql = sql;
        values = bound ++ encoded_prefix given;
        error = first_failure (length bound + 1) given;
      }
  unfolding bind
  bind_all-eq sql bound [] = rw append-nil
  bind_all-eq sql bound (ok v ∷ given) =
      let longer : length (bound ++ v ∷ []) + 1 ≡ suc (length bound + 1) =
        omega (arith, length-append bound (v ∷ [])) in
      bind_all-eq sql (bound ++ v ∷ []) given
      ∙ rw (append_assoc bound (v ∷ []) (encoded_prefix given), longer)
  bind_all-eq sql bound (err e ∷ given) =
      bind-keeps
        (record { sql = sql; values = bound; error = some (at_parameter (length bound + 1) e) })
        given (at_parameter (length bound + 1) e) refl
      ∙ rw append-nil

  -- A query keeps its SQL; it has the encoded values up to the first that does not encode, in order,
  -- and the error of that one under the number of its parameter, counted from one.
  pub bind_all_lem :
      (sql : Sql) (given : List (Result (Value F)))
      → bind_all (new_query sql) given
        ≡ record { sql = sql; values = encoded_prefix given; error = first_failure 1 given }
  unfolding new_query
  bind_all_lem sql given = bind_all-eq sql [] given

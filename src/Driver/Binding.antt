-- ===== src/Driver/Binding.antt =====
-- src/driver.rs, `sqlite_arguments` and `postgres_arguments`: what is bound, and which parameter an
-- error names.
use sqly.Value.{is_null, kind_of, Kind, Value}
use sqly.Row.{Backend}
use sqly.Sqlx.{Server}
use sqly.Foreign.{Foreign}
use sqly.Error.{Cause, Error, >>=-eq-ok, err, ok}
use sqly.Shared.{
  ap, ◌∙◌, ◌+◌, take, All, get_elem?, Option-cases, some, suc, inl, inr, refl, ◌∷◌, map, ◌≡◌, List,
  ℕ, [], none, arith,
}
use sqly.Driver.Arguments.{add, argument, arguments, sqlite_argument}

module _ (F : Foreign) (S : Server F) (b : Backend) where
  -- If every value is taken, all are bound, in their order, each with its type.
  pub arguments-eq_ok :
      (index : ℕ) (values : List (Value F)) (bound : List (Value F) × List Kind)
      → arguments F S b index values ≡ ok bound
      → (bound.0 ≡ map (λ v. (argument F b v).1) values)
        × (bound.1 ≡ map (λ v. (argument F b v).0) values)
  unfolding arguments
  arguments-eq_ok index [] bound h = ground arith
  arguments-eq_ok index (v ∷ values) bound h =
      let head = >>=-eq-ok (add F S index (argument F b v).1) _ h in
      let rest = >>=-eq-ok (arguments F S b (suc index) values) _ head.2 in
      let ih = arguments-eq_ok (suc index) values rest.0 rest.1 in
      ground (arith, ih, head.1, rest.2)

  abbrev IsTaken : Value F → Type 0
  IsTaken v = S.refuses (argument F b v).1 ≡ none

  -- The error `e` of a binding that failed at the parameter of number `index + k + 1`.
  abbrev FailsAt : ℕ → List (Value F) → Error → Type 0
  FailsAt index values e =
      (k : ℕ) × (v : Value F) × (c : Cause) × (get_elem? values k ≡ some v)
      × All IsTaken (take k values)
      × (S.refuses (argument F b v).1 ≡ some c)
      × (e ≡ Error.encode_failed (some (index + k + 1)) c)

  -- If binding fails, the error names the first parameter that is refused, counted from one, and
  -- carries the reason; every parameter before it is taken.
  pub arguments-eq_err :
      (index : ℕ) (values : List (Value F)) (e : Error)
      → arguments F S b index values ≡ err e
      → FailsAt index values e
  unfolding arguments
  arguments-eq_err index [] e h = cc
  arguments-eq_err index (v ∷ values) e h = elim (Option-cases (S.refuses (argument F b v).1)) [
    | inr (c, at_once) ↦ (0, v, c, refl, tt, at_once, ground arith)
    | inl taken ↦
        let f = arguments-eq_err (suc index) values e (ground arith) in
        (
          suc f.0,
          f.1,
          f.2,
          f.3,
          (taken, f.4),
          f.5,
          f.6 ∙ ap (λ (n : ℕ). Error.encode_failed (some n) f.2) (omega arith),
        )
  ]

-- The types that SQLite has.
abbrev pub IsStored : Kind → Type 0
IsStored Kind.uuid = ⊥
IsStored Kind.time = ⊥
IsStored Kind.json = ⊥
IsStored k = Unit

-- On SQLite only texts, integers, Booleans, bytes and floats are bound, under the type of what is
-- bound, and a value is NULL there exactly if it was NULL.
pub sqlite_argument_lem :
    (F : Foreign) (v : Value F)
    → IsStored (sqlite_argument F v).0
      × (kind_of F (sqlite_argument F v).1 ≡ (sqlite_argument F v).0)
      × (is_null F (sqlite_argument F v).1 ≡ is_null F v)
unfolding sqlite_argument
sqlite_argument_lem F (Value.null Kind.text) = (tt, refl, refl)
sqlite_argument_lem F (Value.null k) = ground arith
sqlite_argument_lem F v = ground arith

-- ===== src/Lock/Defs.antt =====
-- src/lock.rs.
use sqly.Shared.{
  ℕ, suc, ◌+◌, Bool, false, not, ◌&&◌, ◌||◌, Option, none, some, List, [], ◌∷◌, ◌++◌, map, length,
  any, all, ltb, leb, ◌==◌, if◌then◌else◌,
}
use sqly.Shared.Bytes.{Text, bytes, eq_text, decimal}
use sqly.Error.{Error, Result, ok, err, ◌>>=◌, ◌>>◌, map_err, at_parameter}
use sqly.Value.{Foreign, Value, is_null}

abbrev pub is_ascii_alphabetic : ℕ → Bool
is_ascii_alphabetic b = (leb b'a' b && leb b b'z') || (leb b'A' b && leb b b'Z')

abbrev pub is_ascii_alphanumeric : ℕ → Bool
is_ascii_alphanumeric b = is_ascii_alphabetic b || (leb b'0' b && leb b b'9')

abbrev pub starts_name : ℕ → Bool
starts_name b = is_ascii_alphabetic b || b == b'_'

abbrev pub continues_name : ℕ → Bool
continues_name b = is_ascii_alphanumeric b || b == b'_'

-- The first byte, and then the rest.
abbrev pub is_simple : Text → Bool
is_simple [] = false
is_simple (b ∷ rest) = starts_name b && all continues_name rest

abbrev pub identifier_reason : Text
identifier_reason = bytes "identifiers must be simple ASCII names of at most 63 bytes"

unfoldable pub identifier : Text → Result (Unit {0})
identifier value =
    if ltb 63 (length value) || not (is_simple value)
    then err (Error.invalid_lock identifier_reason)
    else ok tt

abbrev pub failure {ℓ} : {A : Type ℓ} → Result A → Option Error
failure (ok a) = none
failure (err e) = some e

pub record Lock (F : Foreign) : Type 0 where
  pub table : Text
  pub keys : List (Text × Value F)
  pub error : Option Error

module _ (F : Foreign) where
  unfoldable pub new_row : Text → Lock F
  unfolding identifier
  new_row table = record { table = table; keys = []; error = failure (identifier table) }

  abbrev pub has_column : Text → List (Text × Value F) → Bool
  has_column column keys = any (λ k. eq_text k.0 column) keys

  abbrev not_null : Value F → Result (Value F)
  not_null v = if is_null F v then err (Error.invalid_lock (bytes "NULL key")) else ok v

  -- The closure that `key` runs after the column has passed `identifier`.
  unfoldable pub key_value : Lock F → Text → Result (Value F) → Result (Value F)
  unfolding at_parameter
  key_value lock column encoded =
      if has_column column lock.keys
      then err (Error.invalid_lock (bytes "duplicate key column"))
      else map_err (at_parameter (length lock.keys + 1)) encoded >>= not_null

  abbrev add_key : Lock F → Text → Result (Value F) → Lock F
  add_key lock column (ok value) = record lock { keys = lock.keys ++ (column, value) ∷ [] }
  add_key lock column (err e) = record lock { error = some e }

  unfoldable pub key : Lock F → Text → Result (Value F) → Lock F
  unfolding identifier key_value
  key lock column encoded = elim lock.error [
    | some e ↦ lock
    | none ↦ add_key lock column (identifier column >> key_value lock column encoded)
  ]

  -- The text that the loop of `statement` appends for the keys from `index` on.
  unfoldable pub conditions : ℕ → List (Text × Value F) → Text
  conditions index [] = []
  conditions index ((column, value) ∷ keys) =
      (if index == 0 then [] else bytes " AND ")
      ++ (b'"'
          ∷ (column
              ++ (b'"' ∷ (bytes " = $" ++ (decimal (index + 1) ++ conditions (suc index) keys)))))

  unfoldable pub statement : Lock F → Bool → Result (Text × List (Value F))
  unfolding conditions
  statement lock postgres = elim lock.error [
    | some e ↦ err e
    | none ↦ elim lock.keys [
      | [] ↦ err (Error.invalid_lock (bytes "at least one key is required"))
      | k ∷ ks ↦ ok (
        bytes "SELECT 1 AS sqly_lock_match FROM "
            ++ (b'"'
                ∷ (lock.table
                    ++ (b'"'
                        ∷ (bytes " WHERE "
                            ++ (conditions 0 lock.keys
                                ++ (bytes " LIMIT 2"
                                    ++ (if postgres then bytes " FOR UPDATE" else []))))))),
        map (λ (c : Text × Value F). c.1) lock.keys,
      )
    ]
  ]

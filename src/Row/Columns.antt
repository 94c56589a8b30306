-- ===== src/Row/Columns.antt =====
-- src/row.rs, `unique_column`: the index of the one column of a name.
use sqly.Error.{Result, ok, DecodeKind, invalid, err}
use sqly.Shared.Bytes.{eq_text_iff, eq_text, Text}
use sqly.Shared.{
  sym, subst, [], refl, inr, ap, ◌<◌, inl, Bool-cases, ◌⊎◌, some, get_elem?, suc, if◌then◌else◌,
  ◌+◌, arith, length, ◌∷◌, ◌≡◌, List, ℕ,
}
use sqly.Row.Defs.{positions, only, unique_column}

abbrev pub count : Text → List Text → ℕ
count name [] = 0
count name (n ∷ names) = let rest = count name names in if eq_text n name then suc rest else rest

length-positions :
    (i : ℕ) (name : Text) (names : List Text) → length (positions i name names) ≡ count name names
length-positions i name [] = refl
length-positions i name (n ∷ names) = ground (arith, length-positions (suc i) name names)

-- The first position found is one of the name's.
first-positions :
    (i : ℕ) (name : Text) (names : List Text) (j : ℕ) (rest : List ℕ)
    → positions i name names ≡ j ∷ rest
    → (k : ℕ) × (j ≡ i + k) × (get_elem? names k ≡ some name)
first-positions i name [] j rest h = cc
first-positions i name (n ∷ names) j rest h = elim (Bool-cases (eq_text n name)) [
  | inl same ↦ (0, ground arith, ap some ((eq_text_iff n name).0 same))
  | inr other ↦
      let tail : positions (suc i) name names ≡ j ∷ rest = rw other at h in
      let found = first-positions (suc i) name names j rest tail in
      (suc found.0, omega (arith, found.1), found.2)
]

-- What the number of the columns of a name decides.
abbrev Finds : List Text → Text → Result ℕ → Type 0
Finds names name r =
    ((count name names ≡ 0) × (r ≡ err (invalid DecodeKind.missing_column)))
    ⊎ ((i : ℕ) × (count name names ≡ 1) × (r ≡ ok i) × (get_elem? names i ≡ some name))
    ⊎ ((1 < count name names) × (r ≡ err (invalid DecodeKind.duplicate_column)))

only-Finds :
    (name : Text) (names : List Text) (found : List ℕ)
    → positions 0 name names ≡ found
    → Finds names name (only found)
only-Finds name names [] h = inl (omega (arith, ap length h, length-positions 0 name names), refl)
only-Finds name names (i ∷ []) h =
    let f = first-positions 0 name names i [] h in
    inr (
      inl (
        i,
        omega (arith, ap length h, length-positions 0 name names),
        refl,
        subst (λ k. get_elem? names k ≡ some name) (sym (omega (arith, f.1))) f.2,
      ))
only-Finds name names (i ∷ j ∷ rest) h =
    inr (inr (omega (arith, ap length h, length-positions 0 name names), refl))

-- A name that no column has is missing, a name that several have is a duplicate, and a name that
-- one column has is resolved to the index of a column of that name. There is no other result.
pub unique_column_lem :
    (names : List Text) (name : Text)
    → ((count name names ≡ 0)
        × (unique_column names name ≡ err (invalid DecodeKind.missing_column)))
      ⊎ ((i : ℕ) × (count name names ≡ 1)
          × (unique_column names name ≡ ok i)
          × (get_elem? names i ≡ some name))
      ⊎ ((1 < count name names)
          × (unique_column names name ≡ err (invalid DecodeKind.duplicate_column)))
unfolding unique_column
unique_column_lem names name = only-Finds name names (positions 0 name names) refl

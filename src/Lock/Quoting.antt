-- ===== src/Lock/Quoting.antt =====
-- src/lock.rs, `statement`: the generated SQL names only the validated identifiers.
use sqly.Shared.{
  if◌then◌else◌, ℕ, suc, ◌+◌, ◌≡◌, refl, sym, ap, ◌∙◌, true, false, Option, none, some, List, [],
  ◌∷◌, ◌++◌, map, arith, All, all, ◌==◌,
}
use mathlib.Core.List.{append-nil, append_assoc}
use sqly.Shared.Bytes.{Text, bytes, decimal, IsDigit, decimal-IsDigit}
use sqly.Error.{ok}
use sqly.Value.{Foreign, Value}
use sqly.Lock.Defs.{Lock, identifier, continues_name, is_simple, conditions, statement}
use sqly.Lock.Builder.{IsKey, IsWellFormed}

-- The segments of a text between double quotes, as a tokenizer reads them: outside a segment
-- (`none`), or inside one, with what was read of it.
unfoldable pub scan : Option Text → Text → List Text
scan mode [] = []
scan none (b ∷ s) = elim (b == b'"') [ true ↦ scan (some []) s | false ↦ scan none s ]
scan (some w) (b ∷ s) = elim (b == b'"') [
  | true ↦ w ∷ scan none s
  | false ↦ scan (some (w ++ b ∷ [])) s
]

abbrev pub quoted : Text → List Text
quoted = scan none

abbrev NoQuote : ℕ → Type 0
NoQuote b = (b == b'"') ≡ false

scan-skip : (p s : Text) → All NoQuote p → scan none (p ++ s) ≡ scan none s
unfolding scan
scan-skip [] s h = refl
scan-skip (b ∷ p) s h = ground (arith, scan-skip p s)

scan-word :
    (w p s : Text) → All NoQuote p → scan (some w) (p ++ (b'"' ∷ s)) ≡ (w ++ p) ∷ scan none s
unfolding scan
scan-word w [] s h = rw append-nil
scan-word w (b ∷ p) s h =
    let rest =
      scan-word (w ++ b ∷ []) p s h.1
      ∙ ap (λ (v : Text). v ∷ scan none s) (append_assoc w (b ∷ []) p) in
    ground (arith, rest)

scan-quoted : (p s : Text) → All NoQuote p → scan none (b'"' ∷ (p ++ (b'"' ∷ s))) ≡ p ∷ scan none s
unfolding scan
scan-quoted p s h = scan-word [] p s h

continues-NoQuote : (t : Text) → all continues_name t ≡ true → All NoQuote t
continues-NoQuote [] h = tt
continues-NoQuote (b ∷ t) h = ground (arith, continues-NoQuote t)

simple-NoQuote : (t : Text) → is_simple t ≡ true → All NoQuote t
simple-NoQuote [] h = cc
simple-NoQuote (b ∷ t) h = ground (arith, continues-NoQuote t)

identifier-NoQuote : (t : Text) → identifier t ≡ ok tt → All NoQuote t
unfolding identifier
identifier-NoQuote t h = ground (arith, simple-NoQuote t)

digits-NoQuote : (t : Text) → All IsDigit t → All NoQuote t
digits-NoQuote [] h = tt
digits-NoQuote (b ∷ t) h = (ground arith, digits-NoQuote t h.1)

module _ (F : Foreign) where
  abbrev pub columns : List (Text × Value F) → List Text
  columns = map (λ (k : Text × Value F). k.0)

  abbrev pub values : List (Text × Value F) → List (Value F)
  values = map (λ (k : Text × Value F). k.1)

  scan-conditions :
      (i : ℕ) (ks : List (Text × Value F)) (s : Text)
      → All (IsKey F) ks
      → scan none (conditions F i ks ++ s) ≡ columns ks ++ scan none s
  unfolding conditions
  scan-conditions i [] s h = refl
  scan-conditions i ((c, v) ∷ ks) s h =
      let sep : Text = if i == 0 then [] else bytes " AND " in
      let tail : Text = decimal (i + 1) ++ (conditions F (suc i) ks ++ s) in
      let quiet : All NoQuote sep = ground arith in
      simp append_assoc (
        scan-skip sep (b'"' ∷ (c ++ (b'"' ∷ (bytes " = $" ++ tail)))) quiet
        ∙ scan-quoted c (bytes " = $" ++ tail) (identifier-NoQuote c h.0.0)
        ∙ ap (◌∷◌ c) (
            scan-skip (bytes " = $") tail (ground arith)
            ∙ scan-skip (decimal (i + 1)) (conditions F (suc i) ks ++ s)
                (digits-NoQuote (decimal (i + 1)) (decimal-IsDigit (i + 1)))
            ∙ scan-conditions (suc i) ks s h.1))

  scan-statement :
      (table end : Text) (ks : List (Text × Value F))
      → All NoQuote table
      → All NoQuote end
      → All (IsKey F) ks
      → scan none (
          bytes "SELECT 1 AS sqly_lock_match FROM "
          ++ (b'"' ∷ (table ++ (b'"' ∷ (bytes " WHERE " ++ (conditions F 0 ks ++ end))))))
        ≡ table ∷ columns ks
  unfolding scan
  scan-statement table end ks ht he hk =
      let list : Text = conditions F 0 ks ++ end in
      scan-skip (bytes "SELECT 1 AS sqly_lock_match FROM ")
        (b'"' ∷ (table ++ (b'"' ∷ (bytes " WHERE " ++ list)))) (ground arith)
      ∙ scan-quoted table (bytes " WHERE " ++ list) ht
      ∙ ap (◌∷◌ table) (
          scan-skip (bytes " WHERE ") list (ground arith)
          ∙ scan-conditions 0 ks end hk
          ∙ ap (◌++◌ (columns ks)) (ap (scan none) (sym (append-nil end)) ∙ scan-skip end [] he)
          ∙ append-nil (columns ks))

  abbrev pub for_update : Text
  for_update = bytes " FOR UPDATE"

  abbrev Selects : Lock F → List (Text × Value F) → Text → Type 0
  Selects lock ks sql =
      (statement F lock false ≡ ok (sql, values ks))
      × (statement F lock true ≡ ok (sql ++ for_update, values ks))
      × (quoted sql ≡ lock.table ∷ columns ks)
      × (quoted (sql ++ for_update) ≡ lock.table ∷ columns ks)

  select_text : Text → List (Text × Value F) → Text
  select_text table ks =
      bytes "SELECT 1 AS sqly_lock_match FROM "
      ++ (b'"' ∷ (table ++ (b'"' ∷ (bytes " WHERE " ++ (conditions F 0 ks ++ bytes " LIMIT 2")))))

  statement-Selects :
      (lock : Lock F) (k : Text × Value F) (ks : List (Text × Value F))
      → lock.keys ≡ k ∷ ks
      → lock.error ≡ none
      → IsWellFormed F lock
      → Selects lock lock.keys (select_text lock.table lock.keys)
  unfolding statement select_text
  statement-Selects lock k ks e fine w =
      let table = identifier-NoQuote lock.table w.named in
      (
        ground arith,
        simp append_assoc (ground arith),
        scan-statement lock.table (bytes " LIMIT 2") lock.keys table (ground arith) w.keyed,
        simp append_assoc (
            scan-statement lock.table (bytes " LIMIT 2 FOR UPDATE") lock.keys table (ground arith)
              w.keyed),
      )

  -- A well formed lock with a key, and no error, turns into SQL. In that SQL the quoted names are
  -- the table's and then the columns', in the order of the keys, and no other; the bound values
  -- are the keys' values in the same order. PostgreSQL gets the same text with the row-locking
  -- clause behind it, and the same values.
  pub statement_lem :
      (lock : Lock F) (k : Text × Value F) (ks : List (Text × Value F))
      → lock.keys ≡ k ∷ ks
      → lock.error ≡ none
      → IsWellFormed F lock
      → (sql : Text) × (statement F lock false ≡ ok (sql, values lock.keys))
        × (statement F lock true ≡ ok (sql ++ for_update, values lock.keys))
        × (quoted sql ≡ lock.table ∷ columns lock.keys)
        × (quoted (sql ++ for_update) ≡ lock.table ∷ columns lock.keys)
  statement_lem lock k ks e fine w =
      let s = statement-Selects lock k ks e fine w in
      (select_text lock.table lock.keys, s.0, s.1, s.2, s.3)

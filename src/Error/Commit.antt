-- ===== src/Error/Commit.antt =====
-- src/transaction.rs, `commit_error`: which errors of COMMIT say that nothing was committed.
use sqly.Shared.{
  ◌↔◌, ◌≡◌, ◌≢◌, ◌++◌, ◌+◌, ◌*◌, ◌==◌, ◌<◌, ℕ, zero, suc, All, ap, sym, Bool-cases, Option-cases,
  inl, inr, true, false, some, List, [], ◌∷◌, arith, any, subst, refl, ◌∙◌,
}
use sqly.Shared.Bytes.{Text, bytes, eq_text, eq_text_iff, starts_with, decimal}
use sqly.Error.Defs.{DbError, SqlxError, Cause, Error}
use sqly.Error.Classify.{
  driver, driver_database, commit_error, code_is, one_of, commit_codes, is_refused_commit,
  database_code,
}

-- The codes by which a server says that a transaction has not committed. PostgreSQL: the class of
-- integrity violations, and that of rollbacks without `statement_completion_unknown`. SQLite:
-- SQLITE_BUSY, SQLITE_LOCKED, and SQLITE_CONSTRAINT with its extended codes, for a check (1), a
-- foreign key (3), NOT NULL (5), a primary key (6) and uniqueness (8).
pub data Refuses (code : Text) : Type 0 where
  integrity : (rest : Text) → code ≡ bytes "23" ++ rest → Refuses code
  rollback : (rest : Text) → code ≡ bytes "40" ++ rest → rest ≢ bytes "003" → Refuses code
  busy : code ≡ decimal 5 → Refuses code
  locked : code ≡ decimal 6 → Refuses code
  constraint :
      (extended : ℕ)
      → any (λ n. n == extended) (0 ∷ 1 ∷ 3 ∷ 5 ∷ 6 ∷ 8 ∷ []) ≡ true
      → code ≡ decimal (19 + 256 * extended)
      → Refuses code

-- A driver error that is a database error with such a code.
pub record IsRefusal (e : SqlxError) : Type 0 where
  pub db : DbError
  pub code : Text
  pub database : e ≡ SqlxError.database db
  pub coded : db.code ≡ some code
  pub refuses : Refuses code

starts_with-split : (p c : Text) → starts_with p c ≡ true → (rest : Text) × (c ≡ p ++ rest)
starts_with-split [] c h = (c, refl)
starts_with-split (x ∷ p) [] h = cc
starts_with-split (x ∷ p) (y ∷ c) h =
    let (rest, e) = starts_with-split p c (ground arith) in (rest, ground (arith, e))

one_of-Refuses :
    (texts : List Text) (c : Text) → All Refuses texts → one_of texts c ≡ true → Refuses c
one_of-Refuses [] c h e = cc
one_of-Refuses (t ∷ texts) c (r, rest) e = elim (Bool-cases (eq_text c t)) [
  | inl same ↦ subst Refuses (sym ((eq_text_iff c t).0 same)) r
  | inr other ↦ one_of-Refuses texts c rest (ground (arith, other))
]

commit_codes-Refuses : All Refuses commit_codes
unfolding decimal
commit_codes-Refuses = (
  Refuses.busy refl,
  (
    Refuses.locked refl,
    (
      Refuses.constraint 0 refl refl,
      (
        Refuses.constraint 3 refl refl,
        (
          Refuses.constraint 5 refl refl,
          (
            Refuses.constraint 6 refl refl,
            (Refuses.constraint 8 refl refl, (Refuses.constraint 1 refl refl, tt)),
          ),
        ),
      ),
    ),
  ),
)

-- Class 40 without 40003.
rollback-Refuses :
    (c : Text) → starts_with (bytes "40") c ≡ true → eq_text c (bytes "40003") ≡ false → Refuses c
rollback-Refuses c class other =
    let (rest, e) = starts_with-split (bytes "40") c class in
    Refuses.rollback rest e λ same.
      let known = (eq_text_iff c (bytes "40003")).1 (e ∙ ap (λ r. bytes "40" ++ r) same) in cc

is_refused_commit-Refuses : (c : Text) → is_refused_commit c ≡ true → Refuses c
is_refused_commit-Refuses c h = elim (Bool-cases (starts_with (bytes "23") c)) [
  | inl e ↦ let (rest, split) = starts_with-split (bytes "23") c e in Refuses.integrity rest split
  | inr e ↦ elim (Bool-cases (one_of commit_codes c)) [
    | inl known ↦ one_of-Refuses commit_codes c commit_codes-Refuses known
    | inr unknown ↦
        rollback-Refuses c (ground (arith, h, e, unknown)) (ground (arith, h, e, unknown))
  ]
]

not_extended : (n : ℕ) → 8 < n → any (λ m. m == n) (0 ∷ 1 ∷ 3 ∷ 5 ∷ 6 ∷ 8 ∷ []) ≢ true
not_extended n high = λ h. ground (arith, h)

constraint_code :
    (extended : ℕ)
    → any (λ n. n == extended) (0 ∷ 1 ∷ 3 ∷ 5 ∷ 6 ∷ 8 ∷ []) ≡ true
    → one_of commit_codes (decimal (19 + 256 * extended)) ≡ true
unfolding decimal
constraint_code zero h = refl
constraint_code (suc zero) h = refl
constraint_code (suc (suc zero)) h = cc
constraint_code (suc (suc (suc zero))) h = refl
constraint_code (suc (suc (suc (suc zero)))) h = cc
constraint_code (suc (suc (suc (suc (suc zero))))) h = refl
constraint_code (suc (suc (suc (suc (suc (suc zero)))))) h = refl
constraint_code (suc (suc (suc (suc (suc (suc (suc zero))))))) h = cc
constraint_code (suc (suc (suc (suc (suc (suc (suc (suc zero)))))))) h = refl
constraint_code (suc (suc (suc (suc (suc (suc (suc (suc (suc n))))))))) h =
    absurd (not_extended (suc (suc (suc (suc (suc (suc (suc (suc (suc n))))))))) (omega arith) h)

Refuses-is_refused_commit : (c : Text) → Refuses c → is_refused_commit c ≡ true
unfolding decimal
Refuses-is_refused_commit c (Refuses.integrity rest e) = rw e refl
Refuses-is_refused_commit c (Refuses.rollback rest e n) =
    elim (Bool-cases (eq_text rest (bytes "003"))) [
      | inl same ↦ absurd (n ((eq_text_iff rest (bytes "003")).0 same))
      | inr other ↦ rw e (ground (arith, other))
    ]
Refuses-is_refused_commit c (Refuses.busy e) = rw e refl
Refuses-is_refused_commit c (Refuses.locked e) = rw e refl
Refuses-is_refused_commit c (Refuses.constraint k known e) =
    let listed = constraint_code k known in rw e (ground (arith, listed))

not-commit_unknown-driver : (e : SqlxError) (c : Cause) → driver e ≢ Error.commit_unknown c
unfolding driver driver_database
not-commit_unknown-driver (SqlxError.database db) c = λ h. ground (arith, h)
not-commit_unknown-driver SqlxError.pool_closed c = λ h. cc
not-commit_unknown-driver _ c = λ h. cc

code-IsRefusal : (e : SqlxError) → code_is is_refused_commit (database_code e) ≡ true → IsRefusal e
code-IsRefusal (SqlxError.database db) h = elim (Option-cases db.code) [
  | inl none_given ↦ absurd (ground (arith, h, none_given))
  | inr (c, coded) ↦ record {
    db = db;
    code = c;
    database = refl;
    coded = coded;
    refuses = is_refused_commit-Refuses c (ground (arith, h, coded));
  }
]
code-IsRefusal _ h = cc

IsRefusal-code : (e : SqlxError) → IsRefusal e → code_is is_refused_commit (database_code e) ≡ true
IsRefusal-code e r =
    let refused = Refuses-is_refused_commit r.code r.refuses in rw r.database (rw r.coded refused)

-- A failed COMMIT is reported as unknown, with the driver's error as its cause, exactly when the
-- error is not a database error by whose code a server refuses to commit; and an error that is one
-- is reported as the driver's errors are elsewhere.
pub commit_error_unknown_iff :
    (e : SqlxError)
    → ((commit_error e ≡ Error.commit_unknown (Cause.sqlx e)) ↔ (¬ IsRefusal e))
      × (IsRefusal e → commit_error e ≡ driver e)
unfolding commit_error
commit_error_unknown_iff e = elim (Bool-cases (code_is is_refused_commit (database_code e))) [
  | inl refused ↦ (
    (
      λ u r. not-commit_unknown-driver e (Cause.sqlx e) (ground (arith, refused, u)),
      λ n. absurd (n (code-IsRefusal e refused)),
    ),
    λ r. ground (arith, refused),
  )
  | inr other ↦ (
    (λ u r. let is = IsRefusal-code e r in cc, λ n. ground (arith, other)),
    λ r. let is = IsRefusal-code e r in cc,
  )
]

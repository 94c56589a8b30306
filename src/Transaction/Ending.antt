-- ===== src/Transaction/Ending.antt =====
-- src/transaction.rs, `commit` and `rollback`: when COMMIT is sent, and what becomes of the
-- connection.
use sqly.Error.{Error}
use sqly.Shared.Bytes.{eq_text, Text}
use sqly.Foreign.{Foreign}
use sqly.Shared.{
  ◌⊎◌, first, ◌∷◌, Option, if◌then◌else◌, ◌+◌, ◌≡◌, ℕ, List, [], some, suc, true, false, arith,
}
use sqly.Sqlx.{Outcome, Command, World, Server, returned, raised, cancelled}
use sqly.Driver.{raw_sql}
use sqly.Database.{check_lease}
use sqly.Transaction.Defs.{Transaction, control, commit_text}
use sqly.Transaction.Methods.{commit, rollback}
use sqly.Transaction.Poison.{}

abbrev committing : Text → ℕ → ℕ
committing sql n = if eq_text sql commit_text then suc n else n

module _ {F : Foreign} where
  -- How often a log has asked for COMMIT.
  abbrev pub commits : List (Command F) → ℕ
  commits [] = 0
  commits (Command.raw sql ∷ log) = committing sql (commits log)
  commits (c ∷ log) = commits log

  abbrev pub newest : List (Command F) → Option (Command F)
  newest = first

module _ {F : Foreign} (S : Server F) where
  check_lease-commits : (w : World F) → commits (check_lease S w).1.log ≡ commits w.log
  unfolding check_lease
  check_lease-commits w = ground arith

  -- If `commit` returns, the transaction was not poisoned, COMMIT was sent once, and the connection
  -- goes back to the pool.
  pub commit-returned :
      (t : Transaction F)
      → (commit S t).0 ≡ returned tt
      → (t.aborted ≡ false)
        × (commits (commit S t).1.log ≡ commits t.world.log + 1)
        × (newest (commit S t).1.log ≡ some Command.release)
  unfolding commit control raw_sql
  commit-returned t h = ground (arith, check_lease-commits t.world)

  -- On an unfinished poisoned transaction `commit` fails as aborted or is cancelled, never asks for
  -- COMMIT, and closes the connection.
  pub commit-poisoned :
      (t : Transaction F)
      → t.aborted ≡ true
      → t.finished ≡ false
      → (((commit S t).0 ≡ raised Error.transaction_aborted) ⊎ ((commit S t).0 ≡ cancelled))
        × (commits (commit S t).1.log ≡ commits t.world.log)
        × (newest (commit S t).1.log ≡ some Command.discard)
  unfolding commit control raw_sql
  commit-poisoned t h u = ground arith

  abbrev end_of : Outcome (Unit {0}) → Command F
  end_of (returned a) = Command.release
  end_of r = Command.discard

  -- For an unfinished transaction: the connection goes back to the pool exactly if `commit`, or
  -- `rollback`, returns, and in every other case it is closed.
  pub ending_lem :
      (t : Transaction F)
      → t.finished ≡ false
      → (newest (commit S t).1.log ≡ some (end_of (commit S t).0))
        × (newest (rollback S t).1.log ≡ some (end_of (rollback S t).0))
  unfolding commit rollback control raw_sql
  ending_lem t h = ground (arith, check_lease-commits t.world)

-- ===== src/Redb/Commit/Retry/Examples.antt =====
-- A commit that conflicts once.
use rustberg.Common.{ℕ, zero, suc, ◌<◌, List, [], ◌∷◌, Result, ok, err, ◌≡◌, ◌≢◌, ◌⊎◌}
use rustberg.Redb.State.{ErrorKind, catalog_commit_conflicts}
use rustberg.Redb.Commit.Retry.{
  commit_max_retries, Conflicts, commit_tables_atomic, commit_tables_atomic_outcome,
}

abbrev second_try : ℕ → Result (List ℕ) ErrorKind
second_try zero = err catalog_commit_conflicts
second_try (suc n) = ok (7 ∷ [])

commit_tables_atomic_outcome_example :
    ((k : ℕ) × (k < commit_max_retries)
      × Conflicts second_try 0 k
      × (commit_tables_atomic second_try {Change = ℕ} (3 ∷ []) ≡ second_try k)
      × (second_try k ≢ err catalog_commit_conflicts))
    ⊎ (Conflicts second_try 0 commit_max_retries
        × (commit_tables_atomic second_try {Change = ℕ} (3 ∷ []) ≡ err catalog_commit_conflicts))
commit_tables_atomic_outcome_example = commit_tables_atomic_outcome second_try 3 []

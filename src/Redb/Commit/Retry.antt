-- ===== src/Redb/Commit/Retry.antt =====
-- The retries of a commit in src/catalog/redb.rs: `commit_tables_atomic`.
mod Examples
use rustberg.Common.{
  ℕ, zero, suc, ◌+◌, ◌<◌, ◌≤◌, Bool, true, false, Bool-cases, Result-cases, inl, inr, List, [], ◌∷◌,
  Result, ok, err, ◌≡◌, ◌⊎◌, ◌≢◌, ◌==◌, ==_iff, ap, refl, sym, ◌∙◌, arith, if◌then◌else◌,
}
use rustberg.Redb.State.{
  ErrorKind, namespace_not_found, namespace_already_exists, table_not_found, table_already_exists,
  precondition_failed, catalog_commit_conflicts, data_invalid, unexpected,
}

abbrev pub commit_max_retries : ℕ
commit_max_retries = 10

abbrev pub is_conflict : ErrorKind → Bool
is_conflict catalog_commit_conflicts = true
is_conflict namespace_not_found = false
is_conflict namespace_already_exists = false
is_conflict table_not_found = false
is_conflict table_already_exists = false
is_conflict precondition_failed = false
is_conflict data_invalid = false
is_conflict unexpected = false

is_conflict_lem : (e : ErrorKind) → is_conflict e ≡ true → e ≡ catalog_commit_conflicts
is_conflict_lem e h = ground arith

module _ {κ} {Table : Type κ} (attempt : ℕ → Result (List Table) ErrorKind) where
  -- So many attempts are left; what the next one meets is what other writers have left by then.
  unfoldable pub retry_from : ℕ → ℕ → Result (List Table) ErrorKind
  retry_from zero n = err catalog_commit_conflicts
  retry_from (suc more) n =
      let later = retry_from more (suc n) in
      elim (attempt n) [ ok tables ↦ ok tables | err e ↦ if is_conflict e then later else err e ]

  unfoldable pub commit_tables_atomic {ℓ} :
      {Change : Type ℓ} → List Change → Result (List Table) ErrorKind
  unfolding retry_from
  commit_tables_atomic [] = ok []
  commit_tables_atomic (change ∷ changes) = retry_from commit_max_retries 0

  abbrev pub Conflicts : ℕ → ℕ → Type κ
  Conflicts from to = (i : ℕ) → from ≤ i → i < to → attempt i ≡ err catalog_commit_conflicts

  Outcome : ℕ → ℕ → Type κ
  Outcome more n =
      ((k : ℕ) × (n ≤ k)
        × (k < n + more)
        × Conflicts n k
        × (retry_from more n ≡ attempt k)
        × (attempt k ≢ err catalog_commit_conflicts))
      ⊎ (Conflicts n (n + more) × (retry_from more n ≡ err catalog_commit_conflicts))

  -- An attempt that conflicts, and the ones after it.
  Conflicts-step :
      (n m : ℕ) → attempt n ≡ err catalog_commit_conflicts → Conflicts (suc n) m → Conflicts n m
  Conflicts-step n m e h i low high = elim (Bool-cases (n == i)) [
    | inl same ↦ ap attempt (sym ((==_iff n i).0 same)) ∙ e
    | inr other ↦ h i (ground (arith, ==_iff n i)) high
  ]

  settled :
      (more n : ℕ)
      → attempt n ≢ err catalog_commit_conflicts
      → retry_from (suc more) n ≡ attempt n
      → Outcome (suc more) n
  unfolding Outcome
  settled more n ne e = inl (n, omega arith, omega arith, λ i low high. absurd (omega arith), e, ne)

  retried :
      (more n : ℕ)
      → attempt n ≡ err catalog_commit_conflicts
      → retry_from (suc more) n ≡ retry_from more (suc n)
      → Outcome more (suc n)
      → Outcome (suc more) n
  unfolding Outcome
  retried more n e back (inl (k, low, high, h, found, ne)) =
      inl (k, omega arith, omega arith, Conflicts-step n k e h, back ∙ found, ne)
  retried more n e back (inr (h, out)) =
      inr (λ i low high. Conflicts-step n (suc n + more) e h i low (omega arith), back ∙ out)

  retry_from-Outcome : (more n : ℕ) → Outcome more n
  unfolding retry_from Outcome
  retry_from-Outcome zero n = inr (λ i low high. absurd (omega arith), refl)
  retry_from-Outcome (suc more) n = elim (Result-cases (attempt n)) [
    | inl (tables, e) ↦ settled more n (λ f. absurd (ground arith)) (rw (retry_from, e) refl)
    | inr (fault, e) ↦ elim (Bool-cases (is_conflict fault)) [
      | inl again ↦
          let same : fault ≡ catalog_commit_conflicts = is_conflict_lem fault again in
          retried more n (rw e (ap err same)) (rw (retry_from, e, again) refl)
            (retry_from-Outcome more (suc n))
      | inr final ↦ settled more n (λ f. absurd (ground arith)) (rw (retry_from, e, final) refl)
    ]
  ]

  -- The answer to a commit that changes something is that of the first attempt which does not fail by
  -- a conflict, if one of the first ten does not, every earlier one having conflicted; and it is a
  -- conflict only if all ten have conflicted.
  pub commit_tables_atomic_outcome {ℓ} :
      {Change : Type ℓ} (change : Change) (changes : List Change)
      → ((k : ℕ) × (k < commit_max_retries)
          × Conflicts 0 k
          × (commit_tables_atomic (change ∷ changes) ≡ attempt k)
          × (attempt k ≢ err catalog_commit_conflicts))
        ⊎ (Conflicts 0 commit_max_retries
            × (commit_tables_atomic (change ∷ changes) ≡ err catalog_commit_conflicts))
  unfolding commit_tables_atomic Outcome
  commit_tables_atomic_outcome change changes = elim (retry_from-Outcome commit_max_retries 0) [
    | inl (k, _, high, h, found, ne) ↦ inl (k, high, h, found, ne)
    | inr (h, out) ↦ inr (h, out)
  ]

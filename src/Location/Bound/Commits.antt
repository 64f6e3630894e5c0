-- ===== src/Location/Bound/Commits.antt =====
-- What the location checks of a commit in src/location.rs let through.
use rustberg.Common.{
  ap, Text, ◌≡◌, refl, true, ◌⊎◌, inl, inr, List, [], ◌∷◌, ◌++◌, ok, err, arith, All, Bool-cases,
}
use rustberg.Location.{is_within}
use rustberg.Location.Within.{is_within_trans}
use rustberg.Location.Bound.{
  LocationBound, LocationError, outside, not_owned, TableUpdate, set_location, add_snapshot,
  set_statistics, set_partition_statistics, other, ensure_update, ensure_owned, ensure_commit,
}

-- What a commit is entitled to name, given the bound and where the table's files are now.
abbrev pub IsEntitled : LocationBound → Text → TableUpdate → Type 0
IsEntitled b current (set_location l) = (is_within b.root l ≡ true) ⊎ (is_within current l ≡ true)
IsEntitled b current (add_snapshot f) = is_within current f ≡ true
IsEntitled b current (set_statistics f) = is_within current f ≡ true
IsEntitled b current (set_partition_statistics f) = is_within current f ≡ true
IsEntitled b current other = Unit

-- What a refused update is reported as.
abbrev pub reason : LocationBound → Text → TableUpdate → LocationError
reason b current (set_location l) = outside b.scope b.root l
reason b current (add_snapshot f) = not_owned current f
reason b current (set_statistics f) = not_owned current f
reason b current (set_partition_statistics f) = not_owned current f
reason b current other = not_owned current []

owned_cases :
    (current f : Text)
    → ((ensure_owned current f ≡ ok tt) × (is_within current f ≡ true))
      ⊎ ((ensure_owned current f ≡ err (not_owned current f)) × (¬ (is_within current f ≡ true)))
unfolding ensure_owned
owned_cases current f = elim (Bool-cases (is_within current f)) [
  | inl owned ↦ inl (ground arith, owned)
  | inr away ↦ inr (ground arith, λ h. ground arith)
]

update_cases :
    (b : LocationBound) (current : Text) (u : TableUpdate)
    → ((ensure_update b current u ≡ ok tt) × IsEntitled b current u)
      ⊎ ((ensure_update b current u ≡ err (reason b current u)) × (¬ IsEntitled b current u))
unfolding ensure_update
update_cases b current (set_location l) = elim (Bool-cases (is_within b.root l)) [
  | inl in_root ↦ inl (ground arith, inl in_root)
  | inr out ↦ elim (Bool-cases (is_within current l)) [
    | inl owned ↦ inl (ground arith, inr owned)
    | inr away ↦ inr (ground arith, λ h. ground arith)
  ]
]
update_cases b current (add_snapshot f) = owned_cases current f
update_cases b current (set_statistics f) = owned_cases current f
update_cases b current (set_partition_statistics f) = owned_cases current f
update_cases b current other = inl (refl, tt)

-- A commit passes exactly when it is entitled to every update: for `SetLocation` a location within
-- the bound or within the table's present location, for a manifest list or a statistics file one
-- within the present location. Otherwise it is refused with the error of the first update that it
-- is not entitled to, and every update before that one was entitled.
pub ensure_commit_cases :
    (b : LocationBound) (current : Text) (updates : List TableUpdate)
    → ((ensure_commit b current updates ≡ ok tt) × All (IsEntitled b current) updates)
      ⊎ ((before : List TableUpdate) × (u : TableUpdate) × (after : List TableUpdate) × (updates
            ≡ before ++ u ∷ after)
          × All (IsEntitled b current) before
          × (¬ IsEntitled b current u)
          × (ensure_commit b current updates ≡ err (reason b current u)))
unfolding ensure_commit
ensure_commit_cases b current [] = inl (refl, tt)
ensure_commit_cases b current (u ∷ us) = elim (update_cases b current u) [
  | inr (refused, wrong) ↦ inr ([], u, us, refl, tt, wrong, ground arith)
  | inl (passed, right) ↦ elim (ensure_commit_cases b current us) [
    | inl (all_pass, all_right) ↦ inl (ground arith, (right, all_right))
    | inr (before, v, after, e, rights, wrong, refused) ↦
        inr (u ∷ before, v, after, ap (λ l. u ∷ l) e, (right, rights), wrong, ground arith)
  ]
]

-- Where a table is after updates are applied in order.
abbrev pub relocated : Text → List TableUpdate → Text
relocated current [] = current
relocated current (set_location l ∷ us) = relocated l us
relocated current (_ ∷ us) = relocated current us

-- The locations that a table reaches from `start` by commits that pass.
pub data History (b : LocationBound) (start : Text) : Text → Type 0 where
  created : History b start start
  commit :
      {current next : Text}
      → History b start current
      → (updates : List TableUpdate) → ensure_commit b current updates ≡ ok tt
      → next ≡ relocated current updates
      → History b start next

IsEntitled-of_ok :
    (b : LocationBound) (current : Text) (updates : List TableUpdate)
    → ensure_commit b current updates ≡ ok tt
    → All (IsEntitled b current) updates
IsEntitled-of_ok b current updates h = elim (ensure_commit_cases b current updates) [
  | inl (_, right) ↦ right
  | inr (_, _, _, _, _, _, refused) ↦ absurd (ground arith)
]

relocated-is_within :
    (b : LocationBound) (current at : Text) (updates : List TableUpdate)
    → is_within b.root current ≡ true
    → is_within b.root at ≡ true
    → All (IsEntitled b current) updates
    → is_within b.root (relocated at updates) ≡ true
relocated-is_within b current at [] c h _ = h
relocated-is_within b current at (set_location l ∷ us) c h (inl in_root, rest) =
    relocated-is_within b current l us c in_root rest
relocated-is_within b current at (set_location l ∷ us) c h (inr owned, rest) =
    relocated-is_within b current l us c (is_within_trans b.root current l c owned) rest
relocated-is_within b current at (_ ∷ us) c h (_, rest) =
    relocated-is_within b current at us c h rest

-- A table that starts within its bound stays within it, through any number of commits that pass,
-- each of which may move it relative to where it is then.
pub History-is_within :
    (b : LocationBound) (start last : Text)
    → is_within b.root start ≡ true
    → History b start last
    → is_within b.root last ≡ true
History-is_within b start last h created = h
History-is_within b start last h (commit {current} before updates passed e) = rw e (
    let now = History-is_within b start current h before in
    relocated-is_within b current current updates now now
      (IsEntitled-of_ok b current updates passed))

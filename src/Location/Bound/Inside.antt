-- ===== src/Location/Bound/Inside.antt =====
-- The canonical layout of src/location.rs lies inside the warehouse.
use mathlib.Core.Path.{subst}
use mathlib.Core.List.{append_assoc}
use rustberg.Common.{
  ℕ, Text, codes, true, ◌≡◌, refl, ap, sym, ◌∙◌, ◌≢◌, inl, inr, some, List, [], ◌∷◌, ◌++◌, arith,
  All, All-append, split_once, trim_end_char,
}
use rustberg.Location.{dot_dot, split, segments, root_segments, trim_empty, is_absolute, is_within}
use rustberg.Location.Segments.{StartsWith, NoTraversal, trim_empty-StartsWith}
use rustberg.Location.Within.{candidate_path, root_path, is_within_iff}
use rustberg.Location.Bound.{canonical_prefix}
use rustberg.Location.Bound.Layout.{
  IsSegment, resource_path, store, base, base_cases, split_of_canonical, segments_of_canonical,
  append-ne-nil,
}

module _ (warehouse scheme : Text) (c : ℕ) (rest : Text)
    (bare : trim_end_char b'/' warehouse ≡ warehouse)
    (found : split_once (codes "://") (trim_end_char b'/' warehouse)
      ≡ some (scheme, c ∷ rest)) where
  split_of_warehouse : split warehouse ≡ (store warehouse scheme c rest found, c ∷ rest)
  unfolding split
  split_of_warehouse =
      let e : split_once (codes "://") warehouse ≡ some (scheme, c ∷ rest) =
        ap (split_once (codes "://")) (sym bare) ∙ found in
      ground (arith, e)

  abbrev own : List Text
  own = segments (c ∷ rest) (store warehouse scheme c rest found)

  base-StartsWith : StartsWith (trim_empty own) (base warehouse scheme c rest found)
  unfolding trim_empty
  base-StartsWith = elim (base_cases warehouse scheme c rest found) [
    | inl same ↦ rw (← same) (trim_empty-StartsWith own)
    | inr (bare_own, _) ↦ rw bare_own (base warehouse scheme c rest found, refl)
  ]

  base-NoTraversal : NoTraversal own → NoTraversal (base warehouse scheme c rest found)
  base-NoTraversal h = elim (base_cases warehouse scheme c rest found) [
    | inl same ↦ subst NoTraversal same h
    | inr (_, e) ↦ rw e (λ dots. ground arith, tt)
  ]

  -- Where the registries lay a resource out is inside the warehouse. The warehouse is written
  -- `scheme://` and more than a slash, with no slash at its end and no ".." segment; no level or
  -- name is empty, holds a slash or is "..".
  pub is_within-canonical_prefix :
      (ns : List Text) (name : Text)
      → All IsSegment ns
      → IsSegment name
      → NoTraversal (candidate_path warehouse)
      → NoTraversal (resource_path ns name)
      → is_within warehouse (canonical_prefix warehouse ns name) ≡ true
  is_within-canonical_prefix ns name h k clean names =
      let path = resource_path ns name in
      let b : List Text = base warehouse scheme c rest found in
      let split_deep = split_of_canonical warehouse scheme c rest found ns name in
      let (more, e) = base-StartsWith in
      let deep : candidate_path (canonical_prefix warehouse ns name) ≡ b ++ path = rw split_deep (
        segments_of_canonical warehouse scheme c rest found path
          (All-append IsSegment ns (name ∷ []) h (k, tt)) (append-ne-nil ns name)) in
      let root : root_path warehouse ≡ trim_empty own =
        rw split_of_warehouse (unfold root_segments in refl) in
      let own_clean : NoTraversal own = subst NoTraversal (rw split_of_warehouse refl) clean in
      (is_within_iff warehouse (canonical_prefix warehouse ns name)).1 (record {
        store = record {
          scheme = ap (λ p. p.0) split_of_warehouse ∙ sym (ap (λ p. p.0) split_deep);
          rooting = λ _. rw (split_of_warehouse, split_deep) (unfold is_absolute in refl);
        };
        clean = rw deep (All-append (λ s. s ≢ dot_dot) b path (base-NoTraversal own_clean) names);
        below = (more ++ path, rw (deep, root, e) (append_assoc (trim_empty own) more path));
      })

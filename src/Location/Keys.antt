-- ===== src/Location/Keys.antt =====
-- `is_prefix_within` of src/location.rs: an object store matches a list prefix as a raw string, so
-- the check on the prefix is a check on every key that the listing returns.
use mathlib.Core.Path.{subst}
use mathlib.Core.List.{append-nil}
use rustberg.Common.{
  ltb, ℕ, Text, codes, true, ◌≡◌, refl, ◌≢◌, ◌⊎◌, inl, inr, some, List, [], ◌∷◌, ◌++◌, ◌<◌, length,
  arith, ends_with_char, split_once, split_at_char, to_ascii_lowercase, text_eq_iff, length-append,
  Bool-cases, ◌==◌, ap, sym, ◌∙◌,
}
use rustberg.Common.Splits.{split_once-append, split_at_char-append, split_at_char-ends_with}
use rustberg.Location.{
  file_scheme, canonical_scheme, split, segments, root_segments, trim_empty, split_key, strip_slash,
  is_within, is_prefix_within,
}
use rustberg.Location.Segments.{
  StartsWith, NoTraversal, strip_slash_of_slash, strip_slash_of_other, within_segments_iff,
  trim_empty_idem, trim_empty-ne_closed,
}
use rustberg.Location.Within.{SameStore, root_path, candidate_path, is_within_iff, comparable_sound}

-- A root's segments are a part of the key's, once one more segment follows them in the prefix or
-- the prefix ends with a slash.
whole_segments :
    (root : List Text) (c : ℕ) (path suffix : Text)
    → trim_empty root ≡ root
    → StartsWith root (split_at_char b'/' (c ∷ path))
    → (length root < length (split_at_char b'/' (c ∷ path)))
      ⊎ (ends_with_char b'/' (c ∷ path) ≡ true)
    → StartsWith root (split_at_char b'/' (c ∷ path ++ suffix))
whole_segments root c path suffix trimmed ([], e) (inl shorter) =
    absurd (omega (arith, ap length e, length-append root []))
whole_segments root c path suffix trimmed ([], e) (inr slash) =
    let (first, middle, f) = split_at_char-ends_with b'/' (c ∷ path) slash in
    let same : root ≡ first ∷ (middle ++ [] ∷ []) = sym (append-nil root) ∙ sym e ∙ f in
    absurd (trim_empty-ne_closed (first ∷ middle) (subst (λ r. trim_empty r ≡ r) same trimmed))
whole_segments root c path suffix trimmed (last ∷ rest, e) deeper =
    let (l, r, f) = split_at_char-append b'/' (c ∷ path) suffix root last rest e in (l ∷ r, f)

key_segments :
    (root : List Text) (path suffix : Text)
    → trim_empty root ≡ root
    → StartsWith root (split_key (strip_slash path))
    → (length root < length (split_key (strip_slash path))) ⊎ (ends_with_char b'/' path ≡ true)
    → StartsWith root (split_key (strip_slash (path ++ suffix)))
unfolding split_key
key_segments [] path suffix trimmed below deeper = (split_key (strip_slash (path ++ suffix)), refl)
key_segments (w ∷ ws) [] suffix trimmed (extra, e) deeper =
    absurd (unfold strip_slash in ground arith)
key_segments (w ∷ ws) (c ∷ []) suffix trimmed below deeper = elim (Bool-cases (b'/' == c)) [
  | inl slash ↦ absurd (ground (arith, strip_slash_of_slash c [] slash, below.1))
  | inr other ↦
      let same = strip_slash_of_other c [] other in
      rw (strip_slash_of_other c suffix other)
        (whole_segments (w ∷ ws) c [] suffix trimmed (rw same at below) (rw same at deeper))
]
key_segments (w ∷ ws) (c ∷ d ∷ path) suffix trimmed below deeper = elim (Bool-cases (b'/' == c)) [
  | inl slash ↦
      let same = strip_slash_of_slash c (d ∷ path) slash in
      rw (strip_slash_of_slash c (d ∷ path ++ suffix) slash)
        (whole_segments (w ∷ ws) d path suffix trimmed (rw same at below) (rw same at deeper))
  | inr other ↦
      let same = strip_slash_of_other c (d ∷ path) other in
      rw (strip_slash_of_other c (d ∷ path ++ suffix) other)
        (whole_segments (w ∷ ws) c (d ∷ path) suffix trimmed (rw same at below) (rw same at deeper))
]

module _ (candidate suffix scheme rest : Text)
    (found : split_once (codes "://") candidate ≡ some (scheme, rest)) where
  abbrev store : Text
  store = canonical_scheme (to_ascii_lowercase scheme)

  split_of_prefix : split candidate ≡ (store, rest)
  unfolding split
  split_of_prefix = ground (arith, found)

  split_of_key : split (candidate ++ suffix) ≡ (store, rest ++ suffix)
  unfolding split
  split_of_key = ground (arith, split_once-append (codes "://") candidate suffix scheme rest found)

  segments_of_key :
      store ≢ file_scheme → (path : Text) → segments path store ≡ split_key (strip_slash path)
  unfolding segments
  segments_of_key remote path = ground (arith, text_eq_iff store file_scheme)

  -- What the answer of `is_prefix_within` gives about the two locations' parts.
  prefix_parts :
      (root : Text)
      → is_prefix_within root candidate ≡ true
      → SameStore (split root) (split candidate)
        × StartsWith (root_path root) (candidate_path candidate)
        × ((length (root_path root) < length (candidate_path candidate))
            ⊎ (ends_with_char b'/' rest ≡ true))
  unfolding is_prefix_within
  prefix_parts root h = (
    comparable_sound (split root) (split candidate) (ground arith),
    ((within_segments_iff (root_path root) (candidate_path candidate)).0 (ground arith)).1,
    elim (Bool-cases (ltb (length (root_path root)) (length (candidate_path candidate)))) [
      | inl longer ↦ inl (ground arith)
      | inr same ↦ inr (ground (arith, split_of_prefix))
    ],
  )

  -- If a list prefix `scheme://…` of an object store passes the check, then every key that begins
  -- with it as a raw string, and has no ".." segment, lies within the root.
  pub is_within_of_key :
      (root : Text)
      → store ≢ file_scheme
      → is_prefix_within root candidate ≡ true
      → NoTraversal (candidate_path (candidate ++ suffix))
      → is_within root (candidate ++ suffix) ≡ true
  is_within_of_key root remote h clean =
      let (same, below, deeper) = prefix_parts root h in
      let scheme_eq : (split root).0 ≡ store = same.scheme ∙ ap (λ p. p.0) split_of_prefix in
      let path_eq : candidate_path candidate ≡ split_key (strip_slash rest) =
        rw split_of_prefix (segments_of_key remote rest) in
      let trimmed : trim_empty (root_path root) ≡ root_path root =
        unfold root_segments in trim_empty_idem (candidate_path root) in
      let whole =
        key_segments (root_path root) rest suffix trimmed (rw path_eq at below)
          (rw path_eq at deeper) in
      (is_within_iff root (candidate ++ suffix)).1 (record {
        store = record {
          scheme = scheme_eq ∙ sym (ap (λ p. p.0) split_of_key);
          rooting = λ e. absurd (remote (sym scheme_eq ∙ e));
        };
        clean = clean;
        below = rw (split_of_key, segments_of_key remote (rest ++ suffix)) whole;
      })

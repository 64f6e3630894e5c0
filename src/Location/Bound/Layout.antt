-- ===== src/Location/Bound/Layout.antt =====
-- `canonical_prefix` of src/location.rs: where the storage of differently named resources overlaps.
use mathlib.Core.List.{append-nil, append_assoc}
use rustberg.Common.{
  ◌==◌, if◌then◌else◌, ℕ, Text, codes, text_eq, ◌≡◌, refl, ap, sym, ◌∙◌, ◌≢◌, ◌⊎◌, inl, inr, some,
  List, [], ◌∷◌, ◌++◌, arith, All, All-append, split_once, split_at_char, to_ascii_lowercase,
  trim_end_char, Bool-cases,
}
use rustberg.Common.Splits.{split_once-append, split_at_char-join, split_at_char_of_Lacks, Lacks}
use rustberg.Location.{
  file_scheme, canonical_scheme, split, segments, root_segments, trim_empty, drop_empty, split_key,
  strip_slash,
}
use rustberg.Location.Segments.{strip_slash_of_slash, strip_slash_of_other}
use rustberg.Location.Within.{root_path}
use rustberg.Location.Bound.{push_levels, canonical_prefix}

-- What a name needs to be a segment of its own.
abbrev pub IsSegment : Text → Type 0
IsSegment s = (s ≢ []) × Lacks b'/' s

-- A resource's path: its namespace and its name.
abbrev pub resource_path : List Text → Text → List Text
resource_path namespace name = namespace ++ name ∷ []

unfoldable pub join_tail : List Text → Text
join_tail [] = []
join_tail (n ∷ ns) = b'/' ∷ (n ++ join_tail ns)

pub push_levels-eq : (out : Text) (ns : List Text) → push_levels out ns ≡ out ++ join_tail ns
unfolding push_levels join_tail
push_levels-eq out [] = sym (append-nil out)
push_levels-eq out (n ∷ ns) =
    rw (push_levels-eq (out ++ b'/' ∷ n) ns) (append_assoc out (b'/' ∷ n) (join_tail ns))

pub join_tail-append : (ns ms : List Text) → join_tail (ns ++ ms) ≡ join_tail ns ++ join_tail ms
unfolding join_tail
join_tail-append [] ms = refl
join_tail-append (n ∷ ns) ms = simp (join_tail-append ns ms, append_assoc)

pub canonical_prefix-eq :
    (w : Text) (ns : List Text) (name : Text)
    → canonical_prefix w ns name ≡ trim_end_char b'/' w ++ join_tail (resource_path ns name)
unfolding canonical_prefix
canonical_prefix-eq w ns name =
    simp (push_levels-eq, join_tail-append ns (name ∷ []), append_assoc)
      (unfold join_tail in rw append-nil)

split-join_tail :
    (s : Text) (ns : List Text)
    → All IsSegment ns
    → split_at_char b'/' (s ++ join_tail ns) ≡ split_at_char b'/' s ++ ns
unfolding join_tail
split-join_tail s [] h = simp append-nil
split-join_tail s (n ∷ ns) ((_, plain), h) =
    simp (split_at_char-join b'/' s, split-join_tail n ns h, split_at_char_of_Lacks b'/' n plain)

drop_empty-append :
    (xs ns : List Text) → All IsSegment ns → drop_empty (xs ++ ns) ≡ drop_empty xs ++ ns
unfolding drop_empty
drop_empty-append [] [] h = refl
drop_empty-append [] (n ∷ ns) ((ne, _), h) = ground (arith, drop_empty-append [] ns h)
drop_empty-append (x ∷ xs) ns h = ground (arith, drop_empty-append xs ns h)

trim_empty-names :
    (xs : List Text) (n : Text) → IsSegment n → trim_empty (xs ++ n ∷ []) ≡ xs ++ n ∷ []
unfolding trim_empty
trim_empty-names [] n (ne, _) = ground arith
trim_empty-names (x ∷ []) n h = ground (arith, trim_empty-names [] n h)
trim_empty-names (x ∷ y ∷ xs) n h = ground (arith, trim_empty-names (y ∷ xs) n h)

pub append-ne-nil {ℓ} : {A : Type ℓ} (xs : List A) (x : A) → xs ++ x ∷ [] ≢ []
append-ne-nil [] x e = absurd (ground arith)
append-ne-nil (y ∷ ys) x e = absurd (ground arith)

split_key_of_names :
    (s : Text) (n : Text) (ns : List Text)
    → split_key (s ++ join_tail (n ∷ ns)) ≡ split_at_char b'/' (s ++ join_tail (n ∷ ns))
unfolding split_key join_tail
split_key_of_names [] n ns = refl
split_key_of_names (x ∷ s) n ns = refl

strip_slash-append :
    (c : ℕ) (rest : Text) (ns : List Text)
    → All IsSegment ns
    → ns ≢ []
    → split_key (strip_slash (c ∷ rest ++ join_tail ns))
      ≡ split_at_char b'/' (strip_slash (c ∷ rest)) ++ ns
strip_slash-append c rest [] h some_names = absurd (some_names refl)
strip_slash-append c rest (n ∷ ns) h some_names = elim (Bool-cases (b'/' == c)) [
  | inl slash ↦
      rw
        (
          strip_slash_of_slash c (rest ++ join_tail (n ∷ ns)) slash,
          strip_slash_of_slash c rest slash,
        )
        (split_key_of_names rest n ns ∙ split-join_tail rest (n ∷ ns) h)
  | inr plain ↦
      rw
        (
          strip_slash_of_other c (rest ++ join_tail (n ∷ ns)) plain,
          strip_slash_of_other c rest plain,
        )
        (split_key_of_names (c ∷ rest) n ns ∙ split-join_tail (c ∷ rest) (n ∷ ns) h)
]

split_key_cases :
    (s : Text)
    → (split_key s ≡ split_at_char b'/' s) ⊎ ((split_key s ≡ []) × (split_at_char b'/' s ≡ [] ∷ []))
unfolding split_key
split_key_cases [] = inr (refl, refl)
split_key_cases (x ∷ s) = inl refl

module _ (warehouse scheme : Text) (c : ℕ) (rest : Text)
    (found : split_once (codes "://") (trim_end_char b'/' warehouse)
      ≡ some (scheme, c ∷ rest)) where
  abbrev pub store : Text
  store = canonical_scheme (to_ascii_lowercase scheme)

  pub base : List Text
  base =
      if text_eq store file_scheme
      then drop_empty (split_at_char b'/' (c ∷ rest))
      else split_at_char b'/' (strip_slash (c ∷ rest))

  -- The warehouse's own segments are these, unless there are none.
  pub base_cases :
      (segments (c ∷ rest) store ≡ base) ⊎ ((segments (c ∷ rest) store ≡ []) × (base ≡ [] ∷ []))
  unfolding segments base
  base_cases = elim (Bool-cases (text_eq store file_scheme)) [
    | inl file ↦ rw file (inl refl)
    | inr remote ↦ rw remote (split_key_cases (strip_slash (c ∷ rest)))
  ]

  pub split_of_canonical :
      (ns : List Text) (name : Text)
      → split (canonical_prefix warehouse ns name)
        ≡ (store, c ∷ rest ++ join_tail (resource_path ns name))
  unfolding split
  split_of_canonical ns name = rw (canonical_prefix-eq warehouse ns name) (
      ground (
        arith,
        split_once-append (codes "://") (trim_end_char b'/' warehouse)
            (join_tail (resource_path ns name)) scheme (c ∷ rest) found,
      ))

  pub segments_of_canonical :
      (ns : List Text)
      → All IsSegment ns
      → ns ≢ []
      → segments (c ∷ rest ++ join_tail ns) store ≡ base ++ ns
  unfolding segments base
  segments_of_canonical ns h some_names = elim (Bool-cases (text_eq store file_scheme)) [
    | inl file ↦ rw file (
        ap drop_empty (split-join_tail (c ∷ rest) ns h)
        ∙ drop_empty-append (split_at_char b'/' (c ∷ rest)) ns h)
    | inr remote ↦ rw remote (strip_slash-append c rest ns h some_names)
  ]

  -- The segments of a resource's storage are the warehouse's, then its namespace's, then its name.
  pub root_path_of_canonical :
      (ns : List Text) (name : Text)
      → All IsSegment ns
      → IsSegment name
      → root_path (canonical_prefix warehouse ns name) ≡ base ++ resource_path ns name
  unfolding root_segments
  root_path_of_canonical ns name h k =
      let names = All-append IsSegment ns (name ∷ []) h (k, tt) in
      let whole = segments_of_canonical (resource_path ns name) names (append-ne-nil ns name) in
      rw (split_of_canonical ns name, whole, ← append_assoc) (trim_empty-names (base ++ ns) name k)

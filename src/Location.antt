-- ===== src/Location.antt =====
-- src/location.rs: containment checks for storage locations. This file has `split`, `segments`,
-- `is_within`, `is_prefix_within` and `is_vendable`; the children have the bounds that a request is
-- held to, the translation between URLs and local paths, and the proofs.
pub mod Segments
pub mod Within
pub mod Keys
pub mod Bound
pub mod Urls
mod Examples
use rustberg.Common.{
  bool_ne, ℕ, Text, codes, text_eq, Bool, true, false, not, ◌&&◌, ◌||◌, Option, none, some, List,
  [], ◌∷◌, any, all, length, ltb, ◌==◌, if◌then◌else◌, is_empty, starts_with_char, ends_with_char,
  strip_prefix, split_once, split_at_char, is_ascii_alphabetic, is_ascii_alphanumeric,
  to_ascii_lowercase, utf8_len,
}

-- The text `file`, the scheme of a bare path, and the traversal segment.
abbrev pub file_scheme : Text
file_scheme = codes "file"

abbrev pub dot_dot : Text
dot_dot = codes ".."

unfoldable pub canonical_scheme : Text → Text
canonical_scheme scheme =
    if any (text_eq scheme) (codes "s3" ∷ codes "s3a" ∷ codes "s3n" ∷ [])
    then codes "s3"
    else if any (text_eq scheme) (codes "gs" ∷ codes "gcs" ∷ [])
    then codes "gs"
    else if any (text_eq scheme) (codes "abfs" ∷ codes "abfss" ∷ codes "az" ∷ codes "adls" ∷ [])
    then codes "abfs"
    else scheme

is_scheme_char : ℕ → Bool
is_scheme_char c = is_ascii_alphanumeric c || c == b'+' || c == b'-' || c == b'.'

-- The iterator's first character, and then the rest of it.
scheme_chars : Text → Bool
unfolding is_scheme_char
scheme_chars [] = false
scheme_chars (c ∷ rest) = is_ascii_alphabetic c && all is_scheme_char rest

unfoldable pub is_scheme : Text → Bool
unfolding scheme_chars
is_scheme candidate = ltb 1 (utf8_len candidate) && scheme_chars candidate

unfoldable pub is_absolute : Text → Bool
is_absolute path = starts_with_char b'/' path

-- The arms of `split` after `://` was not found.
split_rooted : Text → Option (Text × Text) → Text × Text
unfolding is_scheme canonical_scheme
split_rooted location none = (file_scheme, location)
split_rooted location (some (scheme, rest)) =
    if is_scheme scheme && starts_with_char b'/' rest
    then (canonical_scheme (to_ascii_lowercase scheme), rest)
    else (file_scheme, location)

split_found : Text → Option (Text × Text) → Text × Text
unfolding split_rooted split_once canonical_scheme
split_found location (some (scheme, rest)) = (canonical_scheme (to_ascii_lowercase scheme), rest)
split_found location none = split_rooted location (split_once (codes ":") location)

unfoldable pub split : Text → Text × Text
unfolding split_found split_once
split location = split_found location (split_once (codes "://") location)

-- `filter(|s| !s.is_empty())`
pub drop_empty : List Text → List Text
drop_empty [] = []
drop_empty (s ∷ ss) = let rest = drop_empty ss in if is_empty s then rest else s ∷ rest

-- `strip_prefix('/').unwrap_or(path)`
pub strip_slash : Text → Text
strip_slash path = elim (strip_prefix (codes "/") path) [ some rest ↦ rest | none ↦ path ]

pub split_key : Text → List Text
unfolding split_at_char
split_key [] = []
split_key (c ∷ s) = split_at_char b'/' (c ∷ s)

unfoldable pub segments : Text → Text → List Text
unfolding drop_empty strip_slash split_key split_at_char
segments path scheme =
    if text_eq scheme file_scheme
    then drop_empty (split_at_char b'/' path)
    else split_key (strip_slash path)

-- The loop that pops trailing empty segments.
pub trim_empty : List Text → List Text
trim_empty [] = []
trim_empty (s ∷ ss) =
    let rest = trim_empty ss in if is_empty rest && is_empty s then [] else s ∷ rest

unfoldable pub root_segments : Text → Text → List Text
unfolding trim_empty segments
root_segments path scheme = trim_empty (segments path scheme)

-- `root_segments.iter().zip(&candidate_segments).all(|(a, b)| a == b)`
pub zip_all_eq : List Text → List Text → Bool
zip_all_eq [] _ = true
zip_all_eq (a ∷ as') [] = true
zip_all_eq (a ∷ as') (b ∷ bs) = text_eq a b && zip_all_eq as' bs

-- The tests of `is_within` over what `split` and `segments` return.
pub within_segments : List Text → List Text → Bool
unfolding zip_all_eq
within_segments root candidate =
    if any (λ s. text_eq s dot_dot) candidate
    then false
    else if ltb (length candidate) (length root)
    then false
    else zip_all_eq root candidate

-- Whether the two locations are in one store, and rooted alike if that is the local file system.
pub comparable : Text × Text → Text × Text → Bool
unfolding is_absolute
comparable (root_scheme, root_path) (candidate_scheme, candidate_path) =
    text_eq root_scheme candidate_scheme
    && not (
        text_eq root_scheme file_scheme
        && bool_ne (is_absolute root_path) (is_absolute candidate_path))

within_split : Text × Text → Text × Text → Bool
unfolding comparable within_segments
within_split (root_scheme, root_path) (candidate_scheme, candidate_path) =
    if not (comparable (root_scheme, root_path) (candidate_scheme, candidate_path))
    then false
    else within_segments (root_segments root_path root_scheme)
        (segments candidate_path candidate_scheme)

unfoldable pub is_within : Text → Text → Bool
unfolding within_split
is_within root candidate = within_split (split root) (split candidate)

prefix_within_split : Text × Text → Text × Text → Bool
unfolding comparable within_segments
prefix_within_split (root_scheme, root_path) (candidate_scheme, candidate_path) =
    let root = root_segments root_path root_scheme in
    let candidate = segments candidate_path candidate_scheme in
    if not (comparable (root_scheme, root_path) (candidate_scheme, candidate_path))
    then false
    else if not (within_segments root candidate)
    then false
    else ltb (length root) (length candidate) || ends_with_char b'/' candidate_path

unfoldable pub is_prefix_within : Text → Text → Bool
unfolding prefix_within_split
is_prefix_within root candidate = prefix_within_split (split root) (split candidate)

unfoldable pub is_vendable : List Text → Text → Bool
unfolding is_within
is_vendable allowed_prefixes location = any (λ prefix. is_within prefix location) allowed_prefixes

-- ===== src/Names/Chain.antt =====
-- src/names.rs: the chain of views of a `referenced-by` parameter.
pub mod Recorded
pub mod Written
use rustberg.Common.{
  Text, Bool, true, false, not, ◌||◌, Option, none, some, List, [], ◌∷◌, ◌++◌, any, length, ltb,
  if◌then◌else◌, is_empty, split_at_char, join, Result, ok, err,
}
use rustberg.Common.Options.{◌>>=◌}
use rustberg.Common.Utf8.{as_bytes, from_utf8}
use rustberg.Common.Percent.{unescape}
use rustberg.Names.{Unicode, AppError, view_chain, validate_name}
use rustberg.Redb.Keys.{part_separator}

unfoldable pub percent_decode : Text → Option Text
unfolding as_bytes unescape from_utf8
percent_decode component = do out ← unescape (as_bytes component); from_utf8 out

-- `Vec::pop`: what is left, and the last element.
unfoldable pub pop : List Text → Option (List Text × Text)
pop [] = none
pop (s ∷ ss) = elim (pop ss) [ none ↦ some ([], s) | some (rest, last) ↦ some (s ∷ rest, last) ]

abbrev is_err {ℓ κ} : {A : Type ℓ} {E : Type κ} → Result A E → Bool
is_err (ok _) = false
is_err (err _) = true

-- `format!("{}/{name}", segments.join("/"))`
unfoldable pub render : List Text × Text → Text
unfolding join
render (segments, name) = join b'/' segments ++ b'/' ∷ name

module _ (u : Unicode) where
  unfoldable pub is_unnamed : Text → Bool
  unfolding validate_name
  is_unnamed segment = is_err (validate_name u segment view_chain)

  -- One decoded identifier.
  unfoldable pub read_identifier : List Text → Option Text
  unfolding is_unnamed pop render
  read_identifier segments =
      if ltb (length segments) 2 || any is_unnamed segments
      then none
      else do parts ← pop segments; some (render parts)

  -- The loop of `parse_view_chain`.
  unfoldable pub read_identifiers : List Text → Option (List Text)
  unfolding percent_decode read_identifier split_at_char
  read_identifiers [] = some []
  read_identifiers (raw ∷ raws) = do
    decoded ← percent_decode raw
    identifier ← read_identifier (split_at_char part_separator decoded)
    chain ← read_identifiers raws
    some (identifier ∷ chain)

  unfoldable pub parse_view_chain : Text → Option (List Text)
  unfolding read_identifiers split_at_char
  parse_view_chain raw_parameter = if is_empty raw_parameter then none else do
    chain ← read_identifiers (split_at_char b',' raw_parameter)
    if not (is_empty chain) then some chain else none

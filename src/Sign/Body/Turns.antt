-- ===== src/Sign/Body/Turns.antt =====
-- src/catalog/v1/sign.rs: the turns of the scanner at the tags and the texts of a `DeleteObjects`.
use rustberg.Common.{ℕ, ◌≡◌, Bool, refl, Text, codes, true, false, some, List, [], ◌∷◌, ◌++◌, ok}
use rustberg.Common.Splits.{split_once_of_Lacks}
use rustberg.Sign.Body.{
  require_blank, read_declaration, Scan, read_text, close_tag, read_tag, read_element, read_markup,
  turn, start,
}
use rustberg.Sign.Body.Layout.{
  escape_text, IsGap, gap-Lacks, require_blank_gap, decode-escape_text, escape_text-Lacks,
}

abbrev pub at_depth : List Text → List Text → Scan
at_depth names keys = record { open_names = names; keys = keys; root_closed = false }

abbrev pub inside : List Text → Scan
inside = at_depth (codes "Delete" ∷ [])

abbrev pub in_object : List Text → Scan
in_object = at_depth (codes "Object" ∷ codes "Delete" ∷ [])

abbrev pub in_key : List Text → Scan
in_key = at_depth (codes "Key" ∷ codes "Object" ∷ codes "Delete" ∷ [])

abbrev pub in_version : List Text → Scan
in_version = at_depth (codes "VersionId" ∷ codes "Object" ∷ codes "Delete" ∷ [])

abbrev pub in_quiet : List Text → Scan
in_quiet = at_depth (codes "Quiet" ∷ codes "Delete" ∷ [])

abbrev pub closed : List Text → Scan
closed keys = record { open_names = []; keys = keys; root_closed = true }

pub turn_declaration :
    (t : Text)
    → turn (codes "<?xml version=\"1.0\" encoding=\"UTF-8\"?>" ++ t) start ≡ ok (some (t, start))
unfolding turn read_text read_markup read_declaration
turn_declaration t = refl

module _ (gap : Text) (white : IsGap gap) (keys : List Text) (t : Text) where
  blank : require_blank gap ≡ ok tt
  blank = require_blank_gap gap white

  pub turn_root : turn (gap ++ (codes "<Delete>" ++ t)) start ≡ ok (some (t, inside []))
  unfolding turn read_text read_markup read_element read_tag
  turn_root =
      rw (turn, split_once_of_Lacks b'<' gap (codes "Delete>" ++ t) (gap-Lacks gap white), blank)
        refl

  pub turn_namespaced :
      turn (gap ++ (codes "<Delete xmlns=\"http://s3.amazonaws.com/doc/2006-03-01/\">" ++ t)) start
      ≡ ok (some (t, inside []))
  unfolding turn read_text read_markup read_element read_tag
  turn_namespaced =
      rw
        (
          turn,
          split_once_of_Lacks b'<' gap
              (codes "Delete xmlns=\"http://s3.amazonaws.com/doc/2006-03-01/\">" ++ t)
              (gap-Lacks gap white),
          blank,
        )
        refl

  pub turn_object :
      turn (gap ++ (codes "<Object>" ++ t)) (inside keys) ≡ ok (some (t, in_object keys))
  unfolding turn read_text read_markup read_element read_tag
  turn_object =
      rw (turn, split_once_of_Lacks b'<' gap (codes "Object>" ++ t) (gap-Lacks gap white), blank)
        refl

  pub turn_open_key :
      turn (gap ++ (codes "<Key>" ++ t)) (in_object keys) ≡ ok (some (t, in_key keys))
  unfolding turn read_text read_markup read_element read_tag
  turn_open_key =
      rw (turn, split_once_of_Lacks b'<' gap (codes "Key>" ++ t) (gap-Lacks gap white), blank) refl

  pub turn_open_version :
      turn (gap ++ (codes "<VersionId>" ++ t)) (in_object keys) ≡ ok (some (t, in_version keys))
  unfolding turn read_text read_markup read_element read_tag
  turn_open_version =
      rw (turn, split_once_of_Lacks b'<' gap (codes "VersionId>" ++ t) (gap-Lacks gap white), blank)
        refl

  pub turn_open_quiet :
      turn (gap ++ (codes "<Quiet>" ++ t)) (inside keys) ≡ ok (some (t, in_quiet keys))
  unfolding turn read_text read_markup read_element read_tag
  turn_open_quiet =
      rw (turn, split_once_of_Lacks b'<' gap (codes "Quiet>" ++ t) (gap-Lacks gap white), blank)
        refl

  pub turn_end :
      turn (gap ++ (codes "</Object>" ++ t)) (in_object keys) ≡ ok (some (t, inside keys))
  unfolding turn read_text read_markup read_element read_tag close_tag
  turn_end =
      rw (turn, split_once_of_Lacks b'<' gap (codes "/Object>" ++ t) (gap-Lacks gap white), blank)
        refl

  pub turn_close : turn (gap ++ (codes "</Delete>" ++ t)) (inside keys) ≡ ok (some (t, closed keys))
  unfolding turn read_text read_markup read_element read_tag close_tag
  turn_close =
      rw (turn, split_once_of_Lacks b'<' gap (codes "/Delete>" ++ t) (gap-Lacks gap white), blank)
        refl

-- The turn that reads a key.
pub turn_key :
    (as_entity : ℕ → Bool) (key t : Text) (keys : List Text)
    → turn (escape_text as_entity key ++ (codes "</Key>" ++ t)) (in_key keys)
      ≡ ok (some (t, in_object (keys ++ key ∷ [])))
unfolding turn read_text read_markup read_element read_tag close_tag
turn_key as_entity key t keys =
    rw
      (
        turn,
        split_once_of_Lacks b'<' (escape_text as_entity key) (codes "/Key>" ++ t)
            (escape_text-Lacks as_entity key),
        decode-escape_text as_entity key,
      )
      refl

-- The turns that pass over the text of a version and of `Quiet`.
pub turn_version :
    (as_entity : ℕ → Bool) (version t : Text) (keys : List Text)
    → turn (escape_text as_entity version ++ (codes "</VersionId>" ++ t)) (in_version keys)
      ≡ ok (some (t, in_object keys))
unfolding turn read_text read_markup read_element read_tag close_tag
turn_version as_entity version t keys =
    rw
      (
        turn,
        split_once_of_Lacks b'<' (escape_text as_entity version) (codes "/VersionId>" ++ t)
            (escape_text-Lacks as_entity version),
      )
      refl

pub turn_quiet :
    (t : Text) (keys : List Text)
    → turn (codes "true" ++ (codes "</Quiet>" ++ t)) (in_quiet keys) ≡ ok (some (t, inside keys))
unfolding turn read_text read_markup read_element read_tag close_tag
turn_quiet t keys = refl

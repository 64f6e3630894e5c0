-- ===== src/Sign/Body.antt =====
-- src/catalog/v1/sign.rs: the keys that the body of a `DeleteObjects` names. The scanner's place in
-- the body is the text that is left; a turn of its loop takes a tag at least.
pub mod Layout
pub mod Turns
pub mod Written
pub mod Ends
use rustberg.Common.{
  ℕ, zero, suc, ◌+◌, Text, codes, text_eq, Bool, true, false, not, ◌&&◌, ◌||◌, Option, none, some,
  List, [], ◌∷◌, ◌++◌, any, length, Result, ok, err, ok_or, ◌>>=◌, if◌then◌else◌, ◌==◌, is_empty,
  is_some, strip_prefix, split_once, trim, trim_end_char, starts_with_char, ends_with_char,
  is_whitespace,
}
use rustberg.Sign.{
  BodyFault, stray_text, bad_entity, inner_instruction, open_declaration, declaration, open_tag,
  mismatched_tag, second_root, stray_attribute, unexpected_element, misplaced_element,
  unclosed_element, no_objects, starts_with,
}

-- A closure's `Err(refuse(why))`.
abbrev pub refuse : Bool → BodyFault → Result (Unit {0}) BodyFault
refuse true why = err why
refuse false why = ok tt

unfoldable pub require_blank : Text → Result (Unit {0}) BodyFault
unfolding trim
require_blank text = refuse (not (is_empty (trim text))) stray_text

-- The character that an entity stands for and the length of its name, from what follows the `&`.
unfoldable pub entity : Text → Option (ℕ × ℕ)
entity tail =
    if starts_with (codes "amp;") tail
    then some (b'&', 4)
    else if starts_with (codes "lt;") tail
    then some (b'<', 3)
    else if starts_with (codes "gt;") tail
    then some (b'>', 3)
    else if starts_with (codes "quot;") tail
    then some (b'"', 5)
    else if starts_with (codes "apos;") tail
    then some (0x27, 5)
    else none

-- The loop of `decode_entities`, the number of characters of a resolved entity that it passes over.
unfoldable pub resolve_entities : ℕ → Text → Result Text BodyFault
unfolding entity
resolve_entities skip [] = ok []
resolve_entities (suc skip) (c ∷ s) = resolve_entities skip s
resolve_entities zero (c ∷ s) = elim (c == b'&') [
  | true ↦ elim (entity s) [
    | none ↦ err bad_entity
    | some (resolved, width) ↦ do out ← resolve_entities width s; ok (resolved ∷ out)
  ]
  | false ↦ do out ← resolve_entities zero s; ok (c ∷ out)
]

unfoldable pub decode_entities : Text → Result Text BodyFault
unfolding resolve_entities
decode_entities text = if not (any (λ c. c == b'&') text) then ok text else resolve_entities 0 text

-- The stack of open elements, the innermost first, the keys so far in order, and whether the root
-- element has ended.
pub record Scan : Type 0 where
  pub open_names : List Text
  pub keys : List Text
  pub root_closed : Bool

-- The text before a tag.
unfoldable pub read_text : List Text → List Text → Text → Result (List Text) BodyFault
unfolding require_blank decode_entities
read_text [] keys text = do blank ← require_blank text; ok keys
read_text (name ∷ names) keys text =
    if text_eq name (codes "Key")
    then (do key ← decode_entities text; ok (keys ++ key ∷ []))
    else if text_eq name (codes "Quiet") || text_eq name (codes "VersionId")
    then ok keys
    else do blank ← require_blank text; ok keys

-- A closing tag.
unfoldable pub close_tag : Text → Scan → Result Scan BodyFault
unfolding trim
close_tag name st = elim st.open_names [
  | [] ↦ err mismatched_tag
  | expected ∷ names ↦
      if text_eq expected (trim name)
      then ok (record {
        open_names = names;
        keys = st.keys;
        root_closed = st.root_closed || is_empty names;
      })
      else err mismatched_tag
]

-- `tag.find(char::is_whitespace)`, and the texts before and after.
unfoldable pub split_name : Text → Text × Text
split_name [] = ([], [])
split_name (c ∷ s) =
    let (name, rest) = split_name s in if is_whitespace c then ([], c ∷ s) else (c ∷ name, rest)

unfoldable pub expected_depth : Text → Option ℕ
expected_depth name =
    if text_eq name (codes "Delete")
    then some 0
    else if text_eq name (codes "Object")
    then some 1
    else if text_eq name (codes "Quiet")
    then some 1
    else if text_eq name (codes "Key") || text_eq name (codes "VersionId")
    then some 2
    else none

-- An opening tag of an element and its attributes.
unfoldable pub open_element : Bool → Text × Text → Scan → Result Scan BodyFault
unfolding trim expected_depth
open_element self_closing (name, attributes) st = do
  plain ←
      refuse
        (not (is_empty (trim attributes))
          && not (is_empty st.open_names && text_eq name (codes "Delete")))
        stray_attribute
  depth ← ok_or unexpected_element (expected_depth name)
  placed ← refuse (not (length st.open_names == depth)) misplaced_element
  ok (
      if self_closing
      then record {
        open_names = st.open_names;
        keys = st.keys;
        root_closed = st.root_closed || is_empty st.open_names;
      }
      else record {
        open_names = name ∷ st.open_names;
        keys = st.keys;
        root_closed = st.root_closed;
      })

unfoldable pub read_tag : Text → Scan → Result Scan BodyFault
unfolding close_tag open_element split_name trim trim_end_char
read_tag tag st = elim (strip_prefix (codes "/") tag) [
  | some name ↦ close_tag name st
  | none ↦ do
    first ← refuse st.root_closed second_root
    open_element (ends_with_char b'/' tag) (split_name (trim (trim_end_char b'/' tag))) st
]

-- A declaration `<?…?>`, and a tag: what follows it.
read_declaration : Text → Scan → Result (Text × Scan) BodyFault
unfolding split_once
read_declaration after st = do
  outer ← refuse (not (is_empty st.open_names)) inner_instruction
  (_, rest) ← ok_or open_declaration (split_once (codes "?>") after)
  ok (rest, st)

unfoldable pub read_element : Text → Scan → Result (Text × Scan) BodyFault
unfolding read_tag split_once
read_element after st = do
  (tag, rest) ← ok_or open_tag (split_once (codes ">") after)
  next ← read_tag tag st
  ok (rest, next)

-- What follows a `<`.
unfoldable pub read_markup : Text → Scan → Result (Text × Scan) BodyFault
unfolding read_declaration read_element
read_markup after st =
    if starts_with_char b'?' after
    then read_declaration after st
    else if starts_with_char b'!' after
    then err declaration
    else read_element after st

-- One turn of the loop: `none` after the last tag.
unfoldable pub turn : Text → Scan → Result (Option (Text × Scan)) BodyFault
unfolding require_blank read_text read_markup split_once
turn rest st = elim (split_once (codes "<") rest) [
  | none ↦ do blank ← require_blank rest; ok none
  | some (text, after) ↦ do
    keys ← read_text st.open_names st.keys text
    next ←
        read_markup after
          (record { open_names = st.open_names; keys = keys; root_closed = st.root_closed })
    ok (some next)
]

-- The loop; `none` is out of fuel.
unfoldable pub scan : ℕ → Text → Scan → Result (Option Scan) BodyFault
unfolding turn
scan zero rest st = ok none
scan (suc fuel) rest st = if is_empty rest then ok (some st) else do
  next ← turn rest st
  elim next [ none ↦ ok (some st) | some (left, st') ↦ scan fuel left st' ]

-- The tests after the loop.
unfoldable pub finish : Option Scan → Result (Option (List Text)) BodyFault
finish none = ok none
finish (some st) = do
  closed ← refuse (not (is_empty st.open_names)) unclosed_element
  named ← refuse (is_empty st.keys) no_objects
  ok (some st.keys)

abbrev pub start : Scan
start = record { open_names = []; keys = []; root_closed = false }

-- One turn for each character of the body and one more.
unfoldable pub delete_keys : Text → Result (Option (List Text)) BodyFault
unfolding scan finish
delete_keys body = do st ← scan (suc (length body)) body start; finish st

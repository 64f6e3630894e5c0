-- ===== src/Names.antt =====
-- The names of src/names.rs: what a namespace level, a table or view name, a tenant, a principal, a
-- role and a property may be. The Unicode tables are other libraries': `Unicode` is what the code
-- asks them.
pub mod Accepted
pub mod Roles
pub mod Storage
pub mod Chain
mod Examples
use rustberg.Common.{
  ℕ, ◌+◌, Text, codes, text_eq, trim, utf8_len, is_empty, Bool, true, false, not, ◌&&◌, ◌||◌,
  Option, none, some, List, [], ◌∷◌, length, ltb, ◌==◌, Result, ok, err, ◌>>=◌, if◌then◌else◌,
  is_some,
}

abbrev pub max_name_length : ℕ
max_name_length = 255

abbrev pub max_namespace_depth : ℕ
max_namespace_depth = 10

abbrev pub max_properties_count : ℕ
max_properties_count = 100

abbrev pub max_property_key_length : ℕ
max_property_key_length = 255

abbrev pub max_property_value_length : ℕ
max_property_value_length = 4096

-- `IsNormalized`, the answer of the quick check.
pub data IsNormalized : Type 0 where
  yes no maybe : IsNormalized

-- The functions of the crates `unicode_properties` and `unicode_normalization` that the code calls:
-- whether a character is in the general category group `Other`, the quick check for normal form C,
-- and the normal form.
pub record Unicode : Type 0 where
  pub is_other : ℕ → Bool
  pub is_nfc_quick : Text → IsNormalized
  pub nfc : Text → Text

-- What a message says the name is, and what it says is wrong with it.
pub data Context : Type 0 where
  table_name tenant_id principal_id view_chain : Context
  namespace_segment : ℕ → Context

pub data Fault : Type 0 where
  empty_name too_long : Fault
  other_character : ℕ → Fault
  not_normalized : Text → Fault
  path_separator : ℕ → Fault
  directory_name outer_whitespace : Fault

-- `AppError::BadRequest`
pub data AppError : Type 0 where
  bad_name : Context → Fault → AppError
  empty_namespace deep_namespace many_properties : AppError
  long_key long_value : Text → AppError

-- `Iterator::find`
unfoldable pub find : (ℕ → Bool) → Text → Option ℕ
find p [] = none
find p (c ∷ s) = let rest = find p s in if p c then some c else rest

-- An early return, and one that names the character found.
abbrev pub refuse : Bool → AppError → Result (Unit {0}) AppError
refuse true e = err e
refuse false e = ok tt

abbrev pub refuse_found : Option ℕ → (ℕ → AppError) → Result (Unit {0}) AppError
refuse_found none e = ok tt
refuse_found (some c) e = err (e c)

-- Membership in `FORBIDDEN_IN_NAME`.
abbrev pub is_forbidden : ℕ → Bool
is_forbidden c = c == b'/' || c == b'\\'

abbrev pub is_yes : IsNormalized → Bool
is_yes yes = true
is_yes no = false
is_yes maybe = false

module _ (u : Unicode) where
  abbrev pub is_denormal : Text → Bool
  is_denormal name = not (is_yes (u.is_nfc_quick name)) && not (text_eq (u.nfc name) name)

  unfoldable pub validate_name : Text → Context → Result (Unit {0}) AppError
  unfolding find trim
  validate_name name context = do
    some_text ← refuse (is_empty name) (bad_name context empty_name)
    short ← refuse (ltb max_name_length (length name)) (bad_name context too_long)
    visible ← refuse_found (find u.is_other name) (λ c. bad_name context (other_character c))
    normal ← refuse (is_denormal name) (bad_name context (not_normalized (u.nfc name)))
    whole ← refuse_found (find is_forbidden name) (λ c. bad_name context (path_separator c))
    proper ←
        refuse (text_eq name (codes ".") || text_eq name (codes ".."))
          (bad_name context directory_name)
    refuse (not (text_eq (trim name) name)) (bad_name context outer_whitespace)

  -- The loop of `validate_namespace`, `i` the index of the first of the segments.
  validate_segments : ℕ → List Text → Result (Unit {0}) AppError
  unfolding validate_name
  validate_segments i [] = ok tt
  validate_segments i (segment ∷ segments) = do
    checked ← validate_name segment (namespace_segment (i + 1))
    validate_segments (i + 1) segments

  unfoldable pub validate_namespace : List Text → Result (Unit {0}) AppError
  unfolding validate_segments
  validate_namespace namespace = do
    some_level ← refuse (is_empty namespace) empty_namespace
    shallow ← refuse (ltb max_namespace_depth (length namespace)) deep_namespace
    validate_segments 0 namespace

  unfoldable pub validate_table_name : Text → Result (Unit {0}) AppError
  unfolding validate_name
  validate_table_name name = validate_name name table_name

  unfoldable pub validate_tenant_id : Text → Result (Unit {0}) AppError
  unfolding validate_name
  validate_tenant_id tenant = validate_name tenant tenant_id

  unfoldable pub validate_principal_id : Text → Result (Unit {0}) AppError
  unfolding find trim
  validate_principal_id id = do
    some_text ← refuse (is_empty id) (bad_name principal_id empty_name)
    short ← refuse (ltb max_name_length (length id)) (bad_name principal_id too_long)
    visible ← refuse_found (find u.is_other id) (λ c. bad_name principal_id (other_character c))
    normal ← refuse (is_denormal id) (bad_name principal_id (not_normalized (u.nfc id)))
    refuse (not (text_eq (trim id) id)) (bad_name principal_id outer_whitespace)

  -- `unusable_role_char` after its first test.
  unusable_char : Text → Option ℕ → Option ℕ
  unfolding find trim
  unusable_char role (some found) = some found
  unusable_char role none =
      if is_denormal role
      then find (λ c. not (ltb c 0x80)) role
      else if not (text_eq (trim role) role)
      then some 0x20
      else none

  unfoldable pub unusable_role_char : Text → Option ℕ
  unfolding unusable_char
  unusable_role_char role =
      if is_empty role || ltb max_name_length (length role)
      then some 0
      else unusable_char role (find u.is_other role)

  unfoldable pub usable_roles : List Text → List Text
  unfolding unusable_role_char
  usable_roles [] = []
  usable_roles (role ∷ claimed) =
      let rest = usable_roles claimed in
      if is_some (unusable_role_char role) then rest else role ∷ rest

-- The loop of `validate_properties`.
validate_entries : List (Text × Text) → Result (Unit {0}) AppError
validate_entries [] = ok tt
validate_entries ((key, value) ∷ properties) = do
  short_key ← refuse (ltb max_property_key_length (utf8_len key)) (long_key key)
  short_value ← refuse (ltb max_property_value_length (utf8_len value)) (long_value key)
  validate_entries properties

unfoldable pub validate_properties : List (Text × Text) → Result (Unit {0}) AppError
unfolding validate_entries
validate_properties properties = do
  few ← refuse (ltb max_properties_count (length properties)) many_properties
  validate_entries properties

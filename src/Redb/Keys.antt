-- ===== src/Redb/Keys.antt =====
-- The keys of src/catalog/redb.rs, with the separators of src/names.rs: how the names of a
-- namespace and of a table become one string, and which keys a range scan covers.
pub mod Injective
use rustberg.Common.{
  ℕ, Text, strip_prefix, text_ltb, text_leb, Bool, true, false, ◌&&◌, Option, none, some, List, [],
  ◌∷◌, ◌++◌, ◌≡◌, refl, ltb, join, arith,
}

-- `PART_SEPARATOR` and `NAME_SEPARATOR` of src/names.rs.
abbrev pub part_separator : ℕ
part_separator = 0x1f

abbrev pub name_separator : ℕ
name_separator = 0x1e

abbrev pub NamespaceIdent : Type 0
NamespaceIdent = List Text

pub record TableIdent : Type 0 where
  pub namespace : NamespaceIdent
  pub name : Text

unfoldable pub namespace_key : NamespaceIdent → Text
unfolding join
namespace_key ns = join part_separator ns

unfoldable pub namespace_child_prefix : NamespaceIdent → Text
namespace_child_prefix ns = namespace_key ns ++ part_separator ∷ []

unfoldable pub table_key : TableIdent → Text
table_key t = namespace_key t.namespace ++ name_separator ∷ t.name

unfoldable pub table_prefix : NamespaceIdent → Text
table_prefix ns = namespace_key ns ++ name_separator ∷ []

unfoldable pub prefix_end : Text → Text
prefix_end prefix = prefix ++ 0xffff ∷ []

-- Whether a key lies in `prefix..prefix_end(prefix)`.
abbrev pub scanned : Text → Text → Bool
scanned prefix key = text_leb prefix key && text_ltb key (prefix_end prefix)

-- What follows the prefix is empty, or begins with a code point below U+FFFF.
abbrev pub reached : Option Text → Bool
reached none = false
reached (some []) = true
reached (some (c ∷ _)) = ltb c 0xffff

-- A scan of a prefix covers exactly the keys that begin with it and go on, if at all, with a code
-- point below U+FFFF: a key that goes on with a supplementary character lies beyond the range's end.
pub scanned-eq : (prefix key : Text) → scanned prefix key ≡ reached (strip_prefix prefix key)
unfolding prefix_end
scanned-eq [] [] = refl
scanned-eq [] (c ∷ key) = ground arith
scanned-eq (p ∷ prefix) [] = ground arith
scanned-eq (p ∷ prefix) (c ∷ key) = ground (arith, scanned-eq prefix key)

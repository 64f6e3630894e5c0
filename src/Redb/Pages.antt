-- ===== src/Redb/Pages.antt =====
-- Listing by pages: `PageRequest` and `Page` of src/catalog/store.rs, and the scan of tables and of
-- views in src/catalog/redb.rs.
pub mod Complete
pub mod Follow
mod Examples
use rustberg.Common.{
  ℕ, zero, suc, ◌+◌, Text, not, Option, none, some, is_some, List, [], ◌∷◌, ◌++◌, map, length, ltb,
  Result, ok, err, if◌then◌else◌, strip_prefix, split_at_char,
}
use rustberg.Redb.Maps.{Map, range}
use rustberg.Redb.Keys.{NamespaceIdent, TableIdent, table_prefix, prefix_end, name_separator}
use rustberg.Redb.State.{ErrorKind, namespace_not_found, Registry, get_namespace_record}

abbrev pub max_page_size : ℕ
max_page_size = 1000

pub record PageRequest : Type 0 where
  pub after : Option Text
  pub limit : ℕ

-- `limit.clamp(1, MAX_PAGE_SIZE)`
abbrev pub effective_limit : PageRequest → ℕ
effective_limit page =
    if ltb page.limit 1
    then 1
    else if ltb max_page_size page.limit
    then max_page_size
    else page.limit

abbrev pub probe_limit : PageRequest → ℕ
probe_limit page = effective_limit page + 1

pub record Entry {ℓ} (A : Type ℓ) : Type ℓ where
  pub cursor : Text
  pub item : A

pub record Page {ℓ} (A : Type ℓ) : Type ℓ where
  pub entries : List (Entry A)
  pub next : Option Text

-- `Vec::truncate`, and a loop that stops once it has so many.
abbrev pub take {ℓ} : {A : Type ℓ} → ℕ → List A → List A
take zero xs = []
take (suc n) [] = []
take (suc n) (x ∷ xs) = x ∷ take n xs

-- The cursor of the last row.
abbrev pub last_cursor {ℓ} : {A : Type ℓ} → List (Entry A) → Option Text
last_cursor [] = none
last_cursor (e ∷ []) = some e.cursor
last_cursor (e ∷ f ∷ rows) = last_cursor (f ∷ rows)

unfoldable pub from_probe {ℓ} : {A : Type ℓ} → List (Entry A) → PageRequest → Page A
from_probe rows request =
    let limit = effective_limit request in
    if ltb limit (length rows)
    then record { entries = take limit rows; next = last_cursor (take limit rows) }
    else record { entries = rows; next = none }

-- The key after a cursor that is in the prefix's range; any other cursor is passed over.
abbrev pub scan_start : Text → PageRequest → Text
scan_start prefix page = elim page.after [
  | none ↦ prefix
  | some cursor ↦ if is_some (strip_prefix prefix cursor) then cursor ++ 0 ∷ [] else prefix
]

-- `key.rsplit(NAME_SEPARATOR).next()`
abbrev pub last_part : List Text → Text
last_part [] = []
last_part (s ∷ []) = s
last_part (s ∷ t ∷ ss) = last_part (t ∷ ss)

abbrev pub row_of {ℓ} : {V : Type ℓ} → NamespaceIdent → Text × V → Entry TableIdent
row_of namespace (key, _) = record {
  cursor = key;
  item = record { namespace = namespace; name = last_part (split_at_char name_separator key) };
}

unfoldable pub list_page {ℓ} : {V : Type ℓ} → NamespaceIdent → PageRequest → Map V → Page TableIdent
unfolding from_probe
list_page namespace page m =
    let prefix = table_prefix namespace in
    from_probe
      (map (row_of namespace)
        (take (probe_limit page) (range m (scan_start prefix page) (prefix_end prefix))))
      page

-- `definition` selects the table that is read, tables or views.
unfoldable pub list_tabulars {ℓ} :
    {V : Type ℓ}
    → NamespaceIdent
    → PageRequest
    → (Registry → Map V)
    → Registry
    → Result (Page TableIdent) ErrorKind
unfolding list_page
list_tabulars namespace page definition r =
    if is_some (get_namespace_record namespace r)
    then ok (list_page namespace page (definition r))
    else err namespace_not_found

-- A client that follows the cursors until there is none, at most `fuel` pages.
unfoldable pub follow {ℓ} :
    {V : Type ℓ} → ℕ → NamespaceIdent → PageRequest → Map V → Option (List (Entry TableIdent))
follow zero namespace page m = none
follow (suc fuel) namespace page m =
    let here = list_page namespace page m in
    elim here.next [
      | none ↦ some here.entries
      | some cursor ↦
          elim (follow fuel namespace (record { after = some cursor; limit = page.limit }) m) [
            | none ↦ none
            | some rest ↦ some (here.entries ++ rest)
          ]
    ]

-- ===== src/Federation/Root.antt =====
-- src/catalog/federated.rs: the listing of the top level, first the mounts and then the native
-- catalog's own namespaces, and what the configuration says of all mounts.
use rustberg.Common.{
  ℕ, ◌-◌, Text, codes, text_eq, text_leb, Bool, Option, none, some, List, [], ◌∷◌, ◌++◌, map,
  length, Result, ok, err, if◌then◌else◌, is_empty, is_some, leb, split_once,
}
use rustberg.Location.Bound.{namespace_prefix}
use rustberg.Redb.Keys.{NamespaceIdent}
use rustberg.Redb.Pages.{PageRequest, Entry, Page, effective_limit, take, last_cursor}
use rustberg.Federation.{
  Library, Capabilities, intersect, Error, of_namespaces, list_namespaces, Mount, FederatedCatalog,
  route, inner_of,
}
use rustberg.Federation.Dispatch.{Backend}

abbrev pub root_cursor_sep : ℕ
root_cursor_sep = 0x1d

pub data RootCursor : Type 0 where
  at_mounts at_native : Option Text → RootCursor

unfoldable pub mount_token : Text → Text
mount_token name = b'm' ∷ root_cursor_sep ∷ name

unfoldable pub native_token : Text → Text
native_token cursor = b'n' ∷ root_cursor_sep ∷ cursor

-- The match of `parse` on the tag.
unfoldable pub tagged : Option (Text × Text) → RootCursor
tagged none = at_mounts none
tagged (some (tag, rest)) =
    let after = if is_empty rest then none else some rest in
    if text_eq tag (codes "m")
    then at_mounts after
    else if text_eq tag (codes "n")
    then at_native after
    else at_mounts none

unfoldable pub parse_cursor : Option Text → RootCursor
unfolding tagged split_once
parse_cursor none = at_mounts none
parse_cursor (some cursor) = tagged (split_once (root_cursor_sep ∷ []) cursor)

unfoldable pub after_native : RootCursor → Option Text
after_native (at_native after) = after
after_native (at_mounts after) = none

-- The names in order.
unfoldable pub insert_name : Text → List Text → List Text
insert_name name [] = name ∷ []
insert_name name (n ∷ names) =
    let rest = insert_name name names in if text_leb name n then name ∷ n ∷ names else n ∷ rest

module _ (lib : Library) where
  unfoldable pub sorted_names : List (Text × Mount lib) → List Text
  unfolding insert_name
  sorted_names [] = []
  sorted_names ((name, _) ∷ mounts) = insert_name name (sorted_names mounts)

  -- `names` without those that are not after the cursor.
  unfoldable pub names_after : Option Text → List Text → List Text
  names_after none names = names
  names_after (some after) [] = []
  names_after (some after) (name ∷ names) =
      let rest = names_after (some after) names in if text_leb name after then rest else name ∷ rest

  abbrev mount_entry : Text → Entry NamespaceIdent
  mount_entry name = record { cursor = mount_token name; item = name ∷ [] }

  -- Phase 1, at most `limit` entries.
  unfoldable pub mount_entries : FederatedCatalog lib → RootCursor → ℕ → List (Entry NamespaceIdent)
  unfolding sorted_names names_after mount_token
  mount_entries fed (at_mounts after) limit =
      take limit (map mount_entry (names_after after (sorted_names fed.mounts)))
  mount_entries fed (at_native after) limit = []

  -- What the native catalog is asked, if the mounts have not filled the page.
  unfoldable pub native_request : FederatedCatalog lib → PageRequest → Option PageRequest
  unfolding mount_entries after_native parse_cursor
  native_request fed page =
      let limit = effective_limit page in
      let resume = parse_cursor page.after in
      let entries = mount_entries fed resume limit in
      if leb limit (length entries)
      then none
      else some (record { after = after_native resume; limit = limit - length entries })

  abbrev is_mounted : FederatedCatalog lib → NamespaceIdent → Bool
  is_mounted fed ns = is_some (route lib fed ns)

  -- The native entries but those that a mount shadows.
  unfoldable pub native_entries :
      FederatedCatalog lib → List (Entry NamespaceIdent) → List (Entry NamespaceIdent)
  unfolding native_token route
  native_entries fed [] = []
  native_entries fed (entry ∷ entries) =
      let rest = native_entries fed entries in
      if is_mounted fed entry.item
      then rest
      else record { cursor = native_token entry.cursor; item = entry.item } ∷ rest

  abbrev map_token : Option Text → Option Text
  map_token none = none
  map_token (some cursor) = some (native_token cursor)

  root_page :
      FederatedCatalog lib
      → List (Entry NamespaceIdent)
      → Result (Page NamespaceIdent) Error
      → Result (Page NamespaceIdent) Error
  unfolding native_entries native_token
  root_page fed entries (err e) = err e
  root_page fed entries (ok page) =
      ok (record {
        entries = entries ++ native_entries fed page.entries;
        next = map_token page.next;
      })

  unfoldable pub list_root :
      Backend lib → FederatedCatalog lib → PageRequest → Result (Page NamespaceIdent) Error
  unfolding native_request root_page mount_entries parse_cursor
  list_root backend fed page =
      let entries = mount_entries fed (parse_cursor page.after) (effective_limit page) in
      elim (native_request fed page) [
        | none ↦ ok (record { entries = entries; next = last_cursor entries })
        | some request ↦
            root_page fed entries
              (backend of_namespaces (list_namespaces none request) fed.native).0
      ]

  -- Where a namespace's storage is, and what may be done with it.
  unfoldable pub warehouse_for :
      (NamespaceIdent → Option Text) → FederatedCatalog lib → NamespaceIdent → Option Text
  unfolding route
  warehouse_for native fed ns = elim (route lib fed ns) [
    | none ↦ native ns
    | some mount ↦ mount.warehouse
  ]

  unfoldable pub namespace_prefix_for :
      (NamespaceIdent → Option Text) → FederatedCatalog lib → NamespaceIdent → Option Text
  unfolding route
  namespace_prefix_for native fed ns = elim (route lib fed ns) [
    | none ↦ native ns
    | some mount ↦ elim mount.warehouse [
      | none ↦ none
      | some warehouse ↦ some (namespace_prefix warehouse (inner_of lib ns))
    ]
  ]

  unfoldable pub capabilities_for :
      (Option NamespaceIdent → Capabilities)
      → FederatedCatalog lib
      → Option NamespaceIdent
      → Capabilities
  unfolding route
  capabilities_for native fed none = native none
  capabilities_for native fed (some ns) = elim (route lib fed ns) [
    | none ↦ native (some ns)
    | some mount ↦ mount.capabilities
  ]

  unfoldable pub fold_mounts : Capabilities → List (Text × Mount lib) → Capabilities
  unfolding intersect
  fold_mounts acc [] = acc
  fold_mounts acc ((_, mount) ∷ mounts) = fold_mounts (intersect acc mount.capabilities) mounts

  unfoldable pub effective_capabilities :
      (Option NamespaceIdent → Capabilities) → FederatedCatalog lib → Capabilities
  unfolding fold_mounts
  effective_capabilities native fed = fold_mounts (native none) fed.mounts

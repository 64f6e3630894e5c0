-- ===== src/Federation/Perform.antt =====
-- src/catalog/federated.rs: which catalog an operation reaches, what it is asked there, and what
-- comes back.
use rustberg.Common.{
  Text, codes, text_eq, true, false, not, ◌||◌, none, some, List, [], ◌∷◌, map, Result, ok, err,
  if◌then◌else◌, is_empty, ◌>>=◌,
}
use rustberg.Redb.Keys.{NamespaceIdent, TableIdent}
use rustberg.Redb.Pages.{Page}
use rustberg.Federation.{
  Library, can_write, can_views, can_multi_table_commit, can_register, can_stage_create, can_purge,
  Error, mount_exists, mount_properties, mount_kept, Namespace, Kind, Mount, Answer, Operation,
  list_namespaces, create_namespace, get_namespace, namespace_exists, update_namespace,
  drop_namespace, list_tables, create_table, stage_create_table, metadata_pointer, load_table,
  table_exists, register_table, commit_table, commit_tables_atomic, rename_table, drop_table,
  purge_table, list_views, view_exists, load_view, register_view, create_view, update_view,
  drop_view, rename_view, inner_of, require, inner_namespace, inner_ident,
}

-- `properties.insert`
unfoldable pub insert_property : Text → Text → List (Text × Text) → List (Text × Text)
insert_property key value [] = (key, value) ∷ []
insert_property key value ((k, v) ∷ properties) =
    let rest = insert_property key value properties in
    if text_eq k key then (key, value) ∷ properties else (k, v) ∷ rest

abbrev pub tenant_id_property : Text
tenant_id_property = codes "rustberg.internal.tenant-id"

unfoldable pub set_owner : List (Text × Text) → Text → List (Text × Text)
unfolding insert_property
set_owner properties tenant_id = insert_property tenant_id_property tenant_id properties

abbrev empty_page : {A : Type 0} → Page A
empty_page = record { entries = []; next = none }

abbrev pub map_entries : {A : Type 0} → (A → A) → Page A → Page A
map_entries f page = record {
  entries = map (λ e. record { cursor = e.cursor; item = f e.item }) page.entries;
  next = page.next;
}

module _ (lib : Library) where
  -- What the catalog knows itself, or asks a mount.
  pub data Step (k : Kind) : Type 0 where
    known : Answer lib k → Step k
    ask : Operation lib k → Step k

  unfoldable pub mount_root : Mount lib → Namespace
  unfolding set_owner
  mount_root mount = record {
    name = mount.name ∷ [];
    properties = insert_property (codes "rustberg.mount") mount.name (set_owner [] mount.owner);
  }

  -- The refusal of a mount root.
  unfoldable pub beneath : List Text → Error → Result NamespaceIdent Error
  beneath inner e = if is_empty inner then err e else ok inner

  unfoldable pub inner_commits :
      List (TableIdent × lib.Commit) → Result (List (TableIdent × lib.Commit)) Error
  unfolding inner_ident
  inner_commits [] = ok []
  inner_commits ((t, commit) ∷ commits) = do
    inner ← inner_ident lib t
    rest ← inner_commits commits
    ok ((inner, commit) ∷ rest)

  -- The guards of an operation that a mount gets, and the operation under the mount's own names.
  unfoldable pub enter : {k : Kind} → Mount lib → Operation lib k → Result (Step k) Error
  unfolding require inner_namespace inner_ident mount_root beneath inner_commits
  enter mount (list_namespaces none page) = ok (ask (list_namespaces none page))
  enter mount (list_namespaces (some parent) page) =
      if is_empty (inner_of lib parent)
      then ok (ask (list_namespaces none page))
      else ok (ask (list_namespaces (some (inner_of lib parent)) page))
  enter mount (create_namespace ns properties) = do
    writes ← require lib mount can_write
    inner ← beneath (inner_of lib ns) (mount_exists mount.name)
    ok (ask (create_namespace inner properties))
  enter mount (get_namespace ns) =
      if is_empty (inner_of lib ns)
      then ok (known (mount_root mount))
      else ok (ask (get_namespace (inner_of lib ns)))
  enter mount (namespace_exists ns) =
      if is_empty (inner_of lib ns)
      then ok (known true)
      else ok (ask (namespace_exists (inner_of lib ns)))
  enter mount (update_namespace ns properties) = do
    writes ← require lib mount can_write
    inner ← beneath (inner_of lib ns) (mount_properties mount.name)
    ok (ask (update_namespace inner properties))
  enter mount (drop_namespace ns) = do
    writes ← require lib mount can_write
    inner ← beneath (inner_of lib ns) (mount_kept mount.name)
    ok (ask (drop_namespace inner))
  enter mount (list_tables ns page) =
      if is_empty (inner_of lib ns)
      then ok (known empty_page)
      else ok (ask (list_tables (inner_of lib ns) page))
  enter mount (create_table ns creation) = do
    writes ← require lib mount can_write
    inner ← inner_namespace lib (inner_of lib ns)
    ok (ask (create_table inner creation))
  enter mount (stage_create_table ns creation) = do
    stages ← require lib mount can_stage_create
    inner ← inner_namespace lib (inner_of lib ns)
    ok (ask (stage_create_table inner creation))
  enter mount (metadata_pointer t) = do inner ← inner_ident lib t; ok (ask (metadata_pointer inner))
  enter mount (load_table t) = do inner ← inner_ident lib t; ok (ask (load_table inner))
  enter mount (table_exists t) = do inner ← inner_ident lib t; ok (ask (table_exists inner))
  enter mount (register_table t location) = do
    registers ← require lib mount can_register
    inner ← inner_ident lib t
    ok (ask (register_table inner location))
  enter mount (commit_table t commit) = do
    writes ← require lib mount can_write
    inner ← inner_ident lib t
    ok (ask (commit_table inner commit))
  enter mount (commit_tables_atomic commits) = do
    commits' ← require lib mount can_multi_table_commit
    inner ← inner_commits commits
    ok (ask (commit_tables_atomic inner))
  enter mount (rename_table src dest) = do
    writes ← require lib mount can_write
    from ← inner_ident lib src
    to ← inner_ident lib dest
    ok (ask (rename_table from to))
  enter mount (drop_table t) = do
    writes ← require lib mount can_write
    inner ← inner_ident lib t
    ok (ask (drop_table inner))
  enter mount (purge_table t) = do
    purges ← require lib mount can_purge
    inner ← inner_ident lib t
    ok (ask (purge_table inner))
  enter mount (list_views ns page) =
      if not mount.capabilities.views || is_empty (inner_of lib ns)
      then ok (known empty_page)
      else ok (ask (list_views (inner_of lib ns) page))
  enter mount (view_exists v) =
      if not mount.capabilities.views
      then ok (known false)
      else (do inner ← inner_ident lib v; ok (ask (view_exists inner)))
  enter mount (load_view v) = do
    views ← require lib mount can_views
    inner ← inner_ident lib v
    ok (ask (load_view inner))
  enter mount (register_view v location) = do
    views ← require lib mount can_views
    registers ← require lib mount can_register
    inner ← inner_ident lib v
    ok (ask (register_view inner location))
  enter mount (create_view v metadata) = do
    views ← require lib mount can_views
    writes ← require lib mount can_write
    inner ← inner_ident lib v
    ok (ask (create_view inner metadata))
  enter mount (update_view v expected metadata) = do
    views ← require lib mount can_views
    writes ← require lib mount can_write
    inner ← inner_ident lib v
    ok (ask (update_view inner expected metadata))
  enter mount (drop_view v) = do
    views ← require lib mount can_views
    writes ← require lib mount can_write
    inner ← inner_ident lib v
    ok (ask (drop_view inner))
  enter mount (rename_view src dest) = do
    views ← require lib mount can_views
    writes ← require lib mount can_write
    from ← inner_ident lib src
    to ← inner_ident lib dest
    ok (ask (rename_view from to))

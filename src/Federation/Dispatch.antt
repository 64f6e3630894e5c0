-- ===== src/Federation/Dispatch.antt =====
-- src/catalog/federated.rs: the operations of the federated catalog, over a function that stands for
-- the catalogs behind it.
use rustberg.Common.{
  Text, text_eq, Bool, true, false, Option, none, some, List, [], ◌∷◌, map, Result, ok, err,
  if◌then◌else◌,
}
use rustberg.Redb.Keys.{TableIdent}
use rustberg.Federation.{
  Library, Error, elsewhere, cross_mount, cross_catalogs, Namespace, Kind, of_namespaces,
  of_namespace, of_flag, of_done, of_identifiers, of_table, of_pointer, of_tables, of_view, Mount,
  FederatedCatalog, Table, Answer, Operation, list_namespaces, create_namespace, get_namespace,
  namespace_exists, update_namespace, drop_namespace, list_tables, create_table, stage_create_table,
  metadata_pointer, load_table, table_exists, register_table, commit_table, commit_tables_atomic,
  rename_table, drop_table, purge_table, list_views, view_exists, load_view, register_view,
  create_view, update_view, drop_view, rename_view, route, prefixed, prefixed_ident,
}
use rustberg.Federation.Perform.{set_owner, map_entries, Step, known, ask, enter}

module _ (lib : Library) where
  -- `own`, of a namespace whose name is prefixed
  unfoldable pub own : Mount lib → Namespace → Namespace
  unfolding set_owner prefixed
  own mount namespace = record {
    name = prefixed lib mount namespace.name;
    properties = set_owner namespace.properties mount.owner;
  }

  unfoldable pub prefixed_table : Mount lib → Table lib → Table lib
  unfolding prefixed_ident
  prefixed_table mount t = record {
    identifier = prefixed_ident lib mount t.identifier;
    body = t.body;
  }

  -- What a mount answered, under the names that it has here.
  unfoldable pub restore : (k : Kind) → Mount lib → Answer lib k → Answer lib k
  unfolding prefixed own prefixed_ident prefixed_table
  restore of_namespaces mount page = map_entries (prefixed lib mount) page
  restore of_namespace mount namespace = own mount namespace
  restore of_flag mount b = b
  restore of_done mount u = u
  restore of_identifiers mount page = map_entries (prefixed_ident lib mount) page
  restore of_table mount t = prefixed_table mount t
  restore of_pointer mount location = location
  restore of_tables mount ts = map (prefixed_table mount) ts
  restore of_view mount v = v

  -- Where an operation goes.
  pub data Destination : Type 0 where
    nowhere to_native : Destination
    to_mount : Mount lib → Destination
    refused : Error → Destination

  unfoldable pub single : Option (Mount lib) → Destination
  single none = to_native
  single (some mount) = to_mount mount

  -- The match of a rename.
  unfoldable pub both : Option (Mount lib) → Option (Mount lib) → Error → Destination
  both none none e = to_native
  both (some from) (some to) e = if text_eq from.name to.name then to_mount from else refused e
  both none (some to) e = refused e
  both (some from) none e = refused e

  unfoldable pub name_of : Option (Mount lib) → Option Text
  name_of none = none
  name_of (some mount) = some mount.name

  abbrev pub same_target : Option Text → Option Text → Bool
  same_target none none = true
  same_target (some a) (some b) = text_eq a b
  same_target _ _ = false

  -- The loop of `commit_tables_atomic`, after the first table, whose target is `existing`.
  unfoldable pub check_targets :
      FederatedCatalog lib → Option Text → List (TableIdent × lib.Commit) → Option Error
  unfolding name_of route
  check_targets fed existing [] = none
  check_targets fed existing ((t, _) ∷ commits) =
      let mount = name_of (route lib fed t.namespace) in
      if same_target existing mount
      then check_targets fed existing commits
      else some (cross_catalogs existing mount)

  unfoldable pub destination : {k : Kind} → FederatedCatalog lib → Operation lib k → Destination
  unfolding single both check_targets route
  destination fed (list_namespaces none page) = to_native
  destination fed (list_namespaces (some parent) page) = single (route lib fed parent)
  destination fed (create_namespace ns properties) = single (route lib fed ns)
  destination fed (get_namespace ns) = single (route lib fed ns)
  destination fed (namespace_exists ns) = single (route lib fed ns)
  destination fed (update_namespace ns properties) = single (route lib fed ns)
  destination fed (drop_namespace ns) = single (route lib fed ns)
  destination fed (list_tables ns page) = single (route lib fed ns)
  destination fed (create_table ns creation) = single (route lib fed ns)
  destination fed (stage_create_table ns creation) = single (route lib fed ns)
  destination fed (metadata_pointer t) = single (route lib fed t.namespace)
  destination fed (load_table t) = single (route lib fed t.namespace)
  destination fed (table_exists t) = single (route lib fed t.namespace)
  destination fed (register_table t location) = single (route lib fed t.namespace)
  destination fed (commit_table t commit) = single (route lib fed t.namespace)
  destination fed (commit_tables_atomic []) = nowhere
  destination fed (commit_tables_atomic ((t, _) ∷ commits)) =
      let first = route lib fed t.namespace in
      elim (check_targets fed (name_of first) commits) [ some e ↦ refused e | none ↦ single first ]
  destination fed (rename_table src dest) =
      both (route lib fed src.namespace) (route lib fed dest.namespace) (cross_mount src dest)
  destination fed (drop_table t) = single (route lib fed t.namespace)
  destination fed (purge_table t) = single (route lib fed t.namespace)
  destination fed (list_views ns page) = single (route lib fed ns)
  destination fed (view_exists v) = single (route lib fed v.namespace)
  destination fed (load_view v) = single (route lib fed v.namespace)
  destination fed (register_view v location) = single (route lib fed v.namespace)
  destination fed (create_view v metadata) = single (route lib fed v.namespace)
  destination fed (update_view v expected metadata) = single (route lib fed v.namespace)
  destination fed (drop_view v) = single (route lib fed v.namespace)
  destination fed (rename_view src dest) =
      both (route lib fed src.namespace) (route lib fed dest.namespace) (cross_mount src dest)

  -- A mount's catalog in a new state.
  unfoldable pub put_store : Text → lib.Store → List (Text × Mount lib) → List (Text × Mount lib)
  put_store name store [] = []
  put_store name store ((key, mount) ∷ mounts) =
      let rest = put_store name store mounts in
      if text_eq key name
      then (key, record mount { store = store }) ∷ mounts
      else (key, mount) ∷ rest

  -- What a catalog does when it is asked: it answers, and changes.
  abbrev pub Backend : Type 0
  Backend = (k : Kind) → Operation lib k → lib.Store → Result (Answer lib k) Error × lib.Store

  abbrev pub restored :
      (k : Kind) → Mount lib → Result (Answer lib k) Error → Result (Answer lib k) Error
  restored k mount (ok a) = ok (restore k mount a)
  restored k mount (err e) = err e

  -- The answer for a commit of no table.
  abbrev no_answer : {k : Kind} → Operation lib k → Result (Answer lib k) Error
  no_answer (commit_tables_atomic []) = ok []
  no_answer _ = err (elsewhere [])

  unfoldable pub step :
      (k : Kind)
      → Backend
      → FederatedCatalog lib
      → Mount lib
      → Result (Step lib k) Error
      → Result (Answer lib k) Error × FederatedCatalog lib
  unfolding restore put_store
  step k backend fed mount (err e) = (err e, fed)
  step k backend fed mount (ok (known a)) = (ok a, fed)
  step k backend fed mount (ok (ask inner)) =
      let (answer, store) = backend k inner mount.store in
      (
        restored k mount answer,
        record { mounts = put_store mount.name store fed.mounts; native = fed.native },
      )

  unfoldable pub perform_at :
      (k : Kind)
      → Backend
      → FederatedCatalog lib
      → Operation lib k
      → Destination
      → Result (Answer lib k) Error × FederatedCatalog lib
  unfolding step enter
  perform_at k backend fed op nowhere = (no_answer op, fed)
  perform_at k backend fed op (refused e) = (err e, fed)
  perform_at k backend fed op to_native =
      let (answer, store) = backend k op fed.native in
      (answer, record { mounts = fed.mounts; native = store })
  perform_at k backend fed op (to_mount mount) = step k backend fed mount (enter lib mount op)

  -- The methods of the federated catalog but the listing of its root.
  unfoldable pub perform :
      (k : Kind)
      → Backend
      → FederatedCatalog lib
      → Operation lib k
      → Result (Answer lib k) Error × FederatedCatalog lib
  unfolding destination perform_at
  perform k backend fed op = perform_at k backend fed op (destination fed op)

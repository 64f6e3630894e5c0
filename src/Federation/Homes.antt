-- ===== src/Federation/Homes.antt =====
-- src/catalog/federated.rs: where the namespaces live that an operation names, and where it goes.
use mathlib.Core.Path.{subst}
use rustberg.Common.{
  ◌≡◌, sym, refl, ap, Text, text_eq, text_eq_iff, true, Bool-cases, Option-cases, inl, inr, Option,
  none, some, List, [], ◌∷◌, map, arith, All,
}
use rustberg.Redb.Keys.{NamespaceIdent, TableIdent}
use rustberg.Federation.{
  Library, Error, cross_mount, Kind, Mount, FederatedCatalog, Operation, route, list_namespaces,
  create_namespace, get_namespace, namespace_exists, update_namespace, drop_namespace, list_tables,
  create_table, stage_create_table, metadata_pointer, load_table, table_exists, register_table,
  commit_table, commit_tables_atomic, rename_table, drop_table, purge_table, list_views,
  view_exists, load_view, register_view, create_view, update_view, drop_view, rename_view,
}
use rustberg.Federation.Dispatch.{
  Destination, to_native, to_mount, refused, single, both, name_of, same_target, check_targets,
  destination,
}

module _ (lib : Library) where
  -- The namespaces that an operation names, one for each table or view.
  abbrev pub namespaces_of : {k : Kind} → Operation lib k → List NamespaceIdent
  namespaces_of (list_namespaces none page) = []
  namespaces_of (list_namespaces (some parent) page) = parent ∷ []
  namespaces_of (create_namespace ns properties) = ns ∷ []
  namespaces_of (get_namespace ns) = ns ∷ []
  namespaces_of (namespace_exists ns) = ns ∷ []
  namespaces_of (update_namespace ns properties) = ns ∷ []
  namespaces_of (drop_namespace ns) = ns ∷ []
  namespaces_of (list_tables ns page) = ns ∷ []
  namespaces_of (create_table ns creation) = ns ∷ []
  namespaces_of (stage_create_table ns creation) = ns ∷ []
  namespaces_of (list_views ns page) = ns ∷ []
  namespaces_of (metadata_pointer t) = t.namespace ∷ []
  namespaces_of (load_table t) = t.namespace ∷ []
  namespaces_of (table_exists t) = t.namespace ∷ []
  namespaces_of (register_table t location) = t.namespace ∷ []
  namespaces_of (commit_table t commit) = t.namespace ∷ []
  namespaces_of (drop_table t) = t.namespace ∷ []
  namespaces_of (purge_table t) = t.namespace ∷ []
  namespaces_of (view_exists t) = t.namespace ∷ []
  namespaces_of (load_view t) = t.namespace ∷ []
  namespaces_of (register_view t location) = t.namespace ∷ []
  namespaces_of (create_view t metadata) = t.namespace ∷ []
  namespaces_of (update_view t expected metadata) = t.namespace ∷ []
  namespaces_of (drop_view t) = t.namespace ∷ []
  namespaces_of (commit_tables_atomic commits) = map (λ entry. entry.0.namespace) commits
  namespaces_of (rename_table src dest) = src.namespace ∷ dest.namespace ∷ []
  namespaces_of (rename_view src dest) = src.namespace ∷ dest.namespace ∷ []

  -- The catalog in which a namespace lives.
  abbrev pub home_of : FederatedCatalog lib → NamespaceIdent → Option Text
  home_of fed ns = name_of lib (route lib fed ns)

  -- An operation that is refused, or goes to the catalog of this name.
  pub data GoesTo (home : Option Text) : Destination lib → Type 0 where
    refused_all : {e : Error} → GoesTo home (refused e)
    goes_native : home ≡ none → GoesTo home to_native
    goes_mount : {mount : Mount lib} → home ≡ some mount.name → GoesTo home (to_mount mount)

  single-GoesTo : (o : Option (Mount lib)) → GoesTo (name_of lib o) (single lib o)
  unfolding name_of single
  single-GoesTo none = goes_native refl
  single-GoesTo (some mount) = goes_mount refl

  both-GoesTo :
      (a b : Option (Mount lib)) (e : Error)
      → GoesTo (name_of lib a) (both lib a b e) × GoesTo (name_of lib b) (both lib a b e)
  unfolding name_of both
  both-GoesTo none none e = (goes_native refl, goes_native refl)
  both-GoesTo none (some to) e = (refused_all, refused_all)
  both-GoesTo (some from) none e = (refused_all, refused_all)
  both-GoesTo (some from) (some to) e = elim (Bool-cases (text_eq from.name to.name)) [
    | inl same ↦
        let names = (text_eq_iff from.name to.name).0 same in
        rw same (goes_mount refl, goes_mount (ap (λ (t : Text). some t) (sym names)))
    | inr other ↦ rw other (refused_all, refused_all)
  ]

  same_target_sound : (a b : Option Text) → same_target lib a b ≡ true → b ≡ a
  same_target_sound none none h = refl
  same_target_sound none (some b) h = cc
  same_target_sound (some a) none h = cc
  same_target_sound (some a) (some b) h = ap (λ (t : Text). some t) (sym ((text_eq_iff a b).0 h))

  -- The tables of a commit that passes all live where the first does.
  check_targets-none :
      (fed : FederatedCatalog lib) (target : Option Text) (commits : List (TableIdent × lib.Commit))
      → check_targets lib fed target commits ≡ none
      → All (λ ns. home_of fed ns ≡ target) (map (λ entry. entry.0.namespace) commits)
  unfolding check_targets
  check_targets-none fed target [] h = tt
  check_targets-none fed target ((t, commit) ∷ commits) h =
      elim (Bool-cases (same_target lib target (home_of fed t.namespace))) [
        | inl same ↦ (
          same_target_sound target (home_of fed t.namespace) same,
          check_targets-none fed target commits (ground arith),
        )
        | inr other ↦ absurd (ground arith)
      ]

  All-refused :
      (fed : FederatedCatalog lib) (e : Error) (names : List NamespaceIdent)
      → All (λ ns. GoesTo (home_of fed ns) (refused e)) names
  All-refused fed e [] = tt
  All-refused fed e (ns ∷ names) = (refused_all, All-refused fed e names)

  All-GoesTo :
      (fed : FederatedCatalog lib) (home : Option Text) (d : Destination lib)
      (names : List NamespaceIdent)
      → GoesTo home d
      → All (λ ns. home_of fed ns ≡ home) names
      → All (λ ns. GoesTo (home_of fed ns) d) names
  All-GoesTo fed home d [] g h = tt
  All-GoesTo fed home d (ns ∷ names) g (e, h) =
      (subst (λ x. GoesTo x d) (sym e) g, All-GoesTo fed home d names g h)

  commits-GoesTo :
      (fed : FederatedCatalog lib) (t : TableIdent) (commit : lib.Commit)
      (commits : List (TableIdent × lib.Commit))
      → All
          (λ ns.
            GoesTo
              (home_of fed ns)
              (destination lib fed (commit_tables_atomic ((t, commit) ∷ commits))))
          (t.namespace ∷ map (λ entry. entry.0.namespace) commits)
  unfolding destination
  commits-GoesTo fed t commit commits =
      let names = map (λ (entry : TableIdent × lib.Commit). entry.0.namespace) commits in
      let first = route lib fed t.namespace in
      let AllGo =
        λ (d : Destination lib). All (λ ns. GoesTo (home_of fed ns) d) (t.namespace ∷ names) in
      let whole = (t, commit) ∷ commits in
      elim (Option-cases (check_targets lib fed (name_of lib first) commits)) [
        | inl passes ↦
            let goes : destination lib fed (commit_tables_atomic whole) ≡ single lib first =
              rw (destination, passes) refl in
            subst AllGo (sym goes) (
              single-GoesTo first,
              All-GoesTo fed (name_of lib first) (single lib first) names (single-GoesTo first)
                  (check_targets-none fed (name_of lib first) commits passes),
            )
        | inr (e, fails) ↦
            let goes : destination lib fed (commit_tables_atomic whole) ≡ refused e =
              rw (destination, fails) refl in
            subst AllGo (sym goes) (refused_all, All-refused fed e names)
      ]

  -- Every namespace that an operation names lives in the catalog that it goes to, unless it is
  -- refused.
  pub destination-GoesTo :
      {k : Kind} (fed : FederatedCatalog lib) (op : Operation lib k)
      → All (λ ns. GoesTo (home_of fed ns) (destination lib fed op)) (namespaces_of op)
  unfolding destination
  destination-GoesTo fed (list_namespaces none page) = tt
  destination-GoesTo fed (list_namespaces (some parent) page) =
      (single-GoesTo (route lib fed parent), tt)
  destination-GoesTo fed (create_namespace ns properties) = (single-GoesTo (route lib fed ns), tt)
  destination-GoesTo fed (get_namespace ns) = (single-GoesTo (route lib fed ns), tt)
  destination-GoesTo fed (namespace_exists ns) = (single-GoesTo (route lib fed ns), tt)
  destination-GoesTo fed (update_namespace ns properties) = (single-GoesTo (route lib fed ns), tt)
  destination-GoesTo fed (drop_namespace ns) = (single-GoesTo (route lib fed ns), tt)
  destination-GoesTo fed (list_tables ns page) = (single-GoesTo (route lib fed ns), tt)
  destination-GoesTo fed (create_table ns creation) = (single-GoesTo (route lib fed ns), tt)
  destination-GoesTo fed (stage_create_table ns creation) = (single-GoesTo (route lib fed ns), tt)
  destination-GoesTo fed (list_views ns page) = (single-GoesTo (route lib fed ns), tt)
  destination-GoesTo fed (metadata_pointer t) = (single-GoesTo (route lib fed t.namespace), tt)
  destination-GoesTo fed (load_table t) = (single-GoesTo (route lib fed t.namespace), tt)
  destination-GoesTo fed (table_exists t) = (single-GoesTo (route lib fed t.namespace), tt)
  destination-GoesTo fed (register_table t location) =
      (single-GoesTo (route lib fed t.namespace), tt)
  destination-GoesTo fed (commit_table t commit) = (single-GoesTo (route lib fed t.namespace), tt)
  destination-GoesTo fed (drop_table t) = (single-GoesTo (route lib fed t.namespace), tt)
  destination-GoesTo fed (purge_table t) = (single-GoesTo (route lib fed t.namespace), tt)
  destination-GoesTo fed (view_exists t) = (single-GoesTo (route lib fed t.namespace), tt)
  destination-GoesTo fed (load_view t) = (single-GoesTo (route lib fed t.namespace), tt)
  destination-GoesTo fed (register_view t location) =
      (single-GoesTo (route lib fed t.namespace), tt)
  destination-GoesTo fed (create_view t metadata) = (single-GoesTo (route lib fed t.namespace), tt)
  destination-GoesTo fed (update_view t expected metadata) =
      (single-GoesTo (route lib fed t.namespace), tt)
  destination-GoesTo fed (drop_view t) = (single-GoesTo (route lib fed t.namespace), tt)
  destination-GoesTo fed (rename_table src dest) =
      let (from, to) =
        both-GoesTo (route lib fed src.namespace) (route lib fed dest.namespace)
          (cross_mount src dest) in
      (from, (to, tt))
  destination-GoesTo fed (rename_view src dest) =
      let (from, to) =
        both-GoesTo (route lib fed src.namespace) (route lib fed dest.namespace)
          (cross_mount src dest) in
      (from, (to, tt))
  destination-GoesTo fed (commit_tables_atomic []) = tt
  destination-GoesTo fed (commit_tables_atomic ((t, commit) ∷ commits)) =
      commits-GoesTo fed t commit commits

-- ===== src/Redb/Namespaces.antt =====
-- The namespace operations of src/catalog/redb.rs.
use rustberg.Common.{
  is_some, not, ◌&&◌, none, some, [], ◌∷◌, length, ltb, Result, ok, err, if◌then◌else◌,
}
use rustberg.Redb.Maps.{Map, get, insert, remove, range}
use rustberg.Redb.Keys.{
  NamespaceIdent, namespace_key, namespace_child_prefix, table_prefix, prefix_end,
}
use rustberg.Redb.State.{
  namespace_not_found, namespace_already_exists, precondition_failed, ErrorKind, Properties,
  NamespaceRecord, Registry, Transaction, is_nonempty, get_namespace_record,
}

-- `namespace[..len - 1]`
unfoldable pub parent : NamespaceIdent → NamespaceIdent
parent [] = []
parent (level ∷ []) = []
parent (level ∷ next ∷ levels) = level ∷ parent (next ∷ levels)

unfoldable pub create_namespace : NamespaceIdent → Properties → Transaction
unfolding parent
create_namespace ns properties r =
    if ltb 1 (length ns) && not (is_some (get r.namespaces (namespace_key (parent ns))))
    then err namespace_not_found
    else if is_some (get r.namespaces (namespace_key ns))
    then err namespace_already_exists
    else ok (record r {
      namespaces =
          insert r.namespaces (namespace_key ns)
            (record { namespace = ns; properties = properties });
    })

unfoldable pub get_namespace : NamespaceIdent → Registry → Result NamespaceRecord ErrorKind
unfolding get_namespace_record
get_namespace ns r = elim (get_namespace_record ns r) [
  | none ↦ err namespace_not_found
  | some found ↦ ok (record { namespace = ns; properties = found.properties })
]

unfoldable pub update_namespace : NamespaceIdent → Properties → Transaction
update_namespace ns properties r =
    if not (is_some (get r.namespaces (namespace_key ns)))
    then err namespace_not_found
    else ok (record r {
      namespaces =
          insert r.namespaces (namespace_key ns)
            (record { namespace = ns; properties = properties });
    })

-- The loop over the keys of staged tables that go with their namespace.
unfoldable pub remove_all {ℓ κ} : {V : Type ℓ} {W : Type κ} → Map V → Map W → Map V
remove_all m [] = m
remove_all m ((key, _) ∷ doomed) = remove_all (remove m key) doomed

unfoldable pub drop_namespace : NamespaceIdent → Transaction
unfolding remove_all
drop_namespace ns r =
    let prefix = table_prefix ns in
    let children = namespace_child_prefix ns in
    if not (is_some (get r.namespaces (namespace_key ns)))
    then err namespace_not_found
    else if is_nonempty (range r.tables prefix (prefix_end prefix))
    then err precondition_failed
    else if is_nonempty (range r.views prefix (prefix_end prefix))
    then err precondition_failed
    else if is_nonempty (range r.namespaces children (prefix_end children))
    then err precondition_failed
    else ok (record r {
      staged = remove_all r.staged (range r.staged prefix (prefix_end prefix));
      namespaces = remove r.namespaces (namespace_key ns);
    })

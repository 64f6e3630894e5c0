-- ===== src/Redb/State.antt =====
-- The state of src/catalog/redb.rs: its records, its tables, and what its operations read.
use rustberg.Common.{
  is_some, ℕ, Text, Bool, true, false, ◌||◌, Option, List, [], ◌∷◌, Result, ok, err, if◌then◌else◌,
}
use rustberg.Redb.Maps.{Map, get}
use rustberg.Redb.Keys.{NamespaceIdent, TableIdent, namespace_key, table_key}

-- The kinds of `iceberg::Error` that the registry makes.
pub data ErrorKind : Type 0 where
  namespace_not_found namespace_already_exists : ErrorKind
  table_not_found table_already_exists : ErrorKind
  precondition_failed catalog_commit_conflicts data_invalid unexpected : ErrorKind

abbrev pub Properties : Type 0
Properties = List (Text × Text)

pub record NamespaceRecord : Type 0 where
  pub namespace : NamespaceIdent
  pub properties : Properties

pub record TableRecord : Type 0 where
  pub namespace : NamespaceIdent
  pub name : Text
  pub metadata_location : Text
  pub version : ℕ

pub record ViewRecord : Type 0 where
  pub namespace : NamespaceIdent
  pub name : Text
  pub metadata_location : Text
  pub version : ℕ

-- NAMESPACES, TABLES, STAGED and VIEWS.
pub record Registry : Type 0 where
  pub namespaces : Map NamespaceRecord
  pub tables : Map TableRecord
  pub staged : Map TableRecord
  pub views : Map ViewRecord

-- A write transaction: the registry that it commits, or the error with which it is dropped.
abbrev pub Transaction : Type 0
Transaction = Registry → Result Registry ErrorKind

-- A check made in a read transaction of its own.
abbrev pub Check : Type 0
Check = Registry → Result (Unit {0}) ErrorKind

unfoldable pub get_namespace_record : NamespaceIdent → Registry → Option NamespaceRecord
get_namespace_record ns r = get r.namespaces (namespace_key ns)

unfoldable pub get_table_record : TableIdent → Registry → Option TableRecord
get_table_record t r = get r.tables (table_key t)

unfoldable pub get_staged_record : TableIdent → Registry → Option TableRecord
get_staged_record t r = get r.staged (table_key t)

unfoldable pub get_view_record : TableIdent → Registry → Option ViewRecord
get_view_record t r = get r.views (table_key t)

unfoldable pub reject_taken_name : Text → Check
reject_taken_name key r =
    if is_some (get r.tables key) || is_some (get r.views key)
    then err table_already_exists
    else ok tt

-- `get_namespace_record(..).is_none()` and the error that follows it.
unfoldable pub require_namespace : NamespaceIdent → Check
unfolding get_namespace_record
require_namespace ns r =
    if is_some (get_namespace_record ns r) then ok tt else err namespace_not_found

unfoldable pub require_no_table : TableIdent → Check
unfolding get_table_record
require_no_table t r = if is_some (get_table_record t r) then err table_already_exists else ok tt

-- `range(..).next().is_some()`
abbrev pub is_nonempty {ℓ} : {A : Type ℓ} → List A → Bool
is_nonempty [] = false
is_nonempty (_ ∷ _) = true

-- ===== src/Redb/Tables.antt =====
-- The table operations of src/catalog/redb.rs but the commit. Making a table's first metadata file
-- and writing it is the Iceberg library's: `written` is the location of the file that was written.
use rustberg.Common.{
  is_some, ◌+◌, Text, Bool, true, false, ◌&&◌, Option, none, some, Result, ok, err, ◌>>=◌,
  if◌then◌else◌, text_eq, [], ◌∷◌,
}
use rustberg.Location.Bound.{
  LocationBound, LocationScope, LocationError, new, namespace_prefix, ensure_iceberg,
}
use rustberg.Redb.Maps.{get, insert, remove}
use rustberg.Redb.Keys.{NamespaceIdent, TableIdent, table_key}
use rustberg.Redb.State.{
  ErrorKind, table_not_found, data_invalid, TableRecord, Registry, Transaction, Check,
  get_table_record, reject_taken_name, require_namespace, require_no_table,
}

-- What `RedbCatalog` is configured with.
pub record Config : Type 0 where
  pub warehouse_location : Text
  pub location_scope : LocationScope

unfoldable pub declared_bound : Config → NamespaceIdent → Text → LocationBound
declared_bound c namespace name =
    new c.location_scope c.warehouse_location (namespace_prefix c.warehouse_location namespace) name

abbrev pub first_record : TableIdent → Text → TableRecord
first_record t written = record {
  namespace = t.namespace;
  name = t.name;
  metadata_location = written;
  version = 0;
}

-- What `create_table`, `register_table` and `stage_create_table` check before their write.
unfoldable pub create_table_check : TableIdent → Check
unfolding require_namespace require_no_table
create_table_check t r = do present ← require_namespace t.namespace r; require_no_table t r

-- The write transaction of `create_table` and of `register_table`.
unfoldable pub create_table_write : TableIdent → Text → Transaction
unfolding reject_taken_name
create_table_write t written r = do
  free ← reject_taken_name (table_key t) r
  ok (record r { tables = insert r.tables (table_key t) (first_record t written) })

unfoldable pub create_table : TableIdent → Text → Transaction
unfolding create_table_check create_table_write
create_table t written r = do checked ← create_table_check t r; create_table_write t written r

unfoldable pub stage_create_table_write : TableIdent → Text → Transaction
stage_create_table_write t written r =
    ok (record r { staged = insert r.staged (table_key t) (first_record t written) })

unfoldable pub stage_create_table : TableIdent → Text → Transaction
unfolding create_table_check stage_create_table_write
stage_create_table t written r = do
  checked ← create_table_check t r
  stage_create_table_write t written r

-- `From` for the error of the location check: it maps to `DataInvalid`.
unfoldable pub as_data_invalid : Result (Unit {0}) LocationError → Result (Unit {0}) ErrorKind
as_data_invalid (ok done) = ok done
as_data_invalid (err e) = err data_invalid

-- `declared` is the location that the metadata file at `metadata_location` declares.
unfoldable pub register_table : Config → TableIdent → Text → Text → Transaction
unfolding create_table_check create_table_write declared_bound as_data_invalid
register_table c t metadata_location declared r = do
  checked ← create_table_check t r
  confined ← as_data_invalid (ensure_iceberg (declared_bound c t.namespace t.name) declared)
  create_table_write t metadata_location r

unfoldable pub metadata_pointer : TableIdent → Registry → Option Text
unfolding get_table_record
metadata_pointer t r = elim (get_table_record t r) [
  | none ↦ none
  | some found ↦ some found.metadata_location
]

unfoldable pub drop_table : TableIdent → Transaction
drop_table t r =
    if is_some (get r.tables (table_key t))
    then ok (record r { tables = remove r.tables (table_key t) })
    else err table_not_found

-- `==` on `NamespaceIdent` and on `TableIdent`.
abbrev pub namespace_eq : NamespaceIdent → NamespaceIdent → Bool
namespace_eq [] [] = true
namespace_eq (a ∷ as') (b ∷ bs) = text_eq a b && namespace_eq as' bs
namespace_eq _ _ = false

abbrev pub ident_eq : TableIdent → TableIdent → Bool
ident_eq a b = namespace_eq a.namespace b.namespace && text_eq a.name b.name

move_table : TableIdent → TableIdent → Registry → Option TableRecord → Result Registry ErrorKind
unfolding reject_taken_name
move_table src dest r none = err table_not_found
move_table src dest r (some found) = do
  free ← reject_taken_name (table_key dest) r
  let moved : TableRecord = record found {
    namespace = dest.namespace;
    name = dest.name;
    version = found.version + 1;
  }
  ok (record r { tables = remove (insert r.tables (table_key dest) moved) (table_key src) })

unfoldable pub rename_table_write : TableIdent → TableIdent → Transaction
unfolding move_table
rename_table_write src dest r = move_table src dest r (get r.tables (table_key src))

unfoldable pub rename_table : TableIdent → TableIdent → Transaction
unfolding rename_table_write require_namespace
rename_table src dest r =
    if ident_eq src dest
    then ok r
    else do present ← require_namespace dest.namespace r; rename_table_write src dest r

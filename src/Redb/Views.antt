-- ===== src/Redb/Views.antt =====
-- The view operations of src/catalog/redb.rs. As for tables, `written` is the location of the
-- metadata file that the operation wrote.
use rustberg.Common.{
  is_some, ℕ, ◌+◌, Text, not, ◌||◌, Option, none, some, Result, ok, err, ◌>>=◌, if◌then◌else◌,
  text_eq, ◌==◌,
}
use rustberg.Location.Bound.{ensure_iceberg}
use rustberg.Redb.Maps.{get, insert, remove}
use rustberg.Redb.Keys.{TableIdent, table_key}
use rustberg.Redb.State.{
  ErrorKind, table_not_found, catalog_commit_conflicts, ViewRecord, Registry, Transaction,
  get_view_record, reject_taken_name, require_namespace,
}
use rustberg.Redb.Tables.{Config, declared_bound, as_data_invalid, ident_eq}

abbrev pub first_view : TableIdent → Text → ViewRecord
first_view view written = record {
  namespace = view.namespace;
  name = view.name;
  metadata_location = written;
  version = 0;
}

-- The write transaction of `create_view` and of `register_view`.
unfoldable pub create_view_write : TableIdent → Text → Transaction
unfolding reject_taken_name
create_view_write view written r = do
  free ← reject_taken_name (table_key view) r
  ok (record r { views = insert r.views (table_key view) (first_view view written) })

unfoldable pub create_view : TableIdent → Text → Transaction
unfolding create_view_write require_namespace
create_view view written r = do
  present ← require_namespace view.namespace r
  create_view_write view written r

unfoldable pub register_view : Config → TableIdent → Text → Text → Transaction
unfolding create_view_write require_namespace declared_bound as_data_invalid
register_view c view metadata_location declared r = do
  present ← require_namespace view.namespace r
  confined ← as_data_invalid (ensure_iceberg (declared_bound c view.namespace view.name) declared)
  create_view_write view metadata_location r

-- What `update_view` reads, and checks before it writes a metadata file.
unfoldable pub update_view_check : TableIdent → Text → Registry → Result ViewRecord ErrorKind
unfolding get_view_record
update_view_check view expected_metadata_location r = elim (get_view_record view r) [
  | none ↦ err table_not_found
  | some current ↦
      if not (text_eq current.metadata_location expected_metadata_location)
      then err catalog_commit_conflicts
      else ok current
]

-- The write transaction of `update_view`: `expected` is the version of the record that was read.
unfoldable pub update_view_write : TableIdent → ℕ → Text → Text → Transaction
update_view_write view expected expected_location written r = elim (get r.views (table_key view)) [
  | none ↦ err catalog_commit_conflicts
  | some live ↦
      if not (live.version == expected) || not (text_eq live.metadata_location expected_location)
      then err catalog_commit_conflicts
      else ok (record r {
        views = insert r.views (table_key view) (record {
          namespace = view.namespace;
          name = view.name;
          metadata_location = written;
          version = expected + 1;
        });
      })
]

unfoldable pub update_view : TableIdent → Text → Text → Transaction
unfolding update_view_check update_view_write
update_view view expected_metadata_location written r = do
  current ← update_view_check view expected_metadata_location r
  update_view_write view current.version expected_metadata_location written r

unfoldable pub drop_view : TableIdent → Transaction
drop_view view r =
    if is_some (get r.views (table_key view))
    then ok (record r { views = remove r.views (table_key view) })
    else err table_not_found

move_view : TableIdent → TableIdent → Registry → Option ViewRecord → Result Registry ErrorKind
unfolding reject_taken_name
move_view src dest r none = err table_not_found
move_view src dest r (some found) = do
  free ← reject_taken_name (table_key dest) r
  let moved : ViewRecord = record found {
    namespace = dest.namespace;
    name = dest.name;
    version = found.version + 1;
  }
  ok (record r { views = remove (insert r.views (table_key dest) moved) (table_key src) })

unfoldable pub rename_view_write : TableIdent → TableIdent → Transaction
unfolding move_view
rename_view_write src dest r = move_view src dest r (get r.views (table_key src))

unfoldable pub rename_view : TableIdent → TableIdent → Transaction
unfolding rename_view_write require_namespace
rename_view src dest r =
    if ident_eq src dest
    then ok r
    else do present ← require_namespace dest.namespace r; rename_view_write src dest r

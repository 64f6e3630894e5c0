-- ===== src/Redb/Writes.antt =====
-- The write transactions of src/catalog/redb.rs as one type: what any client can do to the registry,
-- in any order. An operation's checks before its transaction promise nothing here, since another
-- writer may come between.
pub mod Kinds
use rustberg.Common.{ℕ, Text, List, [], ◌∷◌, ◌≡◌, Result, ok, err}
use rustberg.Redb.Keys.{NamespaceIdent, TableIdent}
use rustberg.Redb.State.{ErrorKind, Registry, Properties, Transaction}
use rustberg.Redb.Namespaces.{create_namespace, update_namespace, drop_namespace}
use rustberg.Redb.Tables.{
  create_table_write, stage_create_table_write, drop_table, rename_table_write,
}
use rustberg.Redb.Views.{create_view_write, update_view_write, drop_view, rename_view_write}
use rustberg.Redb.Commit.{Swap, swap_all}

pub data Write : Type 0 where
  namespace_created namespace_updated : NamespaceIdent → Properties → Write
  namespace_dropped : NamespaceIdent → Write
  table_created table_staged : TableIdent → (written : Text) → Write
  table_dropped : TableIdent → Write
  table_renamed : (src dest : TableIdent) → Write
  view_created : TableIdent → (written : Text) → Write
  view_updated : TableIdent → (expected : ℕ) → (expected_location written : Text) → Write
  view_dropped : TableIdent → Write
  view_renamed : (src dest : TableIdent) → Write
  commit_swapped : List Swap → Write

unfoldable pub run : Write → Transaction
run (namespace_created ns properties) = create_namespace ns properties
run (namespace_updated ns properties) = update_namespace ns properties
run (namespace_dropped ns) = drop_namespace ns
run (table_created t written) = create_table_write t written
run (table_staged t written) = stage_create_table_write t written
run (table_dropped t) = drop_table t
run (table_renamed src dest) = rename_table_write src dest
run (view_created v written) = create_view_write v written
run (view_updated v expected location written) = update_view_write v expected location written
run (view_dropped v) = drop_view v
run (view_renamed src dest) = rename_view_write src dest
run (commit_swapped swaps) = swap_all swaps

abbrev pub or_unchanged : Registry → Result Registry ErrorKind → Registry
or_unchanged r (ok r') = r'
or_unchanged r (err e) = r

-- A sequence of write transactions, each of which commits or leaves the registry as it was.
unfoldable pub run_all : List Write → Registry → Registry
unfolding run
run_all [] r = r
run_all (w ∷ writes) r = run_all writes (or_unchanged r (run w r))

abbrev pub empty : Registry
empty = record { namespaces = []; tables = []; staged = []; views = [] }

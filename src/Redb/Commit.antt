-- ===== src/Redb/Commit.antt =====
-- The pointer swap of a commit in src/catalog/redb.rs: phase 3 of `try_commit_tables_atomic`.
pub mod Swaps
pub mod Retry
use rustberg.Common.{
  is_some, ℕ, ◌+◌, Text, not, ◌||◌, Option, none, some, List, [], ◌∷◌, Result, ok, err, ◌>>=◌,
  if◌then◌else◌, text_eq, ◌==◌,
}
use rustberg.Redb.Maps.{get, insert, remove}
use rustberg.Redb.Keys.{TableIdent, table_key, namespace_key}
use rustberg.Redb.State.{
  ErrorKind, namespace_not_found, table_already_exists, catalog_commit_conflicts, TableRecord,
  Registry, Transaction, Check,
}

-- One entry of `swaps`: the key, the record that was read, and the one to put.
pub record Swap : Type 0 where
  pub key : Text
  pub expected : Option TableRecord
  pub next : TableRecord

abbrev pub next_version : Option TableRecord → ℕ
next_version none = 0
next_version (some e) = e.version + 1

-- How a prepared change becomes an entry of `swaps`.
unfoldable pub swap_of : TableIdent → Option TableRecord → Text → Swap
swap_of ident expected new_location = record {
  key = table_key ident;
  expected = expected;
  next = record {
    namespace = ident.namespace;
    name = ident.name;
    metadata_location = new_location;
    version = next_version expected;
  };
}

-- A create is refused if its namespace went away meanwhile.
still_homed : Swap → Option TableRecord → Check
still_homed s (some e) r = ok tt
still_homed s none r =
    if is_some (get r.namespaces (namespace_key s.next.namespace))
    then ok tt
    else err namespace_not_found

unmoved : TableRecord → Option TableRecord → Result (Unit {0}) ErrorKind
unmoved e none = err catalog_commit_conflicts
unmoved e (some current) =
    if not (current.version == e.version)
      || not (text_eq current.metadata_location e.metadata_location)
    then err catalog_commit_conflicts
    else ok tt

as_expected : Swap → Option TableRecord → Check
unfolding unmoved
as_expected s (some e) r = unmoved e (get r.tables s.key)
as_expected s none r =
    if is_some (get r.views s.key)
    then err table_already_exists
    else if is_some (get r.tables s.key)
    then err catalog_commit_conflicts
    else ok tt

put_next : Swap → Option TableRecord → Registry → Registry
put_next s (some e) r = record r { tables = insert r.tables s.key s.next }
put_next s none r = record r {
  tables = insert r.tables s.key s.next;
  staged = remove r.staged s.key;
}

-- One round of the loop over `swaps`.
unfoldable pub swap_one : Swap → Transaction
unfolding still_homed as_expected put_next
swap_one s r = do
  homed ← still_homed s s.expected r
  matched ← as_expected s s.expected r
  ok (put_next s s.expected r)

unfoldable pub swap_all : List Swap → Transaction
unfolding swap_one
swap_all [] r = ok r
swap_all (s ∷ swaps) r = do r' ← swap_one s r; swap_all swaps r'

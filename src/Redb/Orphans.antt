-- ===== src/Redb/Orphans.antt =====
-- Whether a table or a view of src/catalog/redb.rs can outlive its namespace: what `drop_namespace`
-- sees, what it does not see, and what a writer between a check and its transaction can do.
use rustberg.Common.{
  is_some, ℕ, ◌<◌, ◌≤◌, Text, text_eq_iff, strip_prefix, true, false, none, some, [], ◌∷◌, ◌++◌,
  ◌≡◌, refl, Result, ok, ◌>>=◌, arith,
}
use rustberg.Redb.Maps.{get, insert, remove, range, get-insert, get-remove, get-range_nil}
use rustberg.Redb.Keys.{
  NamespaceIdent, TableIdent, namespace_key, namespace_child_prefix, table_key, table_prefix,
  prefix_end, scanned, scanned-eq, reached, part_separator,
}
use rustberg.Redb.Keys.Injective.{IsPlain, IsNamespace, IsTableIdent, table_prefix-table_key}
use rustberg.Redb.State.{
  ErrorKind, Registry, get_namespace_record, get_table_record, get_view_record,
}
use rustberg.Redb.Namespaces.{create_namespace, drop_namespace}
use rustberg.Redb.Tables.{create_table_check, create_table_write, create_table, first_record}
use rustberg.Redb.Writes.{empty}

-- The name is empty or begins with a code point below U+FFFF.
abbrev pub IsLow : Text → Type 0
IsLow [] = Unit
IsLow (c ∷ _) = c < 0xffff

scanned_of_low :
    (ns : NamespaceIdent) (t : TableIdent)
    → IsNamespace ns
    → IsTableIdent t
    → t.namespace ≡ ns
    → IsLow t.name
    → scanned (table_prefix ns) (table_key t) ≡ true
scanned_of_low ns t hns ht same low =
    rw (scanned-eq, (table_prefix-table_key ns t t.name hns ht).1 (same, refl))
      (low_reached t.name low)
  where
    low_reached : (name : Text) → IsLow name → reached (some name) ≡ true
    low_reached [] h = refl
    low_reached (c ∷ name) h = ground arith

scanned_of_high :
    (ns : NamespaceIdent) (t : TableIdent) (c : ℕ) (rest : Text)
    → IsNamespace ns
    → IsTableIdent t
    → t.namespace ≡ ns
    → t.name ≡ c ∷ rest
    → 0xffff ≤ c
    → scanned (table_prefix ns) (table_key t) ≡ false
scanned_of_high ns t c rest hns ht same name high =
    rw (scanned-eq, (table_prefix-table_key ns t (c ∷ rest) hns ht).1 (same, name)) (ground arith)

-- What the checks of `drop_namespace` have established when it commits.
drop_namespace-parts :
    (ns : NamespaceIdent) (r r' : Registry)
    → drop_namespace ns r ≡ ok r'
    → (range r.tables (table_prefix ns) (prefix_end (table_prefix ns)) ≡ [])
      × (range r.views (table_prefix ns) (prefix_end (table_prefix ns)) ≡ [])
      × (r'.tables ≡ r.tables)
      × (r'.views ≡ r.views)
      × (r'.namespaces ≡ remove r.namespaces (namespace_key ns))
unfolding drop_namespace
drop_namespace-parts ns r r' e =
    (ground arith, ground arith, ground arith, ground arith, ground arith)

-- A namespace that is dropped is gone, and no table and no view in it is left whose name is empty or
-- begins with a code point below U+FFFF. No name holds a separator, and no namespace is without
-- levels.
pub drop_namespace_empty :
    (ns : NamespaceIdent) (t : TableIdent) (r r' : Registry)
    → IsNamespace ns
    → IsTableIdent t
    → t.namespace ≡ ns
    → IsLow t.name
    → drop_namespace ns r ≡ ok r'
    → (get_namespace_record ns r' ≡ none)
      × (get_table_record t r' ≡ none)
      × (get_view_record t r' ≡ none)
unfolding get_namespace_record get_table_record get_view_record
drop_namespace_empty ns t r r' hns ht same low e =
    let (no_tables, no_views, tables, views, namespaces) = drop_namespace-parts ns r r' e in
    let inside = scanned_of_low ns t hns ht same low in
    let prefix : Text = table_prefix ns in
    (
      rw (namespaces, get-remove)
          (ground (arith, text_eq_iff (namespace_key ns) (namespace_key ns))),
      rw tables (get-range_nil r.tables prefix (prefix_end prefix) (table_key t) no_tables inside),
      rw views (get-range_nil r.views prefix (prefix_end prefix) (table_key t) no_views inside),
    )

abbrev pub lone : Text → Text → TableIdent
lone level name = record { namespace = level ∷ []; name = name }

-- A client's three calls, one after the other.
pub create_then_drop : Text → Text → Text → Result Registry ErrorKind
create_then_drop level name written = do
  r ← create_namespace (level ∷ []) [] empty
  r' ← create_table (lone level name) written r
  drop_namespace (level ∷ []) r'

strip_prefix-longer : (k : Text) (c : ℕ) → strip_prefix (k ++ c ∷ []) k ≡ none
strip_prefix-longer [] c = refl
strip_prefix-longer (x ∷ k) c = ground (arith, strip_prefix-longer k c)

not_own_child :
    (ns : NamespaceIdent) → scanned (namespace_child_prefix ns) (namespace_key ns) ≡ false
unfolding namespace_child_prefix
not_own_child ns = rw (scanned-eq, strip_prefix-longer (namespace_key ns) part_separator)

IsNamespace-single : (level : Text) → IsPlain level → IsNamespace (level ∷ [])
IsNamespace-single level h = record { some_level = λ e. ground arith; plain = (h, tt) }

-- `drop_namespace` does not see a table whose name begins with U+FFFF or a supplementary character:
-- from the empty registry, a client may create a namespace of one level with such a table in it and
-- drop the namespace, and the registry is left with the table and without its namespace. Neither
-- name holds a separator.
pub drop_namespace_orphan :
    (level : Text) (c : ℕ) (rest written : Text)
    → IsPlain level
    → IsPlain (c ∷ rest)
    → 0xffff ≤ c
    → (r : Registry) × (create_then_drop level (c ∷ rest) written ≡ ok r)
      × (get_namespace_record (level ∷ []) r ≡ none)
      × (get_table_record (lone level (c ∷ rest)) r
          ≡ some (first_record (lone level (c ∷ rest)) written))
unfolding create_then_drop create_namespace create_table drop_namespace get_namespace_record
    get_table_record get insert remove range
drop_namespace_orphan level c rest written plain plain_name high =
    let ns : NamespaceIdent = level ∷ [] in
    let t : TableIdent = lone level (c ∷ rest) in
    let unseen =
      scanned_of_high ns t c rest (IsNamespace-single level plain)
        (record { namespace = IsNamespace-single level plain; name = plain_name }) refl refl high in
    let no_child = not_own_child ns in
    let key_self = (text_eq_iff (namespace_key ns) (namespace_key ns)).1 refl in
    let table_self = (text_eq_iff (table_key t) (table_key t)).1 refl in
    (
      record {
        namespaces = [];
        tables = (table_key t, first_record t written) ∷ [];
        staged = [];
        views = [];
      },
      simp (key_self, unseen, no_child),
      refl,
      rw table_self,
    )

-- `create_table` looks for its namespace before its write transaction and not in it. If another
-- writer drops the namespace in between, the table is created all the same, in no namespace. Its
-- name is empty or begins with a code point below U+FFFF, no name holds a separator, and its
-- namespace has a level.
pub create_table_race :
    (t : TableIdent) (written : Text) (r between : Registry)
    → IsTableIdent t
    → IsLow t.name
    → create_table_check t r ≡ ok tt
    → drop_namespace t.namespace r ≡ ok between
    → (after : Registry) × (create_table_write t written between ≡ ok after)
      × (get_namespace_record t.namespace after ≡ none)
      × (get_table_record t after ≡ some (first_record t written))
unfolding create_table_write get_namespace_record get_table_record get_view_record
create_table_race t written r between ht low checked dropped =
    let (no_namespace, no_table, no_view) =
      drop_namespace_empty t.namespace t r between ht.namespace ht refl low dropped in
    (
      record between { tables = insert between.tables (table_key t) (first_record t written) },
      ground (arith, no_table, no_view),
      no_namespace,
      rw get-insert (ground (arith, text_eq_iff (table_key t) (table_key t))),
    )

-- With no writer in between, a table is created only in a namespace that is there and under a key
-- that neither a table nor a view had, and its record is then the first one.
pub create_table_homed :
    (t : TableIdent) (written : Text) (r r' : Registry)
    → create_table t written r ≡ ok r'
    → (is_some (get_namespace_record t.namespace r') ≡ true)
      × (get_table_record t r' ≡ some (first_record t written))
      × (get_table_record t r ≡ none)
      × (get_view_record t r ≡ none)
unfolding create_table get_namespace_record get_table_record get_view_record
create_table_homed t written r r' e =
    let self = (text_eq_iff (table_key t) (table_key t)).1 refl in
    (
      ground arith,
      ground
          (arith, self, get-insert r.tables (table_key t) (table_key t) (first_record t written)),
      ground arith,
      ground arith,
    )

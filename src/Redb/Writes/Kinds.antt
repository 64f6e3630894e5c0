-- ===== src/Redb/Writes/Kinds.antt =====
-- One name is never both a table and a view, whatever write transactions of src/catalog/redb.rs run
-- and in whatever order.
use mathlib.Core.Path.{subst}
use rustberg.Common.{
  ℕ, ◌+◌, Text, text_eq_iff, none, List, [], ◌∷◌, ◌≡◌, refl, ◌⊎◌, inl, inr, ok, Option-cases,
  Result-cases, arith, >>=-eq-ok,
}
use rustberg.Redb.Maps.{get, insert, get-insert, get-remove}
use rustberg.Redb.Keys.{NamespaceIdent, TableIdent, table_key}
use rustberg.Redb.State.{Properties, Registry, TableRecord, ViewRecord}
use rustberg.Redb.Namespaces.{create_namespace, update_namespace, drop_namespace}
use rustberg.Redb.Tables.{
  create_table_write, stage_create_table_write, drop_table, rename_table_write, first_record,
}
use rustberg.Redb.Views.{
  first_view, create_view_write, update_view_write, drop_view, rename_view_write,
}
use rustberg.Redb.Commit.{Swap, swap_one, swap_all}
use rustberg.Redb.Writes.{
  Write, namespace_created, namespace_updated, namespace_dropped, table_created, table_staged,
  table_dropped, table_renamed, view_created, view_updated, view_dropped, view_renamed,
  commit_swapped, run, or_unchanged, run_all, empty,
}

pub record OneKind (r : Registry) : Type 0 where
  pub at : (k : Text) → (get r.tables k ≡ none) ⊎ (get r.views k ≡ none)

create_namespace-OneKind :
    (ns : NamespaceIdent) (p : Properties) (r r' : Registry)
    → OneKind r
    → create_namespace ns p r ≡ ok r'
    → OneKind r'
unfolding create_namespace
create_namespace-OneKind ns p r r' h e = record { at = λ k. ground (arith, h.at k) }

drop_namespace-OneKind :
    (ns : NamespaceIdent) (r r' : Registry) → OneKind r → drop_namespace ns r ≡ ok r' → OneKind r'
unfolding drop_namespace
drop_namespace-OneKind ns r r' h e = record { at = λ k. ground (arith, h.at k) }

create_table_write-OneKind :
    (t : TableIdent) (written : Text) (r r' : Registry)
    → OneKind r
    → create_table_write t written r ≡ ok r'
    → OneKind r'
unfolding create_table_write
create_table_write-OneKind t written r r' h e = record {
  at = λ k. ground (
    arith,
    h.at k,
    text_eq_iff (table_key t) k,
    get-insert r.tables (table_key t) k (first_record t written),
  );
}

update_namespace-OneKind :
    (ns : NamespaceIdent) (p : Properties) (r r' : Registry)
    → OneKind r
    → update_namespace ns p r ≡ ok r'
    → OneKind r'
unfolding update_namespace
update_namespace-OneKind ns p r r' h e = record { at = λ k. ground (arith, h.at k) }

stage_create_table_write-OneKind :
    (t : TableIdent) (written : Text) (r r' : Registry)
    → OneKind r
    → stage_create_table_write t written r ≡ ok r'
    → OneKind r'
unfolding stage_create_table_write
stage_create_table_write-OneKind t written r r' h e = record { at = λ k. ground (arith, h.at k) }

drop_table-OneKind :
    (t : TableIdent) (r r' : Registry) → OneKind r → drop_table t r ≡ ok r' → OneKind r'
unfolding drop_table
drop_table-OneKind t r r' h e = record {
  at = λ k. ground (arith, h.at k, get-remove r.tables (table_key t) k);
}

rename_table_write-OneKind :
    (src dest : TableIdent) (r r' : Registry)
    → OneKind r
    → rename_table_write src dest r ≡ ok r'
    → OneKind r'
unfolding rename_table_write
rename_table_write-OneKind src dest r r' h e = elim (Option-cases (get r.tables (table_key src))) [
  | inl gone ↦ absurd (ground arith)
  | inr (found, there) ↦
      let moved : TableRecord = record found {
        namespace = dest.namespace;
        name = dest.name;
        version = found.version + 1;
      } in
      record {
        at = λ k. ground (
          arith,
          h.at k,
          there,
          text_eq_iff (table_key dest) k,
          get-remove (insert r.tables (table_key dest) moved) (table_key src) k,
          get-insert r.tables (table_key dest) k moved,
        );
      }
]

create_view_write-OneKind :
    (v : TableIdent) (written : Text) (r r' : Registry)
    → OneKind r
    → create_view_write v written r ≡ ok r'
    → OneKind r'
unfolding create_view_write
create_view_write-OneKind v written r r' h e = record {
  at = λ k. ground (
    arith,
    h.at k,
    text_eq_iff (table_key v) k,
    get-insert r.views (table_key v) k (first_view v written),
  );
}

update_view_write-OneKind :
    (v : TableIdent) (expected : ℕ) (location written : Text) (r r' : Registry)
    → OneKind r
    → update_view_write v expected location written r ≡ ok r'
    → OneKind r'
unfolding update_view_write
update_view_write-OneKind v expected location written r r' h e =
    let next : ViewRecord = record {
      namespace = v.namespace;
      name = v.name;
      metadata_location = written;
      version = expected + 1;
    } in
    record {
      at = λ k.
          ground
            (arith, h.at k, text_eq_iff (table_key v) k, get-insert r.views (table_key v) k next);
    }

drop_view-OneKind :
    (v : TableIdent) (r r' : Registry) → OneKind r → drop_view v r ≡ ok r' → OneKind r'
unfolding drop_view
drop_view-OneKind v r r' h e = record {
  at = λ k. ground (arith, h.at k, get-remove r.views (table_key v) k);
}

rename_view_write-OneKind :
    (src dest : TableIdent) (r r' : Registry)
    → OneKind r
    → rename_view_write src dest r ≡ ok r'
    → OneKind r'
unfolding rename_view_write
rename_view_write-OneKind src dest r r' h e = elim (Option-cases (get r.views (table_key src))) [
  | inl gone ↦ absurd (ground arith)
  | inr (found, there) ↦
      let moved : ViewRecord = record found {
        namespace = dest.namespace;
        name = dest.name;
        version = found.version + 1;
      } in
      record {
        at = λ k. ground (
          arith,
          h.at k,
          there,
          text_eq_iff (table_key dest) k,
          get-remove (insert r.views (table_key dest) moved) (table_key src) k,
          get-insert r.views (table_key dest) k moved,
        );
      }
]

swap_one-OneKind : (s : Swap) (r r' : Registry) → OneKind r → swap_one s r ≡ ok r' → OneKind r'
unfolding swap_one
swap_one-OneKind s r r' h e = elim (Option-cases s.expected) [
  | inl creating ↦ record {
    at = λ k.
        ground (arith, creating, h.at k, text_eq_iff s.key k, get-insert r.tables s.key k s.next);
  }
  | inr (old, updating) ↦ record {
    at = λ k.
        ground (arith, updating, h.at k, text_eq_iff s.key k, get-insert r.tables s.key k s.next);
  }
]

swap_all-OneKind :
    (swaps : List Swap) (r r' : Registry) → OneKind r → swap_all swaps r ≡ ok r' → OneKind r'
unfolding swap_all
swap_all-OneKind [] r r' h e = let same : r ≡ r' = cc in subst OneKind same h
swap_all-OneKind (s ∷ swaps) r r' h e =
    let (mid, first, rest) = >>=-eq-ok (swap_one s r) (swap_all swaps) e in
    swap_all-OneKind swaps mid r' (swap_one-OneKind s r mid h first) rest

run-OneKind : (w : Write) (r r' : Registry) → OneKind r → run w r ≡ ok r' → OneKind r'
unfolding run
run-OneKind (namespace_created ns p) r r' h e = create_namespace-OneKind ns p r r' h e
run-OneKind (namespace_updated ns p) r r' h e = update_namespace-OneKind ns p r r' h e
run-OneKind (namespace_dropped ns) r r' h e = drop_namespace-OneKind ns r r' h e
run-OneKind (table_created t written) r r' h e = create_table_write-OneKind t written r r' h e
run-OneKind (table_staged t written) r r' h e = stage_create_table_write-OneKind t written r r' h e
run-OneKind (table_dropped t) r r' h e = drop_table-OneKind t r r' h e
run-OneKind (table_renamed src dest) r r' h e = rename_table_write-OneKind src dest r r' h e
run-OneKind (view_created v written) r r' h e = create_view_write-OneKind v written r r' h e
run-OneKind (view_updated v n l w) r r' h e = update_view_write-OneKind v n l w r r' h e
run-OneKind (view_dropped v) r r' h e = drop_view-OneKind v r r' h e
run-OneKind (view_renamed src dest) r r' h e = rename_view_write-OneKind src dest r r' h e
run-OneKind (commit_swapped swaps) r r' h e = swap_all-OneKind swaps r r' h e

or_unchanged-OneKind : (w : Write) (r : Registry) → OneKind r → OneKind (or_unchanged r (run w r))
or_unchanged-OneKind w r h = elim (Result-cases (run w r)) [
  | inl (r', e) ↦ rw e (run-OneKind w r r' h e)
  | inr (_, e) ↦ rw e h
]

-- From a registry in which no key is both a table's and a view's, every sequence of write
-- transactions, failed ones included, leads to such a registry.
pub run_all-OneKind : (writes : List Write) (r : Registry) → OneKind r → OneKind (run_all writes r)
unfolding run_all
run_all-OneKind [] r h = h
run_all-OneKind (w ∷ writes) r h =
    run_all-OneKind writes (or_unchanged r (run w r)) (or_unchanged-OneKind w r h)

pub OneKind-empty : OneKind empty
unfolding get
OneKind-empty = record { at = λ k. inl refl }

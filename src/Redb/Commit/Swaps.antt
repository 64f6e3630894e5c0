-- ===== src/Redb/Commit/Swaps.antt =====
-- The compare-and-swap of src/catalog/redb.rs: a commit lands exactly if nothing that it was
-- prepared from has changed, and then it moves all of its pointers and no other.
use mathlib.Core.Path.{subst}
use rustberg.Common.{
  is_some, Text, text_eq, text_eq_iff, true, Option, none, some, List, [], ◌∷◌, ◌≡◌, refl, ◌≢◌, ◌↔◌,
  ◌∙◌, ok, err, Option-cases, Bool-cases, inl, inr, arith, >>=-eq-ok, All, if◌then◌else◌,
}
use rustberg.Redb.Maps.{get, get-insert}
use rustberg.Redb.Keys.{TableIdent, namespace_key, table_key}
use rustberg.Redb.State.{catalog_commit_conflicts, Registry, TableRecord}
use rustberg.Redb.Commit.{put_next, Swap, swap_of, swap_one, swap_all}

-- What an entry was prepared from still stands: for an update the record has the version and the
-- location that were read; for a create the key is no table's and no view's, and the namespace is there.
abbrev pub Matches : Registry → Swap → Option TableRecord → Type 0
Matches r s none =
    (get r.tables s.key ≡ none)
    × (get r.views s.key ≡ none)
    × (is_some (get r.namespaces (namespace_key s.next.namespace)) ≡ true)
Matches r s (some e) =
    (current : TableRecord) × (get r.tables s.key ≡ some current)
    × (current.version ≡ e.version)
    × (current.metadata_location ≡ e.metadata_location)

abbrev pub IsCurrent : Registry → Swap → Type 0
IsCurrent r s = Matches r s s.expected

abbrev pub Distinct : List Swap → Type 0
Distinct [] = Unit
Distinct (s ∷ swaps) = All (λ t. s.key ≢ t.key) swaps × Distinct swaps

-- What a key holds once the entries are published.
abbrev pub published : List Swap → Text → Option TableRecord → Option TableRecord
published [] k before = before
published (s ∷ swaps) k before = if text_eq s.key k then some s.next else published swaps k before

-- What one entry does when it passes.
pub record Moved (s : Swap) (r r' : Registry) : Type 0 where
  pub current : IsCurrent r s
  pub tables :
      (k : Text) → get r'.tables k ≡ (if text_eq s.key k then some s.next else get r.tables k)
  pub views : r'.views ≡ r.views
  pub namespaces : r'.namespaces ≡ r.namespaces

swap_one-Moved : (s : Swap) (r r' : Registry) → swap_one s r ≡ ok r' → Moved s r r'
unfolding swap_one
swap_one-Moved s r r' e = elim (Option-cases s.expected) [
  | inl creating ↦ record {
    current =
        rw creating (ground (arith, creating), ground (arith, creating), ground (arith, creating));
    tables = λ k. ground (arith, creating, get-insert r.tables s.key k s.next);
    views = ground (arith, creating);
    namespaces = ground (arith, creating);
  }
  | inr (old, updating) ↦ elim (Option-cases (get r.tables s.key)) [
    | inl gone ↦ absurd (ground arith)
    | inr (current, there) ↦ record {
      current = rw updating (
        current,
        there,
        ground (arith, updating, there),
        ground
            (arith, updating, there, text_eq_iff current.metadata_location old.metadata_location),
      );
      tables = λ k. ground (arith, updating, there, get-insert r.tables s.key k s.next);
      views = ground (arith, updating, there);
      namespaces = ground (arith, updating, there);
    }
  ]
]

update_passes :
    (s : Swap) (r : Registry) (old current : TableRecord)
    → s.expected ≡ some old
    → get r.tables s.key ≡ some current
    → current.version ≡ old.version
    → current.metadata_location ≡ old.metadata_location
    → swap_one s r ≡ ok (put_next s s.expected r)
unfolding swap_one
update_passes s r old current updating there version location =
    ground (arith, text_eq_iff current.metadata_location old.metadata_location)

create_passes :
    (s : Swap) (r : Registry)
    → s.expected ≡ none
    → Matches r s none
    → swap_one s r ≡ ok (put_next s s.expected r)
unfolding swap_one
create_passes s r creating (no_table, no_view, homed) = ground arith

swap_one_of_current :
    (s : Swap) (r : Registry) → IsCurrent r s → swap_one s r ≡ ok (put_next s s.expected r)
swap_one_of_current s r h = elim (Option-cases s.expected) [
  | inl creating ↦ create_passes s r creating (subst (Matches r s) creating h)
  | inr (old, updating) ↦
      let (current, there, version, location) = subst (Matches r s) updating h in
      update_passes s r old current updating there version location
]

-- An entry that passes leaves what other entries were prepared from.
Moved-IsCurrent :
    (s t : Swap) (r r' : Registry)
    → Moved s r r'
    → s.key ≢ t.key
    → (e : Option TableRecord) → Matches r t e ↔ Matches r' t e
Moved-IsCurrent s t r r' m ne e =
    let same : get r'.tables t.key ≡ get r.tables t.key =
      ground (arith, m.tables t.key, text_eq_iff s.key t.key) in
    unmoved_cases e same
  where
    unmoved_cases :
        (e : Option TableRecord)
        → get r'.tables t.key ≡ get r.tables t.key
        → Matches r t e ↔ Matches r' t e
    unmoved_cases none same = rw (same, m.views, m.namespaces) (λ x. x, λ x. x)
    unmoved_cases (some e) same = rw same (λ x. x, λ x. x)

All-IsCurrent :
    (s : Swap) (r r' : Registry) (swaps : List Swap)
    → Moved s r r'
    → All (λ t. s.key ≢ t.key) swaps
    → All (IsCurrent r) swaps ↔ All (IsCurrent r') swaps
All-IsCurrent s r r' [] m ne = (λ _. tt, λ _. tt)
All-IsCurrent s r r' (t ∷ swaps) m (ne, nes) =
    let (there, back) = Moved-IsCurrent s t r r' m ne t.expected in
    let (theres, backs) = All-IsCurrent s r r' swaps m nes in
    (λ (h, hs). (there h, theres hs), λ (h, hs). (back h, backs hs))

published-absent :
    (swaps : List Swap) (k : Text) (before : Option TableRecord)
    → All (λ t. k ≢ t.key) swaps
    → published swaps k before ≡ before
published-absent [] k before h = refl
published-absent (t ∷ swaps) k before (ne, h) =
    ground (arith, text_eq_iff t.key k, published-absent swaps k before h)

published-Moved :
    (s : Swap) (swaps : List Swap) (r r' : Registry) (k : Text)
    → Moved s r r'
    → All (λ t. s.key ≢ t.key) swaps
    → published swaps k (get r'.tables k) ≡ published (s ∷ swaps) k (get r.tables k)
published-Moved s swaps r r' k m ne = elim (Bool-cases (text_eq s.key k)) [
  | inl same ↦
      let here : s.key ≡ k = (text_eq_iff s.key k).0 same in
      rw (m.tables k, same)
        (published-absent swaps k (some s.next) (subst (λ x. All (λ t. x ≢ t.key) swaps) here ne))
  | inr elsewhere ↦ rw (m.tables k, elsewhere)
]

-- A commit of entries with different keys that lands was prepared from what the registry still
-- holds, entry by entry, moves the pointer of each of its tables, and leaves all other pointers,
-- the views and the namespaces as they were.
pub swap_all_sound :
    (swaps : List Swap) (r r' : Registry)
    → Distinct swaps
    → swap_all swaps r ≡ ok r'
    → All (IsCurrent r) swaps
      × ((k : Text) → get r'.tables k ≡ published swaps k (get r.tables k))
      × (r'.views ≡ r.views)
      × (r'.namespaces ≡ r.namespaces)
unfolding swap_all
swap_all_sound [] r r' d e = let same : r ≡ r' = cc in (tt, λ k. cc, cc, cc)
swap_all_sound (s ∷ swaps) r r' (ne, d) e =
    let (mid, first, rest) = >>=-eq-ok (swap_one s r) (swap_all swaps) e in
    let m = swap_one-Moved s r mid first in
    let (current, tables, views, namespaces) = swap_all_sound swaps mid r' d rest in
    (
      (m.current, (All-IsCurrent s r mid swaps m ne).1 current),
      λ k. tables k ∙ published-Moved s swaps r mid k m ne,
      views ∙ m.views,
      namespaces ∙ m.namespaces,
    )

-- Conversely, a commit of entries with different keys lands if all that it was prepared from still
-- stands.
pub swap_all_complete :
    (swaps : List Swap) (r : Registry)
    → Distinct swaps
    → All (IsCurrent r) swaps
    → (r' : Registry) × (swap_all swaps r ≡ ok r')
unfolding swap_all
swap_all_complete [] r d h = (r, refl)
swap_all_complete (s ∷ swaps) r (ne, d) (h, hs) =
    let first = swap_one_of_current s r h in
    let mid : Registry = put_next s s.expected r in
    let m = swap_one-Moved s r mid first in
    let (last, rest) = swap_all_complete swaps mid d ((All-IsCurrent s r mid swaps m ne).0 hs) in
    (last, rw first rest)

-- A commit whose first entry expects a record of a table that another commit has replaced is refused
-- as a conflict, on the registry that the other left and on every later one in which the record
-- that the other wrote for the table still stands, whatever else the two commits and the steps
-- between them change. The other commit's entry for the table is its first too, and its keys differ.
pub no_lost_update :
    (ident : TableIdent) (old : TableRecord) (mine theirs : Text) (others rest : List Swap)
    (r r' later : Registry)
    → Distinct (swap_of ident (some old) mine ∷ others)
    → swap_all (swap_of ident (some old) mine ∷ others) r ≡ ok r'
    → get later.tables (table_key ident) ≡ get r'.tables (table_key ident)
    → swap_all (swap_of ident (some old) theirs ∷ rest) later ≡ err catalog_commit_conflicts
unfolding swap_all swap_one swap_of
no_lost_update ident old mine theirs others rest r r' later d e stands =
    let first : Swap = swap_of ident (some old) mine in
    let (current, tables, views, namespaces) = swap_all_sound (first ∷ others) r r' d e in
    let now : get later.tables first.key ≡ some first.next =
      stands ∙ ground (arith, tables first.key, text_eq_iff first.key first.key) in
    ground (arith, now)

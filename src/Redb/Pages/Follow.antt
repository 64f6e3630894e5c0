-- ===== src/Redb/Pages/Follow.antt =====
-- A client of src/catalog/redb.rs that follows the pages of a namespace's listing.
use mathlib.Core.Path.{subst}
use mathlib.Core.List.{append_assoc, map-append}
use rustberg.Common.{
  ℕ, zero, suc, ◌+◌, ◌-◌, ◌≤◌, ◌<◌, Text, text_ltb, true, false, ◌≡◌, refl, ap, ◌∙◌, sym,
  Bool-cases, inl, inr, none, some, is_some, List, [], ◌∷◌, ◌++◌, map, length, All, All-append_inv,
  ltb, arith, strip_prefix,
}
use rustberg.Redb.Maps.{Map, range}
use rustberg.Redb.Keys.{NamespaceIdent, TableIdent, table_prefix, prefix_end, scanned, scanned-eq}
use rustberg.Redb.Pages.{
  PageRequest, Page, Entry, effective_limit, probe_limit, take, last_cursor, from_probe, scan_start,
  row_of, list_page, follow,
}
use rustberg.Redb.Pages.Complete.{
  IsSorted, next_range, in_range, length-take_le, length-take_lt, take-take, take-map, page_split,
}

length-map {ℓ κ} :
    {A : Type ℓ} {B : Type κ} (f : A → B) (xs : List A) → length (map f xs) ≡ length xs
length-map f [] = refl
length-map f (x ∷ xs) = ap suc (length-map f xs)

last_cursor-append {ℓ} :
    {A : Type ℓ} (rows : List (Entry A)) (e : Entry A)
    → last_cursor (rows ++ e ∷ []) ≡ some e.cursor
last_cursor-append [] e = refl
last_cursor-append (r ∷ []) e = refl
last_cursor-append (r ∷ q ∷ rows) e = last_cursor-append (q ∷ rows) e

module _ {ℓ} {A : Type ℓ} where
  -- A probe that finds no more than the limit is the whole page.
  from_probe_last :
      (rows : List (Entry A)) (request : PageRequest)
      → length rows ≤ effective_limit request
      → from_probe (take (probe_limit request) rows) request
        ≡ record { entries = rows; next = none }
  unfolding from_probe
  from_probe_last rows request few =
      let whole : take (probe_limit request) rows ≡ rows =
        length-take_le (probe_limit request) rows (omega (arith, few)) in
      let test : ltb (effective_limit request) (length rows) ≡ false = ground (arith, few) in
      rw (whole, test) refl

  from_probe_more :
      (rows : List (Entry A)) (request : PageRequest)
      → effective_limit request < length rows
      → from_probe (take (probe_limit request) rows) request ≡ record {
        entries = take (effective_limit request) rows;
        next = last_cursor (take (effective_limit request) rows);
      }
  unfolding from_probe
  from_probe_more rows request more =
      let n = effective_limit request in
      let size : length (take (n + 1) rows) ≡ n + 1 =
        length-take_lt (n + 1) rows (omega (arith, more)) in
      let test : ltb n (n + 1) ≡ true = ground arith in
      rw (size, test, take-take n (n + 1) rows (omega arith)) refl

-- Keys in a scanned range belong to its prefix, and are not before it.
scanned-parts :
    (prefix key : Text)
    → scanned prefix key ≡ true
    → (is_some (strip_prefix prefix key) ≡ true) × (text_ltb key prefix ≡ false)
scanned-parts prefix key h = (ground (arith, scanned-eq prefix key), ground arith)

module _ {ℓ} {V : Type ℓ} (ns : NamespaceIdent) (m : Map V) (sorted : IsSorted m) where
  page_last :
      (page : PageRequest) (rest : Map V)
      → range m (scan_start (table_prefix ns) page) (prefix_end (table_prefix ns)) ≡ rest
      → length rest ≤ effective_limit page
      → list_page ns page m ≡ record { entries = map (row_of ns) rest; next = none }
  unfolding list_page
  page_last page rest here few =
      rw (here, ← take-map (row_of ns) (probe_limit page) rest)
        (from_probe_last (map (row_of ns) rest) page (rw length-map few))

  page_more :
      (page : PageRequest) (rest init after : Map V) (c : Text) (v : V)
      → range m (scan_start (table_prefix ns) page) (prefix_end (table_prefix ns)) ≡ rest
      → effective_limit page < length rest
      → take (effective_limit page) rest ≡ init ++ (c, v) ∷ []
      → list_page ns page m
        ≡ record { entries = map (row_of ns) (init ++ (c, v) ∷ []); next = some c }
  unfolding list_page
  page_more page rest init after c v here more cut =
      rw (here, ← take-map (row_of ns) (probe_limit page) rest)
        (from_probe_more (map (row_of ns) rest) page (rw length-map more)
          ∙ rw (take-map (row_of ns) (effective_limit page) rest, cut, map-append)
              (rw (last_cursor-append (map (row_of ns) init) (row_of ns (c, v))) refl))

  follow_last :
      (fuel : ℕ) (page : PageRequest) (entries : List (Entry TableIdent))
      → list_page ns page m ≡ record { entries = entries; next = none }
      → follow (suc fuel) ns page m ≡ some entries
  unfolding follow
  follow_last fuel page entries e = rw (follow, e) (ap (λ (p : Page TableIdent). some p.entries) e)

  follow_more :
      (fuel : ℕ) (page : PageRequest) (entries more : List (Entry TableIdent)) (c : Text)
      → list_page ns page m ≡ record { entries = entries; next = some c }
      → follow fuel ns (record { after = some c; limit = page.limit }) m ≡ some more
      → follow (suc fuel) ns page m ≡ some (entries ++ more)
  unfolding follow
  follow_more fuel page entries more c e f =
      rw (follow, e, f) (ap (λ (p : Page TableIdent). some (p.entries ++ more)) e)

  follow_from :
      (fuel : ℕ) (page : PageRequest) (done rest : Map V)
      → length rest < fuel
      → range m (table_prefix ns) (prefix_end (table_prefix ns)) ≡ done ++ rest
      → range m (scan_start (table_prefix ns) page) (prefix_end (table_prefix ns)) ≡ rest
      → follow fuel ns page m ≡ some (map (row_of ns) rest)
  follow_from zero page done rest l whole here = absurd (omega (arith, l))
  follow_from (suc fuel) page done rest l whole here =
      elim (Bool-cases (ltb (effective_limit page) (length rest))) [
        | inr few ↦
            follow_last fuel page (map (row_of ns) rest) (page_last page rest here (ground arith))
        | inl more ↦
            let p = effective_limit page - 1 in
            let size : effective_limit page ≡ suc p = ground arith in
            let over : effective_limit page < length rest = ground arith in
            let (init, (c, v), after, e, cut, shorter) =
              page_split p rest (omega (arith, size, over)) in
            let whole' : range m (table_prefix ns) (prefix_end (table_prefix ns))
                ≡ (done ++ init) ++ (c, v) ∷ after =
              whole ∙ ap (λ l. done ++ l) e ∙ sym (append_assoc done init ((c, v) ∷ after)) in
            let (_, (inside, _)) =
              All-append_inv (λ e. scanned (table_prefix ns) e.0 ≡ true) (done ++ init)
                ((c, v) ∷ after)
                (subst (All (λ e. scanned (table_prefix ns) e.0 ≡ true)) whole'
                  (in_range m (table_prefix ns) (prefix_end (table_prefix ns)))) in
            let (belongs, behind) = scanned-parts (table_prefix ns) c inside in
            let next =
              next_range m (table_prefix ns) (prefix_end (table_prefix ns)) (done ++ init) c v after
                sorted behind whole' in
            let later =
              follow_from fuel (record { after = some c; limit = page.limit })
                ((done ++ init) ++ (c, v) ∷ []) after (omega (arith, l, shorter))
                (whole' ∙ sym (append_assoc (done ++ init) ((c, v) ∷ []) after))
                (rw belongs next) in
            follow_more fuel page (map (row_of ns) (init ++ (c, v) ∷ [])) (map (row_of ns) after) c
              (page_more page rest init after c v here over (ap (λ k. take k rest) size ∙ cut))
              later
            ∙ ap some (
                sym (map-append (row_of ns) (init ++ (c, v) ∷ []) after)
                ∙ ap (map (row_of ns)) (append_assoc init ((c, v) ∷ []) after ∙ sym e))
      ]

  -- Whatever the size of the pages, a client that follows the cursors gets every row of the
  -- namespace's range once and in the order of the keys, and is done within one page more than there
  -- are rows, if the map does not change and its keys rise.
  pub follow_complete :
      (fuel limit : ℕ)
      → length (range m (table_prefix ns) (prefix_end (table_prefix ns))) < fuel
      → follow fuel ns (record { after = none; limit = limit }) m
        ≡ some (map (row_of ns) (range m (table_prefix ns) (prefix_end (table_prefix ns))))
  follow_complete fuel limit l =
      follow_from fuel (record { after = none; limit = limit }) []
        (range m (table_prefix ns) (prefix_end (table_prefix ns))) l refl refl

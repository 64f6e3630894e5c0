-- ===== src/Redb/Pages/Examples.antt =====
-- The tests of listing by pages in src/catalog/redb.rs.
use rustberg.Common.{
  ℕ, Text, codes, ◌≡◌, refl, none, some, [], ◌∷◌, map, length, ◌++◌, ◌<◌, arith, split_at_char,
  join,
}
use rustberg.Redb.Maps.{Map, range}
use rustberg.Redb.Keys.{NamespaceIdent, table_prefix, table_key, namespace_key, prefix_end}
use rustberg.Redb.Pages.{from_probe, list_page, follow, row_of}
use rustberg.Redb.Pages.Complete.{IsSorted}
use rustberg.Redb.Pages.Follow.{follow_complete}

runs : Unit {0}
unfolding range table_prefix table_key namespace_key prefix_end split_at_char join from_probe
    list_page follow
runs = tt

abbrev db : NamespaceIdent
db = codes "db" ∷ []

abbrev named : Text → Text × ℕ
named name = (codes "db" ++ 0x1e ∷ name, 0)

abbrev stored : Map ℕ
stored =
    named (codes "a")
    ∷ named (codes "b")
    ∷ named (codes "c")
    ∷ (codes "db2" ++ 0x1e ∷ codes "d", 0)
    ∷ []

rising : IsSorted stored
rising = ((refl, (refl, (refl, tt))), ((refl, (refl, tt)), ((refl, tt), (tt, tt))))

short : length (range stored (table_prefix db) (prefix_end (table_prefix db))) < 4
unfolding runs
short = omega arith

pages :
    follow 3 db (record { after = none; limit = 1 }) stored
    ≡ some (map (row_of db) (named (codes "a") ∷ named (codes "b") ∷ named (codes "c") ∷ []))
unfolding runs
pages = refl

follow_complete_example :
    follow 4 db (record { after = none; limit = 2 }) stored
    ≡ some (map (row_of db) (range stored (table_prefix db) (prefix_end (table_prefix db))))
follow_complete_example = follow_complete db stored rising 4 2 short

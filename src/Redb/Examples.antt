-- ===== src/Redb/Examples.antt =====
-- Runs of the registry operations, and the theorems about them at concrete registries.
use rustberg.Common.{Text, codes, none, some, List, [], ◌∷◌, ◌≡◌, refl, ok, err, arith, All}
use rustberg.Redb.Maps.{get, insert, remove, range}
use rustberg.Redb.Keys.{namespace_child_prefix, TableIdent, table_key, table_prefix, namespace_key}
use rustberg.Redb.Keys.Injective.{IsPlain, IsNamespace, IsTableIdent}
use rustberg.Redb.State.{Registry, catalog_commit_conflicts, get_namespace_record, get_table_record}
use rustberg.Redb.Namespaces.{create_namespace, drop_namespace}
use rustberg.Redb.Tables.{create_table, create_table_check, create_table_write, first_record}
use rustberg.Redb.Commit.{Swap, swap_of, swap_all}
use rustberg.Redb.Commit.Swaps.{IsCurrent, published, swap_all_sound, no_lost_update}
use rustberg.Redb.Writes.{
  empty, run_all, Write, namespace_created, table_created, view_created, commit_swapped,
}
use rustberg.Redb.Writes.Kinds.{OneKind, OneKind-empty, run_all-OneKind}
use rustberg.Redb.Orphans.{create_then_drop, lone, drop_namespace_orphan, create_table_race}

-- What the runs compute with.
runs : Unit {0}
unfolding namespace_child_prefix get insert remove range table_key table_prefix namespace_key
    create_namespace drop_namespace create_table swap_of swap_all run_all
runs = tt

IsPlain-sales : IsPlain (codes "sales")
IsPlain-sales = (omega arith, omega arith)

IsPlain-orders : IsPlain (codes "orders")
IsPlain-orders = (omega arith, omega arith)

IsPlain-emoji : IsPlain (0x1f600 ∷ [])
IsPlain-emoji = (omega arith, omega arith)

sales : IsNamespace (codes "sales" ∷ [])
sales = record { some_level = λ e. ground arith; plain = (IsPlain-sales, tt) }

abbrev orders : TableIdent
orders = lone (codes "sales") (codes "orders")

orders_ident : IsTableIdent orders
orders_ident = record { namespace = sales; name = IsPlain-orders }

abbrev script : List Write
script =
    namespace_created (codes "sales" ∷ []) []
    ∷ table_created orders (codes "m0")
    ∷ view_created orders (codes "v0")
    ∷ commit_swapped (swap_of orders (some (first_record orders (codes "m0"))) (codes "m1") ∷ [])
    ∷ []

run_all-OneKind_example : OneKind (run_all script empty)
run_all-OneKind_example = run_all-OneKind script empty OneKind-empty

abbrev made : Registry
made = record {
  namespaces = (codes "sales", record { namespace = codes "sales" ∷ []; properties = [] }) ∷ [];
  tables = (table_key orders, first_record orders (codes "m0")) ∷ [];
  staged = [];
  views = [];
}

abbrev mine : Swap
mine = swap_of orders (some (first_record orders (codes "m0"))) (codes "m1")

abbrev theirs : Swap
theirs = swap_of orders (some (first_record orders (codes "m0"))) (codes "m2")

abbrev landed : Registry
landed = record made { tables = (table_key orders, mine.next) ∷ [] }

mine_lands : swap_all (mine ∷ []) made ≡ ok landed
unfolding runs
mine_lands = refl

swap_all_sound_example :
    All (IsCurrent made) (mine ∷ [])
    × ((k : Text) → get landed.tables k ≡ published (mine ∷ []) k (get made.tables k))
    × (landed.views ≡ made.views)
    × (landed.namespaces ≡ made.namespaces)
swap_all_sound_example = swap_all_sound (mine ∷ []) made landed (tt, tt) mine_lands

mine-IsCurrent : IsCurrent made mine
unfolding runs
mine-IsCurrent = (first_record orders (codes "m0"), refl, refl, refl)

-- Another namespace has been created since.
abbrev later : Registry
later = record landed {
  namespaces =
      (codes "hr", record { namespace = codes "hr" ∷ []; properties = [] }) ∷ made.namespaces;
}

no_lost_update_example : swap_all (theirs ∷ []) later ≡ err catalog_commit_conflicts
no_lost_update_example =
    no_lost_update orders (first_record orders (codes "m0")) (codes "m1") (codes "m2") [] [] made
      landed later (tt, tt) mine_lands refl

abbrev bare : Registry
bare = record made { tables = [] }

abbrev dropped : Registry
dropped = record { namespaces = []; tables = []; staged = []; views = [] }

drop_bare : drop_namespace (codes "sales" ∷ []) bare ≡ ok dropped
unfolding runs
drop_bare = refl

drop_namespace_orphan_example :
    (r : Registry) × (create_then_drop (codes "sales") (0x1f600 ∷ []) (codes "m0") ≡ ok r)
    × (get_namespace_record (codes "sales" ∷ []) r ≡ none)
    × (get_table_record (lone (codes "sales") (0x1f600 ∷ [])) r
        ≡ some (first_record (lone (codes "sales") (0x1f600 ∷ [])) (codes "m0")))
drop_namespace_orphan_example =
    drop_namespace_orphan (codes "sales") 0x1f600 [] (codes "m0") IsPlain-sales IsPlain-emoji
      (omega arith)

check_bare : create_table_check orders bare ≡ ok tt
unfolding runs create_table_check
check_bare = refl

create_table_race_example :
    (after : Registry) × (create_table_write orders (codes "m0") dropped ≡ ok after)
    × (get_namespace_record orders.namespace after ≡ none)
    × (get_table_record orders after ≡ some (first_record orders (codes "m0")))
create_table_race_example =
    create_table_race orders (codes "m0") bare dropped orders_ident (omega arith) check_bare
      drop_bare

created : create_table orders (codes "m0") bare ≡ ok made
unfolding runs
created = refl

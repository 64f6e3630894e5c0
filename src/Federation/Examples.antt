-- ===== src/Federation/Examples.antt =====
-- Runs of src/catalog/federated.rs over catalogs that count what changes them, and its theorems at
-- them.
use rustberg.Common.{
  ◌≡◌, ◌≢◌, ◌⊎◌, inl, inr, ◌↔◌, refl, sym, ap, ℕ, suc, ◌+◌, ◌≤◌, Text, codes, true, some, none, [],
  ◌∷◌, length, Result, ok, err, if◌then◌else◌,
}
use rustberg.Redb.Keys.{TableIdent}
use rustberg.Redb.Pages.{PageRequest, effective_limit}
use rustberg.Federation.{
  Library, full, read_only, present_in, can_write, Error, elsewhere, Kind, of_table, of_done, Mount,
  FederatedCatalog, Table, Answer, Operation, load_table, drop_table, rename_table, new_federated,
  find_mount, route,
}
use rustberg.Federation.Dispatch.{name_of, Backend, destination, to_mount, perform}
use rustberg.Federation.Isolated.{catalog_at, perform-Touches}
use rustberg.Federation.Homes.{home_of}
use rustberg.Federation.ReadOnly.{IsReadOnly, is_reading, IsPassive, perform_read_only}
use rustberg.Federation.Named.{IsNaming, load_table_named}
use rustberg.Federation.Root.{
  native_token, parse_cursor, mount_entries, native_request, effective_capabilities,
}
use rustberg.Federation.Listed.{AllHave, native_request_bounds, effective_capabilities_iff}

abbrev counted : Library
counted = record {
  Store = ℕ;
  Creation = Unit {0};
  Commit = Unit {0};
  Body = Unit {0};
  ViewMetadata = Unit {0};
}

-- A table that is loaded is there; all else fails.
answer_of : (k : Kind) → Operation counted k → Result (Answer counted k) Error
answer_of k (load_table t) = ok (record { identifier = t; body = tt })
answer_of k _ = err (elsewhere [])

backend : Backend counted
unfolding answer_of
backend k op store = (answer_of k op, if is_reading counted op then store else suc store)

abbrev lake : Mount counted
lake = record {
  name = codes "lake";
  store = 0;
  capabilities = read_only;
  owner = codes "acme";
  warehouse = none;
}

abbrev fed : FederatedCatalog counted
fed = record { mounts = (codes "lake", lake) ∷ []; native = 0 }

made : new_federated counted 0 (lake ∷ []) ≡ ok fed
unfolding new_federated
made = refl

abbrev mounted : TableIdent
mounted = record { namespace = codes "lake" ∷ codes "db" ∷ []; name = codes "t" }

abbrev plain : TableIdent
plain = record { namespace = codes "db" ∷ []; name = codes "t" }

lake-not_native : home_of counted fed plain.namespace ≢ some (codes "lake")
unfolding route name_of
lake-not_native e = cc

-- A table that would be renamed out of a mount.
perform-Touches_example :
    (catalog_at counted
        (perform counted of_done backend fed (rename_table mounted plain)).1
        (some (codes "lake"))
      ≡ catalog_at counted fed (some (codes "lake")))
    × ((home_of counted fed plain.namespace ≡ home_of counted fed mounted.namespace)
        ⊎ ((e : Error) × (perform counted of_done backend fed (rename_table mounted plain)
              ≡ (err e, fed))))
perform-Touches_example =
    perform-Touches counted of_done backend fed (rename_table mounted plain) plain.namespace
      mounted.namespace (some (codes "lake")) (inr (inl refl)) (inl refl) lake-not_native

lake-IsReadOnly : IsReadOnly read_only
lake-IsReadOnly = record {
  write = refl;
  multi_table_commit = refl;
  register = refl;
  stage_create = refl;
  purge = refl;
}

backend-IsPassive : IsPassive counted backend
unfolding backend
backend-IsPassive k op store h = rw h refl

lake_lem : find_mount counted (codes "lake") fed.mounts ≡ some lake
unfolding find_mount
lake_lem = refl

goes_lem : destination counted fed (drop_table mounted) ≡ to_mount lake
unfolding destination
goes_lem = refl

perform_read_only_example : (perform counted of_done backend fed (drop_table mounted)).1 ≡ fed
perform_read_only_example =
    perform_read_only counted of_done backend fed (drop_table mounted) lake backend-IsPassive
      goes_lem lake_lem lake-IsReadOnly

ok-inj : {a b : Table counted} → ◌≡◌ {A = Result (Table counted) Error} (ok a) (ok b) → a ≡ b
ok-inj e = cc

backend-IsNaming : IsNaming counted backend
unfolding backend
backend-IsNaming t store found e = sym (ap (λ x. x.identifier) (ok-inj e))

loaded :
    (perform counted of_table backend fed (load_table mounted)).0
    ≡ ok (record { identifier = mounted; body = tt })
unfolding perform backend
loaded = refl

load_table_named_example : mounted ≡ mounted
load_table_named_example =
    load_table_named counted backend 0 (lake ∷ []) fed mounted
      (record { identifier = mounted; body = tt }) backend-IsNaming made loaded

abbrev page : PageRequest
page = record { after = some (native_token (codes "db")); limit = 10 }

abbrev request : PageRequest
request = record { after = some (codes "db"); limit = 10 }

asked_lem : native_request counted fed page ≡ some request
unfolding native_request native_token
asked_lem = refl

native_request_bounds_example :
    (1 ≤ request.limit)
    × (length (mount_entries counted fed (parse_cursor page.after) (effective_limit page))
          + request.limit
        ≡ effective_limit page)
    × ((request.after ≡ none)
        ⊎ ((c : Text) × (request.after ≡ some c) × (page.after ≡ some (native_token c))))
native_request_bounds_example = native_request_bounds counted fed page request asked_lem

effective_capabilities_iff_example :
    (present_in can_write (effective_capabilities counted (λ _. full) fed) ≡ true)
    ↔ ((present_in can_write full ≡ true) × AllHave counted can_write fed.mounts)
effective_capabilities_iff_example = effective_capabilities_iff counted (λ _. full) fed can_write

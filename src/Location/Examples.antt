-- ===== src/Location/Examples.antt =====
-- Runs of the location checks on locations from the tests of src/location.rs, and the theorems about
-- them at such locations.
use rustberg.Common.{
  Text, codes, some, split_once, true, false, ◌≡◌, refl, ◌≢◌, ◌↔◌, ◌⊎◌, List, [], ◌∷◌, ◌++◌, All,
  ok, err, arith, trim_end_char, to_ascii_lowercase,
}
use rustberg.Location.{
  root_segments, is_within, is_prefix_within, split, segments, canonical_scheme,
}
use rustberg.Location.Segments.{NoTraversal, no_dot_dot_iff}
use rustberg.Location.Within.{InRoot, candidate_path, is_within_iff}
use rustberg.Location.Urls.{without_url_prefix, to_url}
use rustberg.Location.Bound
use rustberg.Location.Bound.{
  LocationBound, TableUpdate, LocationError, canonical_prefix, namespace_prefix, ensure_commit,
}
use rustberg.Location.Bound.Commits.{
  IsEntitled, reason, ensure_commit_cases, History, History-is_within,
}
use rustberg.Location.Bound.Layout.{IsSegment}
use rustberg.Location.Bound.Overlap.{nested_overlap}

-- What the runs compute with.
runs : Unit {0}
unfolding is_within is_prefix_within ensure_commit canonical_prefix namespace_prefix
    without_url_prefix to_url split segments root_segments split_once trim_end_char
runs = tt

abbrev warehouse_root : Text
warehouse_root = codes "s3://bucket/wh"

abbrev table_root : Text
table_root = codes "s3a://bucket/wh/db/t"

within_runs :
    (is_within warehouse_root table_root ≡ true)
    × (is_within warehouse_root (codes "s3://bucket/wh-evil/t") ≡ false)
    × (is_within warehouse_root (codes "s3://bucket/wh/../other") ≡ false)
    × (is_within warehouse_root (codes "s3://bucket//wh/t") ≡ false)
    × (is_within (codes "/srv/wh") (codes "file:/srv//wh/t") ≡ true)
    × (is_within (codes "/srv/wh") (codes "srv/wh/t") ≡ false)
unfolding runs
within_runs = (refl, refl, refl, refl, refl, refl)

table_within : is_within table_root (codes "s3://bucket/wh/db/t/data") ≡ true
unfolding runs
table_within = refl

is_within_iff_example :
    (is_within warehouse_root table_root ≡ true) ↔ InRoot warehouse_root table_root
is_within_iff_example = is_within_iff warehouse_root table_root

listing : is_prefix_within table_root (codes "s3://bucket/wh/db/t/d") ≡ true
unfolding runs
listing = refl

siblings : is_prefix_within table_root (codes "s3://bucket/wh/db/t") ≡ false
unfolding runs
siblings = refl

remote : canonical_scheme (to_ascii_lowercase (codes "s3")) ≢ codes "file"
unfolding canonical_scheme
remote e = ground arith

clean_key : NoTraversal (candidate_path (codes "s3://bucket/wh/db/t/d" ++ codes "ata/0.parquet"))
unfolding runs
clean_key =
    (no_dot_dot_iff (candidate_path (codes "s3://bucket/wh/db/t/d" ++ codes "ata/0.parquet"))).0
      refl

url_runs :
    (without_url_prefix (codes "file:///C:/data") true ≡ codes "C:/data")
    × (to_url (codes "C:\\data") true ≡ codes "file:///C:/data")
unfolding runs
url_runs = (refl, refl)

abbrev bound : LocationBound
bound = record { root = codes "s3://bucket/wh/db/t"; scope = Bound.table }

abbrev updates : List TableUpdate
updates =
    Bound.add_snapshot (codes "s3://bucket/wh/db/t/metadata/snap-1.avro")
    ∷ Bound.set_location (codes "s3://bucket/wh/db/t/v2")
    ∷ []

updates_pass : ensure_commit bound (codes "s3://bucket/wh/db/t") updates ≡ ok tt
unfolding runs
updates_pass = refl

abbrev stolen : List TableUpdate
stolen = Bound.set_location (codes "s3://bucket/wh/finance/secret") ∷ []

ensure_commit_cases_example :
    ((ensure_commit bound (codes "s3://bucket/wh/db/t") stolen ≡ ok tt)
      × All (IsEntitled bound (codes "s3://bucket/wh/db/t")) stolen)
    ⊎ ((before : List TableUpdate) × (u : TableUpdate) × (after : List TableUpdate) × (stolen
          ≡ before ++ u ∷ after)
        × All (IsEntitled bound (codes "s3://bucket/wh/db/t")) before
        × (¬ IsEntitled bound (codes "s3://bucket/wh/db/t") u)
        × (ensure_commit bound (codes "s3://bucket/wh/db/t") stolen
            ≡ err (reason bound (codes "s3://bucket/wh/db/t") u)))
ensure_commit_cases_example = ensure_commit_cases bound (codes "s3://bucket/wh/db/t") stolen

bound_within_itself : is_within (codes "s3://bucket/wh/db/t") (codes "s3://bucket/wh/db/t") ≡ true
unfolding runs
bound_within_itself = refl

History-is_within_example :
    is_within (codes "s3://bucket/wh/db/t") (codes "s3://bucket/wh/db/t/v2") ≡ true
History-is_within_example =
    History-is_within bound (codes "s3://bucket/wh/db/t") (codes "s3://bucket/wh/db/t/v2")
      bound_within_itself (History.commit History.created updates updates_pass refl)

db : IsSegment (codes "db")
db = ((λ e. ground arith), omega arith)

events : IsSegment (codes "events")
events = ((λ e. ground arith), omega arith)

warehouse_found :
    split_once (codes "://") (trim_end_char b'/' (codes "s3://bucket/wh/"))
    ≡ some (codes "s3", codes "bucket/wh")
unfolding runs
warehouse_found = refl

abbrev wh : Text
wh = codes "s3://bucket/wh/"

in_events :
    is_within
      (canonical_prefix wh (codes "db" ∷ []) (codes "events"))
      (codes "s3://bucket/wh/db/events/db/x")
    ≡ true
unfolding runs
in_events = refl

in_nested :
    is_within
      (canonical_prefix wh (codes "db" ∷ codes "events" ∷ []) (codes "db"))
      (codes "s3://bucket/wh/db/events/db/x")
    ≡ true
unfolding runs
in_nested = refl

clean_child :
    NoTraversal
      (candidate_path (canonical_prefix wh (codes "db" ∷ codes "events" ∷ []) (codes "db")))
unfolding runs
clean_child =
    (no_dot_dot_iff
        (candidate_path (canonical_prefix wh (codes "db" ∷ codes "events" ∷ []) (codes "db")))).0
      refl

nested_overlap_example :
    is_within
      (canonical_prefix wh (codes "db" ∷ []) (codes "events"))
      (canonical_prefix wh (codes "db" ∷ codes "events" ∷ []) (codes "db"))
    ≡ true
nested_overlap_example =
    nested_overlap wh (codes "s3") b'b' (codes "ucket/wh") warehouse_found (codes "db" ∷ [])
      (codes "events") [] (codes "db") (db, tt) events tt db clean_child

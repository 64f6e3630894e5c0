-- ===== src/Location/Bound.antt =====
-- src/location.rs: `LocationScope`, `LocationBound` and the layout of a warehouse. Messages are kept
-- as the values that they name. `TableUpdate` and `ViewUpdate` are the Iceberg library's; all of
-- their variants that carry no location are one constructor here, as the `_` arm treats them alike.
pub mod Commits
pub mod Inside
pub mod Layout
pub mod Overlap
use rustberg.Common.{
  Text, codes, text_eq, text_eq_iff, Bool, true, false, not, ◌&&◌, ◌||◌, List, [], ◌∷◌, ◌++◌,
  Result, ok, err, ◌>>=◌, if◌then◌else◌, is_empty, trim, to_ascii_lowercase, trim_end_char,
}
use rustberg.Location.{is_within}

pub data LocationScope : Type 0 where
  table warehouse : LocationScope

-- `empty`: the message of `ensure` for a blank location. `outside`: that of `explain`, with the
-- scope, the root and the location. `not_owned`: that of `ensure_owned`.
pub data LocationError : Type 0 where
  unknown_scope : Text → LocationError
  empty : LocationError
  outside : LocationScope → Text → Text → LocationError
  not_owned : Text → Text → LocationError

scope_of : Text → Result LocationScope LocationError
scope_of word =
    if text_eq word (codes "table")
    then ok table
    else if text_eq word (codes "warehouse")
    then ok warehouse
    else err (unknown_scope word)

-- `LocationScope::parse`
unfoldable pub parse_scope : Text → Result LocationScope LocationError
unfolding scope_of trim
parse_scope value = scope_of (to_ascii_lowercase (trim value))

pub push_levels : Text → List Text → Text
push_levels out [] = out
push_levels out (level ∷ levels) = push_levels (out ++ b'/' ∷ level) levels

unfoldable pub join_segments : Text → List Text → Text
unfolding push_levels trim_end_char
join_segments warehouse' namespace = push_levels (trim_end_char b'/' warehouse') namespace

unfoldable pub canonical_prefix : Text → List Text → Text → Text
unfolding join_segments
canonical_prefix warehouse' namespace name =
    (join_segments warehouse' namespace ++ codes "/") ++ name

unfoldable pub namespace_prefix : Text → List Text → Text
unfolding join_segments
namespace_prefix warehouse' namespace = join_segments warehouse' namespace

pub record LocationBound : Type 0 where
  pub root : Text
  pub scope : LocationScope

-- `LocationBound::new`
unfoldable pub new : LocationScope → Text → Text → Text → LocationBound
unfolding trim_end_char
new warehouse warehouse' namespace_prefix' name = record { root = warehouse'; scope = warehouse }
new table warehouse' namespace_prefix' name = record {
  root = trim_end_char b'/' namespace_prefix' ++ b'/' ∷ name;
  scope = table;
}

explain : LocationBound → Text → LocationError
explain b location = outside b.scope b.root location

unfoldable pub ensure : LocationBound → Text → Result (Unit {0}) LocationError
unfolding explain trim
ensure b location =
    if is_empty (trim location)
    then err empty
    else if is_within b.root location
    then ok tt
    else err (explain b location)

unfoldable pub ensure_iceberg : LocationBound → Text → Result (Unit {0}) LocationError
unfolding explain
ensure_iceberg b location = if is_within b.root location then ok tt else err (explain b location)

pub data TableUpdate : Type 0 where
  set_location : (location : Text) → TableUpdate
  add_snapshot : (manifest_list : Text) → TableUpdate
  set_statistics : (statistics_path : Text) → TableUpdate
  set_partition_statistics : (statistics_path : Text) → TableUpdate
  other : TableUpdate

pub ensure_owned : Text → Text → Result (Unit {0}) LocationError
ensure_owned current location =
    if is_within current location then ok tt else err (not_owned current location)

ensure_move : LocationBound → Text → Text → Result (Unit {0}) LocationError
unfolding explain
ensure_move b current location =
    if not (is_within b.root location) && not (is_within current location)
    then err (explain b location)
    else ok tt

-- One round of the loop of `ensure_commit`.
unfoldable pub ensure_update : LocationBound → Text → TableUpdate → Result (Unit {0}) LocationError
unfolding ensure_move ensure_owned
ensure_update b current (set_location location) = ensure_move b current location
ensure_update b current (add_snapshot manifest_list) = ensure_owned current manifest_list
ensure_update b current (set_statistics path) = ensure_owned current path
ensure_update b current (set_partition_statistics path) = ensure_owned current path
ensure_update b current other = ok tt

unfoldable pub ensure_commit :
    LocationBound → Text → List TableUpdate → Result (Unit {0}) LocationError
unfolding ensure_update
ensure_commit b current [] = ok tt
ensure_commit b current (update ∷ updates) = do
  done ← ensure_update b current update
  ensure_commit b current updates

pub data ViewUpdate : Type 0 where
  set_view_location : (location : Text) → ViewUpdate
  other_view : ViewUpdate

ensure_view_update : LocationBound → Text → ViewUpdate → Result (Unit {0}) LocationError
unfolding ensure_move
ensure_view_update b current (set_view_location location) = ensure_move b current location
ensure_view_update b current other_view = ok tt

unfoldable pub ensure_view_commit :
    LocationBound → Text → List ViewUpdate → Result (Unit {0}) LocationError
unfolding ensure_view_update
ensure_view_commit b current [] = ok tt
ensure_view_commit b current (update ∷ updates) = do
  done ← ensure_view_update b current update
  ensure_view_commit b current updates

-- The metadata's location is all that the check reads.
unfoldable pub ensure_view_commit_metadata :
    LocationBound → Text → Text → Result (Unit {0}) LocationError
unfolding explain
ensure_view_commit_metadata b current location =
    if is_within b.root location || is_within current location
    then ok tt
    else err (explain b location)

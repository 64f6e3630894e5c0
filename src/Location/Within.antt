-- ===== src/Location/Within.antt =====
-- `is_within` of src/location.rs against an independent description of what lies inside a root.
use rustberg.Common.{Text, text_eq_iff, true, ◌≡◌, ◌↔◌, List, ◌∙◌, sym, arith}
use rustberg.Location.{
  file_scheme, split, segments, root_segments, is_absolute, comparable, is_within, within_split,
  is_prefix_within, prefix_within_split,
}
use rustberg.Location.Segments.{StartsWith, NoTraversal, within_segments_iff, StartsWith-trans}

-- One store, and on the local file system one kind of root.
pub record SameStore (root candidate : Text × Text) : Type 0 where
  pub scheme : root.0 ≡ candidate.0
  pub rooting : root.0 ≡ file_scheme → is_absolute root.1 ≡ is_absolute candidate.1

abbrev pub root_path : Text → List Text
root_path root = root_segments (split root).1 (split root).0

abbrev pub candidate_path : Text → List Text
candidate_path candidate = segments (split candidate).1 (split candidate).0

-- `candidate` is `root` or below it, segment by segment, and never climbs.
pub record InRoot (root candidate : Text) : Type 0 where
  pub store : SameStore (split root) (split candidate)
  pub clean : NoTraversal (candidate_path candidate)
  pub below : StartsWith (root_path root) (candidate_path candidate)

pub comparable_sound : (r c : Text × Text) → comparable r c ≡ true → SameStore r c
unfolding comparable
comparable_sound (rs, rp) (cs, cp) h = record {
  scheme = ground (arith, text_eq_iff rs cs);
  rooting = λ e. ground (arith, text_eq_iff rs file_scheme, text_eq_iff rs cs);
}

comparable_complete : (r c : Text × Text) → SameStore r c → comparable r c ≡ true
unfolding comparable
comparable_complete (rs, rp) (cs, cp) h =
    ground (arith, text_eq_iff rs cs, text_eq_iff rs file_scheme, h.scheme, h.rooting)

-- `is_within` answers true exactly for a candidate in the same store as the root (on the local file
-- system, both absolute or both relative), none of whose segments is "..", and whose segments begin
-- with all of the root's.
pub is_within_iff :
    (root candidate : Text) → (is_within root candidate ≡ true) ↔ InRoot root candidate
unfolding is_within
is_within_iff root candidate = (
  λ h. record {
    store = comparable_sound (split root) (split candidate) (ground arith);
    clean = ((within_segments_iff (root_path root) (candidate_path candidate)).0 (ground arith)).0;
    below = ((within_segments_iff (root_path root) (candidate_path candidate)).0 (ground arith)).1;
  },
  λ w. ground (
    arith,
    comparable_complete (split root) (split candidate) w.store,
    (within_segments_iff (root_path root) (candidate_path candidate)).1 (w.clean, w.below),
  ),
)

SameStore-trans : {a b c : Text × Text} → SameStore a b → SameStore b c → SameStore a c
SameStore-trans h k = record {
  scheme = h.scheme ∙ k.scheme;
  rooting = λ e. h.rooting e ∙ k.rooting (sym h.scheme ∙ e);
}

-- Containment is transitive: what lies within a location that lies within a root lies within the
-- root.
pub is_within_trans :
    (a b c : Text) → is_within a b ≡ true → is_within b c ≡ true → is_within a c ≡ true
unfolding root_segments
is_within_trans a b c h k =
    let ab = (is_within_iff a b).0 h in
    let bc = (is_within_iff b c).0 k in
    (is_within_iff a c).1 (record {
      store = SameStore-trans ab.store bc.store;
      clean = bc.clean;
      below =
          StartsWith-trans (candidate_path a) (candidate_path b) (candidate_path c) ab.below
            bc.below;
    })

-- A list prefix that is accepted lies within the root like a key.
pub is_prefix_within-is_within :
    (root candidate : Text)
    → is_prefix_within root candidate ≡ true
    → is_within root candidate ≡ true
unfolding is_prefix_within prefix_within_split is_within within_split
is_prefix_within-is_within root candidate h = ground arith

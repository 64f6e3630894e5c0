-- ===== src/Names/Examples.antt =====
-- The tests of the names of src/names.rs, with small Unicode tables.
use rustberg.Common.{
  Text, codes, map, join, ◌≢◌, true, ◌≡◌, refl, ◌↔◌, List, [], ◌∷◌, ◌||◌, some, ok, err, ap, sym,
  ◌∙◌, ◌<◌, text_eq, text_eq_iff, Bool-cases, inl, inr, arith, All, all, ltb, ◌==◌, if◌then◌else◌,
  split_once, trim_end_char, trim_start, trim_end, trim, split_at_char,
}
use rustberg.Location.{
  is_within, canonical_scheme, is_scheme, is_absolute, split, segments, root_segments,
}
use rustberg.Location.Segments.{no_dot_dot_iff, NoTraversal}
use rustberg.Location.Within.{candidate_path}
use rustberg.Location.Bound.{canonical_prefix, join_segments}
use rustberg.Redb.Keys.{TableIdent}
use rustberg.Names.{
  Unicode, yes, maybe, table_name, view_chain, bad_name, not_normalized, find, validate_name,
  validate_namespace, validate_table_name, validate_principal_id, unusable_role_char, usable_roles,
  validate_properties,
}
use rustberg.Names.Accepted.{IsUnicode, IsName, validate_name_iff}
use rustberg.Names.Roles.{IsAsciiNormal}
use rustberg.Names.Chain.{parse_view_chain}
use rustberg.Names.Chain.Recorded.{IsRecorded, parse_view_chain-IsRecorded}
use rustberg.Names.Chain.Written.{IsWritable, written, parse_view_chain-written}
use rustberg.Names.Storage.{IsControlOther, IsValid, valid-is_within, valid_disjoint}

-- Control characters are other, ASCII text is normal at once, and so is, after a look, all other
-- text but a decomposed é by itself.
abbrev composed : Text → Text
composed s = if text_eq s (0x65 ∷ 0x301 ∷ []) then 0xe9 ∷ [] else s

composed_ascii : (s : Text) → all (λ c. ltb c 0x80) s ≡ true → composed s ≡ s
composed_ascii s h = elim (Bool-cases (text_eq s (0x65 ∷ 0x301 ∷ []))) [
  | inl e ↦
      let same : s ≡ 0x65 ∷ 0x301 ∷ [] = (text_eq_iff s (0x65 ∷ 0x301 ∷ [])).0 e in
      let ascii : all (λ c. ltb c 0x80) (0x65 ∷ 0x301 ∷ []) ≡ true =
        ap (all (λ c. ltb c 0x80)) (sym same) ∙ h in
      absurd (ground arith)
  | inr e ↦ rw e refl
]

abbrev tables : Unicode
tables = record {
  is_other = λ c. ltb c 0x20 || c == 0x200b;
  is_nfc_quick = λ s. if all (λ c. ltb c 0x80) s then yes else maybe;
  nfc = composed;
}

quick_ascii : (s : Text) → (if all (λ c. ltb c 0x80) s then yes else maybe) ≡ yes → composed s ≡ s
quick_ascii s e = elim (Bool-cases (all (λ c. ltb c 0x80) s)) [
  | inl ascii ↦ composed_ascii s ascii
  | inr wide ↦ absurd (ground arith)
]

tables-IsUnicode : IsUnicode tables
tables-IsUnicode = record { quick = quick_ascii }

tables-IsControlOther : IsControlOther tables
tables-IsControlOther = record { part = refl; name = refl }

all_of_All : (s : Text) → All (λ c. c < 0x80) s → all (λ c. ltb c 0x80) s ≡ true
all_of_All [] h = refl
all_of_All (c ∷ s) (a, h) = ground (arith, all_of_All s h)

tables-IsAsciiNormal : IsAsciiNormal tables
tables-IsAsciiNormal = record { ascii = λ s h. composed_ascii s (all_of_All s h) }

runs : Unit {0}
unfolding validate_name validate_namespace validate_table_name validate_principal_id
    unusable_role_char usable_roles validate_properties find trim trim_start trim_end is_within
    split split_once canonical_scheme is_scheme is_absolute segments root_segments split_at_char
    trim_end_char canonical_prefix join_segments
runs = tt

decomposed :
    validate_name tables (0x65 ∷ 0x301 ∷ []) table_name
    ≡ err (bad_name table_name (not_normalized (0xe9 ∷ [])))
unfolding runs
decomposed = refl

validate_name_iff_example :
    (validate_name tables (codes "a..b") table_name ≡ ok tt) ↔ IsName tables (codes "a..b")
validate_name_iff_example = validate_name_iff tables (codes "a..b") table_name tables-IsUnicode

abbrev owner : List (Text × Text)
owner = (codes "owner", codes "ana") ∷ []

abbrev claimed : List Text
claimed = codes "analysts" ∷ (0x65 ∷ 0x301 ∷ []) ∷ codes "admins " ∷ []

kept : usable_roles tables claimed ≡ codes "analysts" ∷ []
unfolding runs
kept = refl

valid : IsValid tables (codes "db" ∷ []) (codes "t")
unfolding runs
valid = record { namespace_ok = refl; name_ok = refl }

abbrev ident : TableIdent
ident = record { namespace = codes "db" ∷ []; name = codes "t" }

abbrev wh : Text
wh = codes "s3://bucket/wh"

found : split_once (codes "://") (trim_end_char b'/' wh) ≡ some (codes "s3", codes "bucket/wh")
unfolding runs
found = refl

bare : trim_end_char b'/' wh ≡ wh
unfolding runs
bare = refl

clean : NoTraversal (candidate_path wh)
unfolding runs
clean = (no_dot_dot_iff (candidate_path wh)).0 refl

valid-is_within_example : is_within wh (canonical_prefix wh (codes "db" ∷ []) (codes "t")) ≡ true
valid-is_within_example =
    valid-is_within tables tables-IsUnicode wh (codes "s3") b'b' (codes "ucket/wh") found
      (codes "db" ∷ []) (codes "t") valid bare clean

file :
    is_within (canonical_prefix wh (codes "db" ∷ []) (codes "t")) (codes "s3://bucket/wh/db/t/f")
    ≡ true
unfolding runs
file = refl

valid_disjoint_example : (codes "db" ∷ [] ≡ codes "db" ∷ []) × (codes "t" ≡ codes "t")
valid_disjoint_example =
    valid_disjoint tables tables-IsUnicode wh (codes "s3") b'b' (codes "ucket/wh") found
      (codes "db" ∷ []) (codes "t") (codes "db" ∷ []) (codes "t") (codes "s3://bucket/wh/db/t/f")
      valid valid refl file file

db-IsName : IsName tables (codes "db")
unfolding validate_name
db-IsName = (validate_name_iff tables (codes "db") view_chain tables-IsUnicode).0 refl

comma-IsName : IsName tables (codes "a,b")
unfolding validate_name
comma-IsName = (validate_name_iff tables (codes "a,b") view_chain tables-IsUnicode).0 refl

view-IsWritable : IsWritable tables (codes "db" ∷ codes "a,b" ∷ [])
view-IsWritable = record {
  view = record { two = omega arith; names = (db-IsName, (comma-IsName, tt)) };
  texts = ((refl, (refl, tt)), ((refl, (refl, (refl, tt))), tt));
}

parse_view_chain-written_example :
    parse_view_chain tables (join b',' (map written ((codes "db" ∷ codes "a,b" ∷ []) ∷ [])))
    ≡ some (codes "db/a,b" ∷ [])
unfolding join
parse_view_chain-written_example =
    parse_view_chain-written tables (codes "db" ∷ codes "a,b" ∷ []) [] tables-IsUnicode
      tables-IsControlOther (view-IsWritable, tt)

recorded_chain :
    parse_view_chain tables (codes "db%1Fv,db%1Fa%2Cb") ≡ some (codes "db/v" ∷ codes "db/a,b" ∷ [])
unfolding parse_view_chain validate_name
recorded_chain = refl

parse_view_chain-IsRecorded_example :
    (codes "db/v" ∷ codes "db/a,b" ∷ [] ≢ [])
    × All (IsRecorded tables) (codes "db/v" ∷ codes "db/a,b" ∷ [])
parse_view_chain-IsRecorded_example =
    parse_view_chain-IsRecorded tables (codes "db%1Fv,db%1Fa%2Cb")
      (codes "db/v" ∷ codes "db/a,b" ∷ []) tables-IsUnicode recorded_chain

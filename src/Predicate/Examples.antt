-- ===== src/Predicate/Examples.antt =====
-- A small Iceberg library, and filters over a table of a number and a binary column.
use rustberg.Common.{
  ◌==◌, ◌↔◌, ◌≡◌, ◌≢◌, ◌++◌, refl, ℤ, pos, negsuc, Text, codes, text_eq, Bool, true, false, not,
  ◌&&◌, ◌||◌, Option, none, some, List, [], ◌∷◌, ok, err, if◌then◌else◌, arith,
}
use rustberg.Json.{integer, bool, number, string, object, Fields, end, entry}
use rustberg.Predicate.{
  Iceberg, in_set, named, values_not_array, is_bindable, read_kind, comparison_operand_of,
  operand_of, resolve, field_named, int, binary, primitive, Field, UnaryOp, BinaryOp, eq, SetOp,
  bindable, sensitive, panic, unknown_column,
}
use rustberg.Predicate.Columns.{referenced_columns}
use rustberg.Predicate.Hex.{to_hex, from_hex-to_hex, from_hex_aborts}
use rustberg.Predicate.Literals.{from_hex, parse_literal, values_of}
use rustberg.Predicate.Parse.{
  parse_kind, bind_leaf, parse_predicate, parse_policy_predicate, parse_with_polarity,
}
use rustberg.Predicate.Parse.Columns.{IsOver}
use rustberg.Predicate.Parse.Meaning.{Semantics, Means, negation, unknown_operator}
use rustberg.Predicate.Parse.Over.{parsed-IsOver_referenced}
use rustberg.Predicate.Parse.Policy.{parse_policy_predicate_exact}
use rustberg.Predicate.Parse.Stored.{stored_filter_faults}
use rustberg.Predicate.Parse.Superset.{parse_predicate_superset}
use rustberg.Predicate.Parse.Unchecked.{no_array_accepted}
use rustberg.Predicate.Parse.Validated.{validate_of_parse_policy}
use rustberg.Predicate.Validate.{validate_kind, validate_policy_filter}
use rustberg.Predicate.Validate.Faults.{is_table_fault}

data Expr : Type 0 where
  always_true always_false : Expr
  conj disj : Expr → Expr → Expr
  neg : Expr → Expr
  has_op : UnaryOp → Text → Expr
  compared : BinaryOp → Text → ℤ → Expr
  one_of : SetOp → Text → List ℤ → Expr

abbrev columns : List (Text × Field)
columns =
    (codes "n", record { name = codes "n"; field_type = primitive int })
    ∷ (codes "b", record { name = codes "b"; field_type = primitive binary })
    ∷ []

abbrev lookup : List (Text × Field) → Text → Option Field
lookup [] k = none
lookup ((j, f) ∷ fs) k = let rest = lookup fs k in if text_eq j k then some f else rest

abbrev tiny : Iceberg
tiny = record {
  Schema = List (Text × Field);
  Datum = ℤ;
  Predicate = Expr;
  field_by_name = lookup;
  field_by_name_case_insensitive = lookup;
  name_by_field_id = λ schema z. none;
  as_f64 = λ n. none;
  as_f32 = λ x. x;
  of_bool = λ b. pos 0;
  of_integer = λ p z. z;
  of_float = λ p x. pos x;
  of_string = λ s. pos 0;
  of_bytes = λ p bytes. pos 0;
  from_str = λ p s. none;
  decimal_to = λ d p. none;
  parse_naive = λ s. none;
  parse_rfc3339 = λ s. none;
  always_true = always_true;
  always_false = always_false;
  both = conj;
  either = disj;
  negate = neg;
  unary = has_op;
  compare = compared;
  among = one_of;
}

-- A row is the numbers in its columns.
abbrev holds : Expr → (Text → ℤ) → Bool
holds always_true row = true
holds always_false row = false
holds (conj p q) row = holds p row && holds q row
holds (disj p q) row = holds p row || holds q row
holds (neg p) row = not (holds p row)
holds (has_op op name) row = false
holds (compared op name (pos n)) row = elim (row name) [ pos m ↦ m == n | negsuc m ↦ false ]
holds (compared op name (negsuc n)) row = elim (row name) [ pos m ↦ false | negsuc m ↦ m == n ]
holds (one_of op name ds) row = false

abbrev plain : Semantics tiny
plain = record {
  Row = Text → ℤ;
  eval = holds;
  eval-true = λ row. refl;
  eval-false = λ row. refl;
  eval-both = λ p q row. refl;
  eval-either = λ p q row. refl;
  eval-negate = λ p row. refl;
}

abbrev ones : Text → ℤ
ones name = pos 1

-- `{"type": "between"}`, and its negation: an operator of a later grammar.
abbrev between : Fields
between = entry (codes "type") (string (codes "between")) end

abbrev not_between : Fields
not_between =
    entry (codes "type") (string (codes "not")) (entry (codes "child") (object between) end)

-- `{"type": "eq", "term": "n", "value": 1}`
abbrev n_is_one : Fields
n_is_one = entry (codes "type") (string (codes "eq")) (
    entry (codes "term") (string (codes "n"))
      (entry (codes "value") (number (integer (pos 1))) end))

-- `{"type": "is-null", "term": "zz"}`
abbrev zz_is_null : Fields
zz_is_null =
    entry (codes "type") (string (codes "is-null")) (entry (codes "term") (string (codes "zz")) end)

not_between_parsed :
    parse_predicate tiny columns sensitive (object not_between) ≡ ok (neg always_false)
unfolding parse_predicate read_kind parse_kind
not_between_parsed = refl

not_between-Means : Means tiny columns sensitive plain ones (object not_between) true
unfolding read_kind
not_between-Means =
    negation not_between (object between) refl refl (unknown_operator between false refl)

parse_predicate_superset_example : holds (neg always_false) ones ≡ true
parse_predicate_superset_example =
    parse_predicate_superset tiny columns sensitive plain ones (object not_between) true
      (neg always_false) not_between_parsed not_between-Means refl

n_is_one_parsed :
    parse_policy_predicate tiny columns sensitive (object n_is_one)
    ≡ ok (compared eq (codes "n") (pos 1))
unfolding parse_policy_predicate read_kind parse_kind bind_leaf comparison_operand_of operand_of
    resolve field_named parse_literal
n_is_one_parsed = refl

parse_policy_predicate_exact_example :
    Means tiny columns sensitive plain ones (object n_is_one) true
    ↔ (true ≡ holds (compared eq (codes "n") (pos 1)) ones)
parse_policy_predicate_exact_example =
    parse_policy_predicate_exact tiny columns sensitive plain ones (object n_is_one) true
      (compared eq (codes "n") (pos 1)) n_is_one_parsed

validate_of_parse_policy_example : validate_policy_filter (object n_is_one) ≡ ok tt
validate_of_parse_policy_example =
    validate_of_parse_policy tiny columns sensitive (object n_is_one)
      (compared eq (codes "n") (pos 1)) n_is_one_parsed

zz_stored : validate_policy_filter (object zz_is_null) ≡ ok tt
unfolding validate_policy_filter read_kind validate_kind operand_of
zz_stored = refl

zz_refused : parse_policy_predicate tiny columns sensitive (object zz_is_null) ≡ err unknown_column
unfolding parse_policy_predicate read_kind parse_kind bind_leaf comparison_operand_of operand_of
    resolve field_named parse_literal
zz_refused = refl

stored_filter_faults_example : is_table_fault unknown_column ≡ true
stored_filter_faults_example =
    stored_filter_faults tiny columns sensitive (object zz_is_null) unknown_column zz_stored
      zz_refused

n_is_one_read :
    parse_with_polarity tiny columns sensitive true bindable (object n_is_one)
    ≡ ok (compared eq (codes "n") (pos 1))
unfolding parse_with_polarity read_kind parse_kind bind_leaf comparison_operand_of operand_of
    resolve field_named parse_literal
n_is_one_read = refl

parsed-IsOver_referenced_example :
    IsOver tiny
      (referenced_columns tiny columns (object n_is_one))
      (compared eq (codes "n") (pos 1))
parsed-IsOver_referenced_example =
    parsed-IsOver_referenced tiny columns sensitive true bindable (object n_is_one)
      (compared eq (codes "n") (pos 1)) n_is_one_read

from_hex-to_hex_example : from_hex (to_hex (0xca ∷ 0xfe ∷ [])) ≡ ok (0xca ∷ 0xfe ∷ [])
from_hex-to_hex_example = from_hex-to_hex (0xca ∷ 0xfe ∷ []) (omega arith, (omega arith, tt))

from_hex_aborts_example : from_hex (to_hex (0xca ∷ []) ++ codes "a€") ≡ err panic
from_hex_aborts_example =
    from_hex_aborts (0xca ∷ []) b'a' 0x20ac [] (omega arith, tt) refl (omega arith) refl

-- `{"type": "in", "term": "n", "values": true}`
abbrev n_in_true : Fields
n_in_true =
    entry (codes "type") (string (codes "in"))
      (entry (codes "term") (string (codes "n")) (entry (codes "values") (bool true) end))

no_array_accepted_example :
    (validate_policy_filter (object n_in_true) ≡ ok tt)
    × (parse_policy_predicate tiny columns sensitive (object n_in_true) ≢ ok always_true)
unfolding read_kind operand_of values_of is_bindable
no_array_accepted_example =
    no_array_accepted tiny columns sensitive n_in_true in_set (named (codes "n")) (bool true)
      values_not_array always_true refl refl refl refl refl

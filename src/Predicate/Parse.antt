-- ===== src/Predicate/Parse.antt =====
-- `parse_with_polarity` of src/predicate.rs and its two callers.
pub mod Steps
pub mod Meaning
pub mod Superset
pub mod Policy
pub mod Validated
pub mod Stored
pub mod Columns
pub mod Over
pub mod Unchecked
use rustberg.Common.{
  Text, codes, text_eq, Bool, true, false, not, Option, none, some, List, Result, ok, err, ok_or,
  ◌>>=◌, if◌then◌else◌,
}
use rustberg.Json.{Value, bool, object, Fields, end, entry, get}
use rustberg.Predicate.{
  Iceberg, UnaryOp, is_null, not_null, is_nan, not_nan, BinaryOp, SetOp, CaseSensitivity,
  Strictness, widening, bindable, Fault, not_an_expression, no_type, no_value, no_values,
  cannot_bind, not_floating, missing, Kind, constant, and_kind, or_kind, not_kind, unary_kind,
  binary_kind, set_kind, unknown, read_kind, child, Field, PrimitiveType, float, double, or_else,
  operand_of, comparison_operand_of, resolve, field_named, primitive_type,
}
use rustberg.Predicate.Literals.{parse_literal, parse_literals}

abbrev pub is_nan_op : UnaryOp → Bool
is_nan_op is_null = false
is_nan_op not_null = false
is_nan_op is_nan = true
is_nan_op not_nan = true

abbrev pub is_floating : PrimitiveType → Bool
is_floating float = true
is_floating double = true
is_floating _ = false

check_floating : UnaryOp → Field → Result (Unit {0}) Fault
unfolding primitive_type
check_floating op field =
    if is_nan_op op
    then (do p ← primitive_type field; if is_floating p then ok tt else err not_floating)
    else ok tt

module _ (ib : Iceberg) where
  unfoldable pub widen : Bool → Strictness → Result ib.Predicate Fault
  widen positive widening = ok (if positive then ib.always_true else ib.always_false)
  widen positive bindable = err cannot_bind

module _ (ib : Iceberg) (schema : ib.Schema) (case : CaseSensitivity) where
  bind_unary : UnaryOp → Text → Result ib.Predicate Fault
  unfolding check_floating
  bind_unary op name = do
    field ← field_named ib schema name case
    checked ← check_floating op field
    ok (ib.unary op name)

  bind_binary : BinaryOp → Fields → Text → Result ib.Predicate Fault
  unfolding get
  bind_binary op fs name = do
    field ← field_named ib schema name case
    value ← ok_or no_value (or_else (get fs (codes "right")) (get fs (codes "value")))
    datum ← parse_literal ib value field
    ok (ib.compare op name datum)

  bind_set : SetOp → Fields → Text → Result ib.Predicate Fault
  unfolding get
  bind_set op fs name = do
    field ← field_named ib schema name case
    values ← ok_or no_values (get fs (codes "values"))
    datums ← parse_literals ib values field
    ok (ib.among op name datums)

  -- The rest of an arm, for the name that its term resolves to, if to any.
  pub bound : (Text → Result ib.Predicate Fault) → Option Text → Result (Option ib.Predicate) Fault
  bound bind none = ok none
  bound bind (some name) = do p ← bind name; ok (some p)

  -- What a comparison, a set or a unary predicate binds to: nothing, if its term is no column.
  unfoldable pub bind_leaf : Kind → Fields → Result (Option ib.Predicate) Fault
  unfolding bound bind_unary bind_binary bind_set
  bind_leaf (unary_kind op) fs = do
    operand ← operand_of fs
    name ← resolve ib operand schema
    bound (bind_unary op) name
  bind_leaf (binary_kind op) fs = do
    operand ← comparison_operand_of fs
    name ← resolve ib operand schema
    bound (bind_binary op fs) name
  bind_leaf (set_kind op) fs = do
    operand ← operand_of fs
    name ← resolve ib operand schema
    bound (bind_set op fs) name
  bind_leaf _ fs = ok none

  unfoldable pub or_widen : Bool → Strictness → Option ib.Predicate → Result ib.Predicate Fault
  unfolding widen
  or_widen positive strictness none = widen ib positive strictness
  or_widen positive strictness (some p) = ok p

  -- One expression, `rec` parsing a named child under the given polarity.
  unfoldable pub parse_kind :
      (Bool → Text → Result ib.Predicate Fault)
      → Bool
      → Strictness
      → Fields
      → Kind
      → Result ib.Predicate Fault
  unfolding or_widen
  parse_kind rec positive strictness fs (constant b) =
      ok (if b then ib.always_true else ib.always_false)
  parse_kind rec positive strictness fs and_kind = do
    left ← rec positive (codes "left")
    right ← rec positive (codes "right")
    ok (ib.both left right)
  parse_kind rec positive strictness fs or_kind = do
    left ← rec positive (codes "left")
    right ← rec positive (codes "right")
    ok (ib.either left right)
  parse_kind rec positive strictness fs not_kind = do
    p ← rec (not positive) (codes "child")
    ok (ib.negate p)
  parse_kind rec positive strictness fs unknown = or_widen positive strictness none
  parse_kind rec positive strictness fs kind = do
    found ← bind_leaf kind fs
    or_widen positive strictness found

  unfoldable mutual
    pub parse_with_polarity : Bool → Strictness → Value → Result ib.Predicate Fault
    parse_with_polarity positive strictness (bool b) =
        ok (if b then ib.always_true else ib.always_false)
    parse_with_polarity positive strictness (object fs) = do
      kind ← ok_or no_type (read_kind fs)
      parse_kind (λ polarity name. parse_child polarity strictness fs name) positive strictness fs
          kind
    parse_with_polarity positive strictness _ = err not_an_expression

    -- `parse_with_polarity(child(object, name)?, …)`
    pub parse_child : Bool → Strictness → Fields → Text → Result ib.Predicate Fault
    parse_child positive strictness end name = err (missing name)
    parse_child positive strictness (entry k v fs) name = elim (text_eq k name) [
      | true ↦ parse_with_polarity positive strictness v
      | false ↦ parse_child positive strictness fs name
    ]

  unfoldable pub parse_predicate : Value → Result ib.Predicate Fault
  unfolding parse_with_polarity
  parse_predicate json = parse_with_polarity true widening json

  unfoldable pub parse_policy_predicate : Value → Result ib.Predicate Fault
  unfolding parse_with_polarity
  parse_policy_predicate json = parse_with_polarity true bindable json

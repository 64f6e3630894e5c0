-- ===== src/Predicate.antt =====
-- The JSON predicates of src/predicate.rs: what a filter means to a client and to a policy. The
-- schema, the literals and the predicates themselves are the Iceberg library's, and the texts of
-- times and timestamps are read by it and by chrono: `Iceberg` is what the code calls of them.
pub mod Literals
pub mod Parse
pub mod Validate
pub mod Columns
pub mod Hex
pub mod Examples
use rustberg.Common.{
  ℕ, ℤ, fits_i32, Text, codes, text_eq, Bool, true, false, Option, none, some, List, Result, ok,
  err, ok_or, ◌>>=◌, if◌then◌else◌,
}
use rustberg.Json.{Value, string, object, Fields, Number, get, get_str, as_i64}

-- `PrimitiveType`: precision and scale of a decimal, and the length of a fixed, are not read.
pub data PrimitiveType : Type 0 where
  boolean int long float double date time timestamp timestamptz : PrimitiveType
  timestamp_ns timestamptz_ns string_type uuid binary : PrimitiveType
  decimal : (precision scale : ℕ) → PrimitiveType
  fixed : (length : ℕ) → PrimitiveType

pub data FieldType : Type 0 where
  primitive : PrimitiveType → FieldType
  nested : FieldType

pub record Field : Type 0 where
  pub name : Text
  pub field_type : FieldType

pub data UnaryOp : Type 0 where
  is_null not_null is_nan not_nan : UnaryOp

pub data BinaryOp : Type 0 where
  lt lt_eq gt gt_eq eq not_eq starts_with not_starts_with : BinaryOp

pub data SetOp : Type 0 where
  in_set not_in : SetOp

-- The calls of the libraries `iceberg` and `chrono`. A number's `as_f64`, and the cast to `f32`, are
-- the compiler's.
pub record Iceberg : Type 1 where
  pub Schema : Type 0
  pub Datum : Type 0
  pub Predicate : Type 0
  pub field_by_name : Schema → Text → Option Field
  pub field_by_name_case_insensitive : Schema → Text → Option Field
  pub name_by_field_id : Schema → ℤ → Option Text
  pub as_f64 : Number → Option ℕ
  pub as_f32 : ℕ → ℕ
  pub of_bool : Bool → Datum
  pub of_integer : PrimitiveType → ℤ → Datum
  pub of_float : PrimitiveType → ℕ → Datum
  pub of_string : Text → Datum
  pub of_bytes : PrimitiveType → List ℕ → Datum
  -- `uuid_from_str`, `date_from_str`, and so on.
  pub from_str : PrimitiveType → Text → Option Datum
  pub decimal_to : Datum → PrimitiveType → Option Datum
  -- The parse of a date and time, and its nanoseconds if 64 bits hold them.
  pub parse_naive : Text → Option (Option ℤ)
  pub parse_rfc3339 : Text → Option (Option ℤ)
  pub always_true : Predicate
  pub always_false : Predicate
  pub both : Predicate → Predicate → Predicate
  pub either : Predicate → Predicate → Predicate
  pub negate : Predicate → Predicate
  pub unary : UnaryOp → Text → Predicate
  pub compare : BinaryOp → Text → Datum → Predicate
  pub among : SetOp → Text → List Datum → Predicate

pub data CaseSensitivity : Type 0 where
  sensitive insensitive : CaseSensitivity

unfoldable pub from_flag : Bool → CaseSensitivity
from_flag true = sensitive
from_flag false = insensitive

pub data Strictness : Type 0 where
  widening bindable : Strictness

-- The errors, all of one kind, by what they say, and the abort on a slice inside a character.
pub data Fault : Type 0 where
  not_an_expression no_type no_operand not_an_operand no_name_or_id id_out_of_range : Fault
  missing : Text → Fault
  no_value no_values values_not_array no_literal_value : Fault
  cannot_bind : Fault
  unknown_column unknown_field_id not_primitive not_floating wrong_literal odd_hex not_hex : Fault
  panic : Fault

-- The arms of the `match` on an expression's type.
pub data Kind : Type 0 where
  constant : Bool → Kind
  and_kind or_kind not_kind : Kind
  unary_kind : UnaryOp → Kind
  binary_kind : BinaryOp → Kind
  set_kind : SetOp → Kind
  unknown : Kind

unfoldable pub kind_of : Text → Kind
kind_of k =
    if text_eq k (codes "true")
    then constant true
    else if text_eq k (codes "false")
    then constant false
    else if text_eq k (codes "and")
    then and_kind
    else if text_eq k (codes "or")
    then or_kind
    else if text_eq k (codes "not")
    then not_kind
    else if text_eq k (codes "is-null")
    then unary_kind is_null
    else if text_eq k (codes "not-null")
    then unary_kind not_null
    else if text_eq k (codes "is-nan")
    then unary_kind is_nan
    else if text_eq k (codes "not-nan")
    then unary_kind not_nan
    else if text_eq k (codes "lt")
    then binary_kind lt
    else if text_eq k (codes "lt-eq")
    then binary_kind lt_eq
    else if text_eq k (codes "gt")
    then binary_kind gt
    else if text_eq k (codes "gt-eq")
    then binary_kind gt_eq
    else if text_eq k (codes "eq")
    then binary_kind eq
    else if text_eq k (codes "not-eq")
    then binary_kind not_eq
    else if text_eq k (codes "starts-with")
    then binary_kind starts_with
    else if text_eq k (codes "not-starts-with")
    then binary_kind not_starts_with
    else if text_eq k (codes "in")
    then set_kind in_set
    else if text_eq k (codes "not-in")
    then set_kind not_in
    else unknown

-- The kind of an expression object.
unfoldable pub read_kind : Fields → Option Kind
unfolding kind_of get_str
read_kind fs = elim (get_str fs (codes "type")) [ none ↦ none | some k ↦ some (kind_of k) ]

unfoldable pub child : Fields → Text → Result Value Fault
unfolding get
child fs name = ok_or (missing name) (get fs name)

pub data Operand : Type 0 where
  named : Text → Operand
  id : ℤ → Operand
  unbindable : Operand

abbrev pub or_else {ℓ} : {A : Type ℓ} → Option A → Option A → Option A
or_else (some a) _ = some a
or_else none other = other

id_operand : Option ℤ → Result Operand Fault
id_operand none = err no_name_or_id
id_operand (some z) = if fits_i32 z then ok (id z) else err id_out_of_range

object_operand : Fields → Result Operand Fault
unfolding get_str get id_operand
object_operand fs = elim (get_str fs (codes "type")) [
  | none ↦ err not_an_operand
  | some t ↦
      if text_eq t (codes "reference")
      then elim (get_str fs (codes "name")) [
        | some name ↦ ok (named name)
        | none ↦ elim (get fs (codes "id")) [
          | none ↦ err no_name_or_id
          | some v ↦ id_operand (as_i64 v)
        ]
      ]
      else if text_eq t (codes "transform")
      then ok unbindable
      else if text_eq t (codes "apply")
      then ok unbindable
      else err not_an_operand
]

unfoldable pub reference_operand : Value → Result Operand Fault
unfolding object_operand
reference_operand (string name) = ok (named name)
reference_operand (object fs) = object_operand fs
reference_operand _ = err not_an_operand

unfoldable pub operand_of : Fields → Result Operand Fault
unfolding reference_operand get
operand_of fs = do
  operand ← ok_or no_operand (or_else (get fs (codes "child")) (get fs (codes "term")))
  reference_operand operand

unfoldable pub comparison_operand_of : Fields → Result Operand Fault
unfolding reference_operand get
comparison_operand_of fs = do
  operand ← ok_or no_operand (or_else (get fs (codes "left")) (get fs (codes "term")))
  reference_operand operand

unfoldable pub is_bindable : Operand → Bool
is_bindable unbindable = false
is_bindable (named _) = true
is_bindable (id _) = true

module _ (ib : Iceberg) where
  -- `Operand::resolve`
  unfoldable pub resolve : Operand → ib.Schema → Result (Option Text) Fault
  resolve (named name) schema = ok (some name)
  resolve (id z) schema = elim (ib.name_by_field_id schema z) [
    | none ↦ err unknown_field_id
    | some name ↦ ok (some name)
  ]
  resolve unbindable schema = ok none

  unfoldable pub field_named : ib.Schema → Text → CaseSensitivity → Result Field Fault
  field_named schema name sensitive = ok_or unknown_column (ib.field_by_name schema name)
  field_named schema name insensitive =
      ok_or unknown_column (ib.field_by_name_case_insensitive schema name)

unfoldable pub primitive_type : Field → Result PrimitiveType Fault
primitive_type field = elim field.field_type [ primitive p ↦ ok p | nested ↦ err not_primitive ]

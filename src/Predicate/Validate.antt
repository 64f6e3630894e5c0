-- ===== src/Predicate/Validate.antt =====
-- `validate_policy_filter` of src/predicate.rs: what can be said of a policy's filter with no table.
pub mod Faults
use rustberg.Common.{
  Text, codes, text_eq, Bool, true, false, Option, none, some, Result, ok, err, ok_or, ◌>>=◌,
  if◌then◌else◌,
}
use rustberg.Json.{Value, bool, object, Fields, end, entry, get}
use rustberg.Predicate.{
  Fault, not_an_expression, no_type, missing, no_value, no_values, cannot_bind, Kind, constant,
  and_kind, or_kind, not_kind, unary_kind, binary_kind, set_kind, unknown, read_kind, Operand,
  or_else, operand_of, comparison_operand_of, is_bindable,
}

unfoldable pub bindable_operand : Operand → Result (Unit {0}) Fault
unfolding is_bindable
bindable_operand operand = if is_bindable operand then ok tt else err cannot_bind

-- `map(|_| ())`
abbrev pub present : Option Value → Option (Unit {0})
present none = none
present (some _) = some tt

-- One expression, `rec` checking a named child.
unfoldable pub validate_kind :
    (Text → Result (Unit {0}) Fault) → Fields → Kind → Result (Unit {0}) Fault
unfolding bindable_operand get
validate_kind rec fs (constant b) = ok tt
validate_kind rec fs and_kind = do left ← rec (codes "left"); rec (codes "right")
validate_kind rec fs or_kind = do left ← rec (codes "left"); rec (codes "right")
validate_kind rec fs not_kind = rec (codes "child")
validate_kind rec fs (unary_kind op) = do operand ← operand_of fs; bindable_operand operand
validate_kind rec fs (binary_kind op) = do
  operand ← comparison_operand_of fs
  bound ← bindable_operand operand
  ok_or no_value (present (or_else (get fs (codes "right")) (get fs (codes "value"))))
validate_kind rec fs (set_kind op) = do
  operand ← operand_of fs
  bound ← bindable_operand operand
  ok_or no_values (present (get fs (codes "values")))
validate_kind rec fs unknown = err cannot_bind

unfoldable mutual
  pub validate_policy_filter : Value → Result (Unit {0}) Fault
  validate_policy_filter (bool b) = ok tt
  validate_policy_filter (object fs) = do
    kind ← ok_or no_type (read_kind fs)
    validate_kind (λ name. validate_child fs name) fs kind
  validate_policy_filter _ = err not_an_expression

  -- `validate_policy_filter(child(object, name)?)`
  pub validate_child : Fields → Text → Result (Unit {0}) Fault
  validate_child end name = err (missing name)
  validate_child (entry k v fs) name = elim (text_eq k name) [
    | true ↦ validate_policy_filter v
    | false ↦ validate_child fs name
  ]

-- ===== src/Predicate/Parse/Unchecked.antt =====
-- Filters of src/predicate.rs that the policy store accepts and no table can use.
use rustberg.Common.{codes, true, some, ok, err, ok_or, >>=-eq-ok, ◌≡◌, ◌≢◌, refl, sym, ◌∙◌, arith}
use rustberg.Json.{Value, object, Fields, get}
use rustberg.Predicate.{
  Iceberg, CaseSensitivity, Fault, no_values, SetOp, set_kind, read_kind, Field, Operand,
  operand_of, is_bindable, bindable, field_named, primitive_type,
}
use rustberg.Predicate.Literals.{values_of, parse_literals}
use rustberg.Predicate.Parse.{bind_set, bind_leaf, parse_kind, parse_policy_predicate}
use rustberg.Predicate.Parse.Steps.{parse_of_kind}
use rustberg.Predicate.Parse.Validated.{term_bound}
use rustberg.Predicate.Validate.{bindable_operand, validate_kind, validate_policy_filter}

module _ (ib : Iceberg) (schema : ib.Schema) (case : CaseSensitivity) where
  no_literals :
      (v : Value) (field : Field) (e : Fault)
      → values_of v ≡ err e
      → (ds : _) → parse_literals ib v field ≢ ok ds
  unfolding parse_literals
  no_literals v field e h ds f =
      let (t, _, g) = >>=-eq-ok (primitive_type field) _ f in
      let (xs, k, _) = >>=-eq-ok (values_of v) _ g in absurd (ground arith)

  -- A set predicate over a term that binds, whose values are no array and hold none, passes the check
  -- of the policy store, and fails for every table.
  pub no_array_accepted :
      (fs : Fields) (op : SetOp) (operand : Operand) (v : Value) (e : Fault) (p : ib.Predicate)
      → read_kind fs ≡ some (set_kind op)
      → operand_of fs ≡ ok operand
      → is_bindable operand ≡ true
      → get fs (codes "values") ≡ some v
      → values_of v ≡ err e
      → (validate_policy_filter (object fs) ≡ ok tt)
        × (parse_policy_predicate ib schema case (object fs) ≢ ok p)
  unfolding validate_policy_filter validate_kind bindable_operand parse_policy_predicate parse_kind
      bind_leaf bind_set
  no_array_accepted fs op operand v e p k o b g n = (
    rw (k, o, b, g) refl,
    λ parsed.
        let (_, name, _, _, f) =
          term_bound ib schema case true (operand_of fs) (bind_set ib schema case op fs) p
            (sym (parse_of_kind ib schema case true bindable fs (set_kind op) k) ∙ parsed) in
        let (field, _, f1) = >>=-eq-ok (field_named ib schema name case) _ f in
        let (w, there, f2) = >>=-eq-ok (ok_or no_values (get fs (codes "values"))) _ f1 in
        let (ds, read, _) = >>=-eq-ok (parse_literals ib w field) _ f2 in
        let same : v ≡ w = ground arith in no_literals w field e (rw (← same) n) ds read,
  )

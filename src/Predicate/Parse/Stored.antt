-- ===== src/Predicate/Parse/Stored.antt =====
-- What the parse of a stored policy's filter can fail with, of src/predicate.rs.
use rustberg.Common.{
  Text, codes, text_eq, Bool, true, false, not, Bool-cases, Option-cases, inl, inr, Option, none,
  some, Result, ok, err, ok_or, ◌>>=◌, >>=-eq-ok, ◌≡◌, refl, sym, ◌∙◌, arith,
}
use rustberg.Json.{Value, null, bool, number, string, array, object, Fields, end, entry, get}
use rustberg.Predicate.{
  Iceberg, CaseSensitivity, bindable, Fault, no_value, no_values, Kind, constant, and_kind, or_kind,
  not_kind, unary_kind, binary_kind, set_kind, unknown, read_kind, UnaryOp, BinaryOp, SetOp, Field,
  Operand, named, id, unbindable, or_else, operand_of, comparison_operand_of, is_bindable, resolve,
  field_named, primitive_type,
}
use rustberg.Predicate.Literals.{parse_literal, parse_literals}
use rustberg.Predicate.Parse.{
  bind_unary, bind_binary, bind_set, bound, bind_leaf, or_widen, check_floating, parse_kind,
  parse_with_polarity, parse_child, parse_policy_predicate,
}
use rustberg.Predicate.Validate.{
  bindable_operand, present, validate_kind, validate_policy_filter, validate_child,
}
use rustberg.Predicate.Validate.Faults.{
  is_table_fault, IsTabular, IsTabular-ok_or, IsTabular->>=, parse_literal-IsTabular,
  parse_literals-IsTabular,
}

-- A child is checked as the first entry of its name.
checked_here :
    (k : Text) (v : Value) (fs : Fields) (name : Text)
    → text_eq k name ≡ true
    → validate_child (entry k v fs) name ≡ validate_policy_filter v
unfolding validate_policy_filter
checked_here k v fs name here = rw (validate_child, here) refl

checked_later :
    (k : Text) (v : Value) (fs : Fields) (name : Text)
    → text_eq k name ≡ false
    → validate_child (entry k v fs) name ≡ validate_child fs name
unfolding validate_policy_filter
checked_later k v fs name later = rw (validate_child, later) refl

module _ (ib : Iceberg) (schema : ib.Schema) (case : CaseSensitivity) where
  IsTabular-ok : (p : ib.Predicate) → IsTabular (ok p)
  IsTabular-ok p e h = absurd (ground arith)

  floating-IsTabular : (op : UnaryOp) (field : Field) → IsTabular (check_floating op field)
  unfolding check_floating primitive_type
  floating-IsTabular op field e h = ground arith

  field-IsTabular : (name : Text) → IsTabular (field_named ib schema name case)
  unfolding field_named
  field-IsTabular name e h = ground arith

  unary-IsTabular : (op : UnaryOp) (name : Text) → IsTabular (bind_unary ib schema case op name)
  unfolding bind_unary
  unary-IsTabular op name =
      IsTabular->>= (field_named ib schema name case) _ (field-IsTabular name) (λ field.
        IsTabular->>= (check_floating op field) _ (floating-IsTabular op field)
          (λ _. IsTabular-ok (ib.unary op name)))

  -- A value that is there is not what is missing.
  present-IsTabular :
      (e : Fault) (o : Option Value) → ok_or e (present o) ≡ ok tt → IsTabular (ok_or e o)
  present-IsTabular e none h f same = absurd (ground arith)
  present-IsTabular e (some v) h f same = absurd (ground arith)

  binary-IsTabular :
      (op : BinaryOp) (fs : Fields) (name : Text)
      → ok_or no_value (present (or_else (get fs (codes "right")) (get fs (codes "value")))) ≡ ok tt
      → IsTabular (bind_binary ib schema case op fs name)
  unfolding bind_binary
  binary-IsTabular op fs name h =
      IsTabular->>= (field_named ib schema name case) _ (field-IsTabular name) (λ field.
        IsTabular->>= (ok_or no_value (or_else (get fs (codes "right")) (get fs (codes "value")))) _
          (present-IsTabular no_value (or_else (get fs (codes "right")) (get fs (codes "value"))) h)
          (λ v.
            IsTabular->>= (parse_literal ib v field) _ (parse_literal-IsTabular ib v field)
              (λ d. IsTabular-ok (ib.compare op name d))))

  set-IsTabular :
      (op : SetOp) (fs : Fields) (name : Text) → IsTabular (bind_set ib schema case op fs name)
  unfolding bind_set
  set-IsTabular op fs name =
      IsTabular->>= (field_named ib schema name case) _ (field-IsTabular name) (λ field.
        IsTabular->>= (ok_or no_values (get fs (codes "values"))) _
          (IsTabular-ok_or no_values (get fs (codes "values")) refl)
          (λ v.
            IsTabular->>= (parse_literals ib v field) _ (parse_literals-IsTabular ib v field)
              (λ ds. IsTabular-ok (ib.among op name ds))))

  widened-IsTabular :
      (positive : Bool) (r : Result ib.Predicate Fault)
      → IsTabular r
      → IsTabular ((r >>= λ q. ok (some q)) >>= or_widen ib schema case positive bindable)
  unfolding or_widen
  widened-IsTabular positive (ok q) k e h = absurd (ground arith)
  widened-IsTabular positive (err f) k e h = k e (cc)

  term-IsTabular :
      (positive : Bool) (operand : Operand) (bind : Text → Result ib.Predicate Fault)
      → bindable_operand operand ≡ ok tt
      → ((name : Text) → IsTabular (bind name))
      → IsTabular (
          (resolve ib operand schema >>= λ name. bound ib schema case bind name)
          >>= or_widen ib schema case positive bindable)
  unfolding bound or_widen resolve bindable_operand is_bindable
  term-IsTabular positive (named n) bind h k = widened-IsTabular positive (bind n) (k n)
  term-IsTabular positive (id z) bind h k = λ e f.
      elim (Option-cases (ib.name_by_field_id schema z)) [
        | inl none' ↦ ground arith
        | inr (n, found) ↦ widened-IsTabular positive (bind n) (k n) e (ground arith)
      ]
  term-IsTabular positive unbindable bind h k = absurd (ground arith)

  kind-IsTabular :
      (positive : Bool) (fs : Fields) (k : Kind)
      → ((polarity : Bool) (name : Text)
          → validate_child fs name ≡ ok tt
          → IsTabular (parse_child ib schema case polarity bindable fs name))
      → validate_kind (λ name. validate_child fs name) fs k ≡ ok tt
      → IsTabular (
          parse_kind ib schema case
            (λ polarity name. parse_child ib schema case polarity bindable fs name)
            positive
            bindable
            fs
            k)
  unfolding parse_kind validate_kind bind_leaf
  kind-IsTabular positive fs (constant true) inner h = IsTabular-ok ib.always_true
  kind-IsTabular positive fs (constant false) inner h = IsTabular-ok ib.always_false
  kind-IsTabular positive fs and_kind inner h =
      let (_, left, right) = >>=-eq-ok (validate_child fs (codes "left")) _ h in
      IsTabular->>= (parse_child ib schema case positive bindable fs (codes "left")) _
        (inner positive (codes "left") left)
        (λ p.
          IsTabular->>= (parse_child ib schema case positive bindable fs (codes "right")) _
            (inner positive (codes "right") right) (λ q. IsTabular-ok (ib.both p q)))
  kind-IsTabular positive fs or_kind inner h =
      let (_, left, right) = >>=-eq-ok (validate_child fs (codes "left")) _ h in
      IsTabular->>= (parse_child ib schema case positive bindable fs (codes "left")) _
        (inner positive (codes "left") left)
        (λ p.
          IsTabular->>= (parse_child ib schema case positive bindable fs (codes "right")) _
            (inner positive (codes "right") right) (λ q. IsTabular-ok (ib.either p q)))
  kind-IsTabular positive fs not_kind inner h =
      IsTabular->>= (parse_child ib schema case (not positive) bindable fs (codes "child")) _
        (inner (not positive) (codes "child") h) (λ p. IsTabular-ok (ib.negate p))
  kind-IsTabular positive fs unknown inner h = λ e f. absurd (ground arith)
  kind-IsTabular positive fs (unary_kind op) inner h =
      let (operand, e, binds) = >>=-eq-ok (operand_of fs) _ h in
      rw e
        (term-IsTabular positive operand (bind_unary ib schema case op) binds (unary-IsTabular op))
  kind-IsTabular positive fs (binary_kind op) inner h =
      let (operand, e, g) = >>=-eq-ok (comparison_operand_of fs) _ h in
      let (_, binds, there) = >>=-eq-ok (bindable_operand operand) _ g in
      rw e (
        term-IsTabular positive operand (bind_binary ib schema case op fs) binds
          (λ name. binary-IsTabular op fs name there))
  kind-IsTabular positive fs (set_kind op) inner h =
      let (operand, e, g) = >>=-eq-ok (operand_of fs) _ h in
      let (_, binds, there) = >>=-eq-ok (bindable_operand operand) _ g in
      rw e (
        term-IsTabular positive operand (bind_set ib schema case op fs) binds (set-IsTabular op fs))

  mutual
    unfolding parse_with_polarity validate_policy_filter

    stored-IsTabular :
        (positive : Bool) (json : Value)
        → validate_policy_filter json ≡ ok tt
        → IsTabular (parse_with_polarity ib schema case positive bindable json)
    stored-IsTabular positive (bool true) h = IsTabular-ok ib.always_true
    stored-IsTabular positive (bool false) h = IsTabular-ok ib.always_false
    stored-IsTabular positive (object fs) h = elim (Option-cases (read_kind fs)) [
      | inl none' ↦ absurd (ground arith)
      | inr (k, found) ↦ rw found (
          kind-IsTabular positive fs k (λ polarity name ok'. child-IsTabular polarity fs name ok')
            (ground arith))
    ]
    stored-IsTabular positive null h = absurd (ground arith)
    stored-IsTabular positive (number n) h = absurd (ground arith)
    stored-IsTabular positive (string s) h = absurd (ground arith)
    stored-IsTabular positive (array xs) h = absurd (ground arith)

    child-IsTabular :
        (positive : Bool) (fs : Fields) (name : Text)
        → validate_child fs name ≡ ok tt
        → IsTabular (parse_child ib schema case positive bindable fs name)
    child-IsTabular positive end name h = absurd (ground arith)
    child-IsTabular positive (entry k v fs) name h = elim (Bool-cases (text_eq k name)) [
      | inl here ↦
          rw (parse_child, here)
            (stored-IsTabular positive v (sym (checked_here k v fs name here) ∙ h))
      | inr later ↦
          rw (parse_child, later)
            (child-IsTabular positive fs name (sym (checked_later k v fs name later) ∙ h))
    ]

  -- When a filter that the policy store has accepted does not parse for a table, then because of a
  -- column, a literal or a set of values: a column or a field id that the table has not, or of a type
  -- that the operator or any literal does not fit; a literal object without a value, a literal that is none of the
  -- column's type, or hex that is odd, no hex, or decoded with a panic; or values that are missing or
  -- no array. An operator, an operand, a child and the value of a comparison are all there, and the
  -- term and the operator bind.
  pub stored_filter_faults :
      (json : Value) (e : Fault)
      → validate_policy_filter json ≡ ok tt
      → parse_policy_predicate ib schema case json ≡ err e
      → is_table_fault e ≡ true
  unfolding parse_policy_predicate
  stored_filter_faults json e h f = stored-IsTabular true json h e f

-- ===== src/Predicate/Parse/Validated.antt =====
-- The check of a policy's filter when it is stored, and its parse when it is used, of
-- src/predicate.rs.
use rustberg.Common.{
  Text, codes, text_eq, Bool, true, not, Bool-cases, Option-cases, inl, inr, Option, some, Result,
  ok, err, ok_or, ◌>>=◌, >>=-eq-ok, ◌≡◌, refl, sym, ◌∙◌, arith,
}
use rustberg.Json.{Value, null, bool, number, string, array, object, Fields, end, entry, get}
use rustberg.Predicate.{
  Iceberg, CaseSensitivity, bindable, Fault, no_value, no_values, Kind, constant, and_kind, or_kind,
  not_kind, unary_kind, binary_kind, set_kind, unknown, read_kind, BinaryOp, SetOp, Operand, named,
  id, unbindable, or_else, operand_of, comparison_operand_of, is_bindable, resolve, field_named,
}
use rustberg.Predicate.Parse.{
  bind_unary, bind_binary, bind_set, bound, bind_leaf, or_widen, parse_kind, parse_with_polarity,
  parse_child, parse_policy_predicate,
}
use rustberg.Predicate.Parse.Steps.{parse_of_kind, both_children, child_here, child_later}
use rustberg.Predicate.Validate.{
  bindable_operand, present, validate_kind, validate_policy_filter, validate_child,
}

module _ (ib : Iceberg) (schema : ib.Schema) (case : CaseSensitivity) where
  bind_widened :
      (positive : Bool) (r : Result ib.Predicate Fault) (p : ib.Predicate)
      → ((r >>= λ q. ok (some q)) >>= or_widen ib schema case positive bindable) ≡ ok p
      → r ≡ ok p
  unfolding or_widen
  bind_widened positive (ok q) p h = h
  bind_widened positive (err e) p h = absurd (ground arith)

  -- A term whose predicate is bound is one that the check lets pass.
  pub term_bound :
      (positive : Bool) (term : Result Operand Fault) (bind : Text → Result ib.Predicate Fault)
      (p : ib.Predicate)
      → ((term >>= λ operand. resolve ib operand schema >>= λ name. bound ib schema case bind name)
          >>= or_widen ib schema case positive bindable)
        ≡ ok p
      → (operand : Operand) × (name : Text) × (term ≡ ok operand)
        × (bindable_operand operand ≡ ok tt)
        × (bind name ≡ ok p)
  unfolding bound or_widen resolve bindable_operand is_bindable
  term_bound positive (err e) bind p h = absurd (ground arith)
  term_bound positive (ok (named n)) bind p h =
      (named n, n, refl, refl, bind_widened positive (bind n) p h)
  term_bound positive (ok (id z)) bind p h = elim (Option-cases (ib.name_by_field_id schema z)) [
    | inl none' ↦ absurd (ground arith)
    | inr (n, found) ↦ (id z, n, refl, refl, bind_widened positive (bind n) p (ground arith))
  ]
  term_bound positive (ok unbindable) bind p h = absurd (ground arith)

  present_of_ok :
      (e : Fault) (o : Option Value) (v : Value) → ok_or e o ≡ ok v → ok_or e (present o) ≡ ok tt
  present_of_ok e o v h = ground arith

  -- What a predicate that binds has been given.
  binary_value :
      (op : BinaryOp) (fs : Fields) (name : Text) (p : ib.Predicate)
      → bind_binary ib schema case op fs name ≡ ok p
      → ok_or no_value (present (or_else (get fs (codes "right")) (get fs (codes "value")))) ≡ ok tt
  unfolding bind_binary
  binary_value op fs name p h =
      let (field, _, h1) = >>=-eq-ok (field_named ib schema name case) _ h in
      let (v, e, h2) =
        >>=-eq-ok (ok_or no_value (or_else (get fs (codes "right")) (get fs (codes "value")))) _
          h1 in
      present_of_ok no_value (or_else (get fs (codes "right")) (get fs (codes "value"))) v e

  set_values :
      (op : SetOp) (fs : Fields) (name : Text) (p : ib.Predicate)
      → bind_set ib schema case op fs name ≡ ok p
      → ok_or no_values (present (get fs (codes "values"))) ≡ ok tt
  unfolding bind_set
  set_values op fs name p h =
      let (field, _, h1) = >>=-eq-ok (field_named ib schema name case) _ h in
      let (v, e, h2) = >>=-eq-ok (ok_or no_values (get fs (codes "values"))) _ h1 in
      present_of_ok no_values (get fs (codes "values")) v e

  kind_validates :
      (positive : Bool) (fs : Fields) (k : Kind) (p : ib.Predicate)
      → ((polarity : Bool) (name : Text) (q : ib.Predicate)
          → parse_child ib schema case polarity bindable fs name ≡ ok q
          → validate_child fs name ≡ ok tt)
      → parse_kind ib schema case
          (λ polarity name. parse_child ib schema case polarity bindable fs name)
          positive
          bindable
          fs
          k
        ≡ ok p
      → validate_kind (λ name. validate_child fs name) fs k ≡ ok tt
  unfolding parse_kind validate_kind bind_leaf or_widen
  kind_validates positive fs (constant b) p inner h = refl
  kind_validates positive fs and_kind p inner h =
      let (pl, pr, el, er, _) = both_children ib schema case positive bindable fs ib.both p h in
      rw (inner positive (codes "left") pl el) (inner positive (codes "right") pr er)
  kind_validates positive fs or_kind p inner h =
      let (pl, pr, el, er, _) = both_children ib schema case positive bindable fs ib.either p h in
      rw (inner positive (codes "left") pl el) (inner positive (codes "right") pr er)
  kind_validates positive fs not_kind p inner h =
      let (q, e, _) =
        >>=-eq-ok (parse_child ib schema case (not positive) bindable fs (codes "child")) _ h in
      inner (not positive) (codes "child") q e
  kind_validates positive fs unknown p inner h = absurd (ground arith)
  kind_validates positive fs (unary_kind op) p inner h =
      let (operand, name, e, binds, _) =
        term_bound positive (operand_of fs) (bind_unary ib schema case op) p h in
      rw e binds
  kind_validates positive fs (binary_kind op) p inner h =
      let (operand, name, e, binds, f) =
        term_bound positive (comparison_operand_of fs) (bind_binary ib schema case op fs) p h in
      rw (e, binds) (binary_value op fs name p f)
  kind_validates positive fs (set_kind op) p inner h =
      let (operand, name, e, binds, f) =
        term_bound positive (operand_of fs) (bind_set ib schema case op fs) p h in
      rw (e, binds) (set_values op fs name p f)

  mutual
    unfolding parse_with_polarity validate_policy_filter

    validates :
        (positive : Bool) (json : Value) (p : ib.Predicate)
        → parse_with_polarity ib schema case positive bindable json ≡ ok p
        → validate_policy_filter json ≡ ok tt
    validates positive (bool b) p h = refl
    validates positive (object fs) p h = elim (Option-cases (read_kind fs)) [
      | inl none' ↦ absurd (ground arith)
      | inr (k, found) ↦ rw found (
          kind_validates positive fs k p (λ polarity name q f. child_validates polarity fs name q f)
            (sym (parse_of_kind ib schema case positive bindable fs k found) ∙ h))
    ]
    validates positive null p h = absurd (ground arith)
    validates positive (number n) p h = absurd (ground arith)
    validates positive (string s) p h = absurd (ground arith)
    validates positive (array xs) p h = absurd (ground arith)

    child_validates :
        (positive : Bool) (fs : Fields) (name : Text) (p : ib.Predicate)
        → parse_child ib schema case positive bindable fs name ≡ ok p
        → validate_child fs name ≡ ok tt
    child_validates positive end name p h = absurd (ground arith)
    child_validates positive (entry k v fs) name p h = elim (Bool-cases (text_eq k name)) [
      | inl here ↦
          rw (validate_child, here)
            (validates positive v p
              (sym (child_here ib schema case positive bindable k v fs name here) ∙ h))
      | inr later ↦
          rw (validate_child, later)
            (child_validates positive fs name p
              (sym (child_later ib schema case positive bindable k v fs name later) ∙ h))
    ]

  -- A filter that a policy can use with some table is one that the policy store accepts.
  pub validate_of_parse_policy :
      (json : Value) (p : ib.Predicate)
      → parse_policy_predicate ib schema case json ≡ ok p
      → validate_policy_filter json ≡ ok tt
  unfolding parse_policy_predicate
  validate_of_parse_policy json p h = validates true json p h

-- ===== src/Predicate/Parse/Policy.antt =====
-- A policy's filter of src/predicate.rs is never widened.
use mathlib.Core.Path.{subst}
use rustberg.Common.{
  text_eq, Bool-cases, Option-cases, Result-cases, inl, inr, >>=-eq-ok, ◌↔◌, Text, codes, Bool,
  true, false, not, ◌&&◌, ◌||◌, none, some, ok, ◌≡◌, refl, sym, ap, ◌∙◌, arith,
}
use rustberg.Json.{Value, null, bool, number, string, array, object, Fields, end, entry, get}
use rustberg.Predicate.{
  Iceberg, CaseSensitivity, Strictness, bindable, Kind, constant, and_kind, or_kind, not_kind,
  unary_kind, binary_kind, set_kind, unknown, read_kind,
}
use rustberg.Predicate.Parse.{
  bind_leaf, parse_kind, or_widen, widen, parse_with_polarity, parse_child, parse_policy_predicate,
}
use rustberg.Predicate.Parse.Meaning.{
  Semantics, Means, literal, constantly, conjunction, disjunction, negation, bound_term,
  unbound_term, unknown_operator,
}
use rustberg.Predicate.Parse.Steps.{
  IsLeaf, leaf_failed, both_children, parse_of_kind, parse_of_leaf, and_parts, or_parts, not_parts,
}

module _ (ib : Iceberg) (schema : ib.Schema) (case : CaseSensitivity) (m : Semantics ib)
    (row : m.Row) where
  parse-exact :
      (positive : Bool) {json : Value} {b : Bool} (p : ib.Predicate)
      → Means ib schema case m row json b
      → parse_with_polarity ib schema case positive bindable json ≡ ok p
      → b ≡ m.eval p row
  unfolding parse_with_polarity parse_kind or_widen widen
  parse-exact positive p (literal true) e = sym (m.eval-true row) ∙ ap (λ q. m.eval q row) (cc)
  parse-exact positive p (literal false) e = sym (m.eval-false row) ∙ ap (λ q. m.eval q row) (cc)
  parse-exact positive p (constantly fs true k) e =
      let f = sym (parse_of_kind ib schema case positive bindable fs (constant true) k) ∙ e in
      sym (m.eval-true row) ∙ ap (λ q. m.eval q row) (cc)
  parse-exact positive p (constantly fs false k) e =
      let f = sym (parse_of_kind ib schema case positive bindable fs (constant false) k) ∙ e in
      sym (m.eval-false row) ∙ ap (λ q. m.eval q row) (cc)
  parse-exact positive p (conjunction fs l r k gl gr ml mr) e =
      let (pl, pr, el, er, join) = and_parts ib schema case positive bindable fs l r p k gl gr e in
      rw (join, m.eval-both pl pr row, parse-exact positive pl ml el, parse-exact positive pr mr er)
        refl
  parse-exact positive p (disjunction fs l r k gl gr ml mr) e =
      let (pl, pr, el, er, join) = or_parts ib schema case positive bindable fs l r p k gl gr e in
      rw
        (
          join,
          m.eval-either pl pr row,
          parse-exact positive pl ml el,
          parse-exact positive pr mr er,
        )
        refl
  parse-exact positive p (negation fs c k gc mc) e =
      let (q, eq, neg) = not_parts ib schema case positive bindable fs c p k gc e in
      rw (neg, m.eval-negate q row, parse-exact (not positive) q mc eq) refl
  parse-exact positive p (bound_term fs kind q k leaf found) e =
      let f =
        sym (parse_of_leaf ib schema case positive bindable fs kind (some q) k leaf found) ∙ e in
      let same : q ≡ p = cc in ap (λ x. m.eval x row) same
  parse-exact positive p (unbound_term fs kind b k leaf found) e =
      let f = sym (parse_of_leaf ib schema case positive bindable fs kind none k leaf found) ∙ e in
      absurd (ground arith)
  parse-exact positive p (unknown_operator fs b k) e =
      let f = sym (parse_of_kind ib schema case positive bindable fs unknown k) ∙ e in
      absurd (ground arith)

  -- A named child that means something.
  abbrev HasMeaning : Fields → Text → Type 0
  HasMeaning fs name =
      (v : Value) × (b : Bool) × (get fs name ≡ some v) × Means ib schema case m row v b

  leaf_meaning :
      (positive : Bool) (strictness : Strictness) (fs : Fields) (k : Kind) (p : ib.Predicate)
      → read_kind fs ≡ some k
      → IsLeaf k
      → parse_with_polarity ib schema case positive strictness (object fs) ≡ ok p
      → (b : Bool) × Means ib schema case m row (object fs) b
  leaf_meaning positive strictness fs k p e leaf parsed =
      elim (Result-cases (bind_leaf ib schema case k fs)) [
        | inl (some q, found) ↦ (m.eval q row, bound_term fs k q e leaf found)
        | inl (none, found) ↦ (true, unbound_term fs k true e leaf found)
        | inr (fault, failed) ↦
            absurd
              (leaf_failed ib schema case positive strictness fs k p fault e leaf failed parsed)
      ]

  kind_meaning :
      (positive : Bool) (strictness : Strictness) (fs : Fields) (k : Kind) (p : ib.Predicate)
      → ((polarity : Bool) (name : Text) (q : ib.Predicate)
          → parse_child ib schema case polarity strictness fs name ≡ ok q
          → HasMeaning fs name)
      → read_kind fs ≡ some k
      → parse_with_polarity ib schema case positive strictness (object fs) ≡ ok p
      → (b : Bool) × Means ib schema case m row (object fs) b
  unfolding parse_kind
  kind_meaning positive strictness fs (constant b) p inner e parsed = (b, constantly fs b e)
  kind_meaning positive strictness fs and_kind p inner e parsed =
      let (pl, pr, el, er, _) =
        both_children ib schema case positive strictness fs ib.both p
          (sym (parse_of_kind ib schema case positive strictness fs and_kind e) ∙ parsed) in
      let (l, a, gl, ml) = inner positive (codes "left") pl el in
      let (r, b, gr, mr) = inner positive (codes "right") pr er in
      (a && b, conjunction fs l r e gl gr ml mr)
  kind_meaning positive strictness fs or_kind p inner e parsed =
      let (pl, pr, el, er, _) =
        both_children ib schema case positive strictness fs ib.either p
          (sym (parse_of_kind ib schema case positive strictness fs or_kind e) ∙ parsed) in
      let (l, a, gl, ml) = inner positive (codes "left") pl el in
      let (r, b, gr, mr) = inner positive (codes "right") pr er in
      (a || b, disjunction fs l r e gl gr ml mr)
  kind_meaning positive strictness fs not_kind p inner e parsed =
      let (q, eq, _) =
        >>=-eq-ok (parse_child ib schema case (not positive) strictness fs (codes "child")) _
          (sym (parse_of_kind ib schema case positive strictness fs not_kind e) ∙ parsed) in
      let (c, a, gc, mc) = inner (not positive) (codes "child") q eq in
      (not a, negation fs c e gc mc)
  kind_meaning positive strictness fs unknown p inner e parsed = (true, unknown_operator fs true e)
  kind_meaning positive strictness fs (unary_kind op) p inner e parsed =
      leaf_meaning positive strictness fs (unary_kind op) p e tt parsed
  kind_meaning positive strictness fs (binary_kind op) p inner e parsed =
      leaf_meaning positive strictness fs (binary_kind op) p e tt parsed
  kind_meaning positive strictness fs (set_kind op) p inner e parsed =
      leaf_meaning positive strictness fs (set_kind op) p e tt parsed

  mutual
    unfolding parse_with_polarity get

    meaning :
        (positive : Bool) (strictness : Strictness) (json : Value) (p : ib.Predicate)
        → parse_with_polarity ib schema case positive strictness json ≡ ok p
        → (b : Bool) × Means ib schema case m row json b
    meaning positive strictness (bool b) p e = (b, literal b)
    meaning positive strictness (object fs) p e = elim (Option-cases (read_kind fs)) [
      | inl none' ↦ absurd (ground arith)
      | inr (k, found) ↦
          kind_meaning positive strictness fs k p
            (λ polarity name q f. child_meaning polarity strictness fs name q f) found e
    ]
    meaning positive strictness null p e = absurd (ground arith)
    meaning positive strictness (number n) p e = absurd (ground arith)
    meaning positive strictness (string s) p e = absurd (ground arith)
    meaning positive strictness (array xs) p e = absurd (ground arith)

    child_meaning :
        (positive : Bool) (strictness : Strictness) (fs : Fields) (name : Text) (p : ib.Predicate)
        → parse_child ib schema case positive strictness fs name ≡ ok p
        → HasMeaning fs name
    child_meaning positive strictness end name p e = absurd (ground arith)
    child_meaning positive strictness (entry k v fs) name p e = elim (Bool-cases (text_eq k name)) [
      | inl here ↦
          let (b, means) = meaning positive strictness v p (
            subst
              (λ t.
                elim t [
                  | true ↦ parse_with_polarity ib schema case positive strictness v
                  | false ↦ parse_child ib schema case positive strictness fs name
                ]
                ≡ ok p)
              here e) in
          rw here (v, b, refl, means)
      | inr later ↦
          let (w, b, g, means) = child_meaning positive strictness fs name p (
            subst
              (λ t.
                elim t [
                  | true ↦ parse_with_polarity ib schema case positive strictness v
                  | false ↦ parse_child ib schema case positive strictness fs name
                ]
                ≡ ok p)
              later e) in
          rw later (w, b, g, means)
    ]

  -- A policy's filter that parses means one thing, and exactly what it parses to: whatever the terms
  -- and operators that do not bind may stand for, the parsed predicate is true of just the rows of
  -- which the filter is.
  pub parse_policy_predicate_exact :
      (json : Value) (b : Bool) (p : ib.Predicate)
      → parse_policy_predicate ib schema case json ≡ ok p
      → Means ib schema case m row json b ↔ (b ≡ m.eval p row)
  unfolding parse_policy_predicate
  parse_policy_predicate_exact json b p e = (
    λ means. parse-exact true p means e,
    λ same.
        let (c, means) = meaning true bindable json p e in
        subst (Means ib schema case m row json) (parse-exact true p means e ∙ sym same) means,
  )

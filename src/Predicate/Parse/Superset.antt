-- ===== src/Predicate/Parse/Superset.antt =====
-- A client's filter of src/predicate.rs never selects too little.
use rustberg.Common.{Bool, true, false, not, ◌&&◌, ◌||◌, none, some, ok, ◌≡◌, sym, ap, ◌∙◌, arith}
use rustberg.Json.{Value}
use rustberg.Predicate.{Iceberg, CaseSensitivity, widening, constant, unknown}
use rustberg.Predicate.Parse.{parse_kind, or_widen, widen, parse_with_polarity, parse_predicate}
use rustberg.Predicate.Parse.Meaning.{
  Semantics, Means, literal, constantly, conjunction, disjunction, negation, bound_term,
  unbound_term, unknown_operator,
}
use rustberg.Predicate.Parse.Steps.{parse_of_kind, parse_of_leaf, and_parts, or_parts, not_parts}

-- How a parsed value covers what is meant: from above under an even number of negations, from below
-- under an odd one.
abbrev pub Covers : Bool → Bool → Bool → Type 0
Covers true meant parsed = meant ≡ true → parsed ≡ true
Covers false meant parsed = parsed ≡ true → meant ≡ true

Covers-of_same : (positive : Bool) (a b : Bool) → a ≡ b → Covers positive a b
Covers-of_same true a b e = λ h. sym e ∙ h
Covers-of_same false a b e = λ h. e ∙ h

Covers-and :
    (positive : Bool) (a b c d : Bool)
    → Covers positive a c
    → Covers positive b d
    → Covers positive (a && b) (c && d)
Covers-and true a b c d h k = λ e. ground (arith, h, k)
Covers-and false a b c d h k = λ e. ground (arith, h, k)

Covers-or :
    (positive : Bool) (a b c d : Bool)
    → Covers positive a c
    → Covers positive b d
    → Covers positive (a || b) (c || d)
Covers-or true a b c d h k = λ e. ground (arith, h, k)
Covers-or false a b c d h k = λ e. ground (arith, h, k)

Covers-not :
    (positive : Bool) (a b : Bool) → Covers (not positive) a b → Covers positive (not a) (not b)
Covers-not true a b h = λ e. ground (arith, h)
Covers-not false a b h = λ e. ground (arith, h)

module _ (ib : Iceberg) (schema : ib.Schema) (case : CaseSensitivity) (m : Semantics ib)
    (row : m.Row) where
  widened-Covers :
      (positive : Bool) (b : Bool) (p : ib.Predicate)
      → or_widen ib schema case positive widening none ≡ ok p
      → Covers positive b (m.eval p row)
  unfolding or_widen widen
  widened-Covers true b p e =
      λ _. let same : ib.always_true ≡ p = cc in rw (← same) (m.eval-true row)
  widened-Covers false b p e = λ h.
      let same : ib.always_false ≡ p = cc in
      let never : m.eval p row ≡ false = rw (← same) (m.eval-false row) in absurd (ground arith)

  parse-Covers :
      (positive : Bool) {json : Value} {b : Bool} (p : ib.Predicate)
      → Means ib schema case m row json b
      → parse_with_polarity ib schema case positive widening json ≡ ok p
      → Covers positive b (m.eval p row)
  unfolding parse_with_polarity parse_kind or_widen
  parse-Covers positive p (literal true) e =
      Covers-of_same positive true (m.eval p row)
        (sym (m.eval-true row) ∙ ap (λ q. m.eval q row) (cc))
  parse-Covers positive p (literal false) e =
      Covers-of_same positive false (m.eval p row)
        (sym (m.eval-false row) ∙ ap (λ q. m.eval q row) (cc))
  parse-Covers positive p (constantly fs true k) e =
      let f = sym (parse_of_kind ib schema case positive widening fs (constant true) k) ∙ e in
      Covers-of_same positive true (m.eval p row)
        (sym (m.eval-true row) ∙ ap (λ q. m.eval q row) (cc))
  parse-Covers positive p (constantly fs false k) e =
      let f = sym (parse_of_kind ib schema case positive widening fs (constant false) k) ∙ e in
      Covers-of_same positive false (m.eval p row)
        (sym (m.eval-false row) ∙ ap (λ q. m.eval q row) (cc))
  parse-Covers positive p (conjunction fs l r {a} {b} k gl gr ml mr) e =
      let (pl, pr, el, er, join) = and_parts ib schema case positive widening fs l r p k gl gr e in
      rw (join, m.eval-both pl pr row)
        (Covers-and positive a b (m.eval pl row) (m.eval pr row) (parse-Covers positive pl ml el)
          (parse-Covers positive pr mr er))
  parse-Covers positive p (disjunction fs l r {a} {b} k gl gr ml mr) e =
      let (pl, pr, el, er, join) = or_parts ib schema case positive widening fs l r p k gl gr e in
      rw (join, m.eval-either pl pr row)
        (Covers-or positive a b (m.eval pl row) (m.eval pr row) (parse-Covers positive pl ml el)
          (parse-Covers positive pr mr er))
  parse-Covers positive p (negation fs c {a} k gc mc) e =
      let (q, eq, neg) = not_parts ib schema case positive widening fs c p k gc e in
      rw (neg, m.eval-negate q row)
        (Covers-not positive a (m.eval q row) (parse-Covers (not positive) q mc eq))
  parse-Covers positive p (bound_term fs kind q k leaf found) e =
      let f =
        sym (parse_of_leaf ib schema case positive widening fs kind (some q) k leaf found) ∙ e in
      let same : q ≡ p = cc in
      Covers-of_same positive (m.eval q row) (m.eval p row) (ap (λ x. m.eval x row) same)
  parse-Covers positive p (unbound_term fs kind b k leaf found) e =
      widened-Covers positive b p
        (sym (parse_of_leaf ib schema case positive widening fs kind none k leaf found) ∙ e)
  parse-Covers positive p (unknown_operator fs b k) e =
      widened-Covers positive b p
        (sym (parse_of_kind ib schema case positive widening fs unknown k) ∙ e)

  -- A client's filter selects every row that it may mean: whatever the terms and operators that do
  -- not bind stand for, a row of which the filter is true is one of which the parsed predicate is.
  pub parse_predicate_superset :
      (json : Value) (b : Bool) (p : ib.Predicate)
      → parse_predicate ib schema case json ≡ ok p
      → Means ib schema case m row json b
      → b ≡ true
      → m.eval p row ≡ true
  unfolding parse_predicate
  parse_predicate_superset json b p e means = parse-Covers true p means e

-- ===== src/Predicate/Parse/Over.antt =====
-- A parsed filter of src/predicate.rs is over the columns that `referenced_columns` reports.
use mathlib.Core.Path.{subst}
use rustberg.Common.{
  IsIn, Text, codes, text_eq, Bool, true, false, not, Bool-cases, Option-cases, Result-cases, inl,
  inr, Option, none, some, List, [], Result, ok, err, ok_or, ◌>>=◌, >>=-eq-ok, ◌≡◌, refl, ap, sym,
  ◌∙◌, arith,
}
use rustberg.Json.{Value, null, bool, number, string, array, object, Fields, end, entry, get}
use rustberg.Predicate.{
  Iceberg, CaseSensitivity, Strictness, widening, bindable, UnaryOp, BinaryOp, SetOp, Kind,
  constant, and_kind, or_kind, not_kind, unary_kind, binary_kind, set_kind, unknown, read_kind,
  Operand, operand_of, comparison_operand_of, resolve, Fault, field_named, no_value, no_values,
  or_else,
}
use rustberg.Predicate.Columns.{collect_kind, collect_columns, collect_child, referenced_columns}
use rustberg.Predicate.Literals.{parse_literal, parse_literals}
use rustberg.Predicate.Parse.{
  bind_leaf, bound, bind_unary, bind_binary, bind_set, check_floating, or_widen, widen, parse_kind,
  parse_with_polarity, parse_child,
}
use rustberg.Predicate.Parse.Steps.{parse_of_kind, both_children, child_here, child_later}
use rustberg.Predicate.Parse.Columns.{
  IsOver, always, never, conjunction, disjunction, negation, unary_term, comparison, membership,
  IsOver-mono, term-IsIn, comparison-IsIn, child-keeps,
}

module _ (ib : Iceberg) (schema : ib.Schema) (case : CaseSensitivity) where
  built :
      (names : List Text) (q p : ib.Predicate)
      → IsOver ib names q
      → ◌≡◌ {A = Result ib.Predicate Fault} (ok q) (ok p)
      → IsOver ib names p
  built names q p over h = let same : q ≡ p = cc in subst (IsOver ib names) same over

  -- A term that binds has a name.
  term_name :
      (term : Result Operand Fault) (bind : Text → Result ib.Predicate Fault) (p : ib.Predicate)
      → (term >>= λ operand. resolve ib operand schema >>= λ name. bound ib schema case bind name)
        ≡ ok (some p)
      → (operand : Operand) × (name : Text) × (term ≡ ok operand)
        × (resolve ib operand schema ≡ ok (some name))
        × (bind name ≡ ok p)
  unfolding bound
  term_name (err e) bind p h = absurd (ground arith)
  term_name (ok operand) bind p h = elim (Result-cases (resolve ib operand schema)) [
    | inr (_, e) ↦ absurd (ground arith)
    | inl (none, e) ↦ absurd (ground arith)
    | inl (some name, e) ↦ (operand, name, refl, e, ground arith)
  ]

  or_widen-IsOver :
      (positive : Bool) (strictness : Strictness) (found : Option ib.Predicate) (names : List Text)
      (p : ib.Predicate)
      → ((q : ib.Predicate) → found ≡ some q → IsOver ib names q)
      → or_widen ib schema case positive strictness found ≡ ok p
      → IsOver ib names p
  unfolding or_widen widen
  or_widen-IsOver positive strictness (some q) names p k h = k p (ground arith)
  or_widen-IsOver true widening none names p k h = built names ib.always_true p always h
  or_widen-IsOver false widening none names p k h = built names ib.always_false p never h
  or_widen-IsOver positive bindable none names p k h = absurd (ground arith)

  unary-IsOver :
      (op : UnaryOp) (name : Text) (names : List Text) (p : ib.Predicate)
      → IsIn name names
      → bind_unary ib schema case op name ≡ ok p
      → IsOver ib names p
  unfolding bind_unary
  unary-IsOver op name names p i h =
      let (field, _, h1) = >>=-eq-ok (field_named ib schema name case) _ h in
      let (_, _, h2) = >>=-eq-ok (check_floating op field) _ h1 in
      built names (ib.unary op name) p (unary_term op name i) h2

  binary-IsOver :
      (op : BinaryOp) (fs : Fields) (name : Text) (names : List Text) (p : ib.Predicate)
      → IsIn name names
      → bind_binary ib schema case op fs name ≡ ok p
      → IsOver ib names p
  unfolding bind_binary
  binary-IsOver op fs name names p i h =
      let (field, _, h1) = >>=-eq-ok (field_named ib schema name case) _ h in
      let (v, _, h2) =
        >>=-eq-ok (ok_or no_value (or_else (get fs (codes "right")) (get fs (codes "value")))) _
          h1 in
      let (d, _, h3) = >>=-eq-ok (parse_literal ib v field) _ h2 in
      built names (ib.compare op name d) p (comparison op name d i) h3

  set-IsOver :
      (op : SetOp) (fs : Fields) (name : Text) (names : List Text) (p : ib.Predicate)
      → IsIn name names
      → bind_set ib schema case op fs name ≡ ok p
      → IsOver ib names p
  unfolding bind_set
  set-IsOver op fs name names p i h =
      let (field, _, h1) = >>=-eq-ok (field_named ib schema name case) _ h in
      let (v, _, h2) = >>=-eq-ok (ok_or no_values (get fs (codes "values"))) _ h1 in
      let (ds, _, h3) = >>=-eq-ok (parse_literals ib v field) _ h2 in
      built names (ib.among op name ds) p (membership op name ds i) h3

  kind-IsOver :
      (positive : Bool) (strictness : Strictness) (fs : Fields) (k : Kind) (names : List Text)
      (p : ib.Predicate)
      → ((polarity : Bool) (name : Text) (found : List Text) (q : ib.Predicate)
          → parse_child ib schema case polarity strictness fs name ≡ ok q
          → IsOver ib (collect_child ib schema fs name found) q)
      → parse_kind ib schema case
          (λ polarity name. parse_child ib schema case polarity strictness fs name)
          positive
          strictness
          fs
          k
        ≡ ok p
      → IsOver ib
          (collect_kind ib schema
            (λ name found. collect_child ib schema fs name found)
            fs
            (some k)
            names)
          p
  unfolding parse_kind collect_kind bind_leaf
  kind-IsOver positive strictness fs (constant true) names p rec h =
      built _ ib.always_true p always h
  kind-IsOver positive strictness fs (constant false) names p rec h =
      built _ ib.always_false p never h
  kind-IsOver positive strictness fs and_kind names p rec h =
      let (pl, pr, el, er, e) = both_children ib schema case positive strictness fs ib.both p h in
      rw e (
        conjunction
          (IsOver-mono ib (λ c i. child-keeps ib schema c fs (codes "right") _ i)
            (rec positive (codes "left") names pl el))
          (rec positive (codes "right") _ pr er))
  kind-IsOver positive strictness fs or_kind names p rec h =
      let (pl, pr, el, er, e) = both_children ib schema case positive strictness fs ib.either p h in
      rw e (
        disjunction
          (IsOver-mono ib (λ c i. child-keeps ib schema c fs (codes "right") _ i)
            (rec positive (codes "left") names pl el))
          (rec positive (codes "right") _ pr er))
  kind-IsOver positive strictness fs not_kind names p rec h =
      let (q, e, f) =
        >>=-eq-ok (parse_child ib schema case (not positive) strictness fs (codes "child")) _ h in
      built _ (ib.negate q) p (negation (rec (not positive) (codes "child") names q e)) f
  kind-IsOver positive strictness fs unknown names p rec h =
      or_widen-IsOver positive strictness none _ p (λ q f. absurd (ground arith)) h
  kind-IsOver positive strictness fs (unary_kind op) names p rec h =
      let (found, b, w) = >>=-eq-ok (bind_leaf ib schema case (unary_kind op) fs) _ h in
      or_widen-IsOver positive strictness found _ p
        (λ q f.
          let (operand, name, e, r, g) =
            term_name (operand_of fs) (bind_unary ib schema case op) q (b ∙ ap ok f) in
          unary-IsOver op name _ q (term-IsIn ib schema fs operand name names e r) g)
        w
  kind-IsOver positive strictness fs (binary_kind op) names p rec h =
      let (found, b, w) = >>=-eq-ok (bind_leaf ib schema case (binary_kind op) fs) _ h in
      or_widen-IsOver positive strictness found _ p
        (λ q f.
          let (operand, name, e, r, g) =
            term_name (comparison_operand_of fs) (bind_binary ib schema case op fs) q
              (b ∙ ap ok f) in
          binary-IsOver op fs name _ q (comparison-IsIn ib schema fs operand name names e r) g)
        w
  kind-IsOver positive strictness fs (set_kind op) names p rec h =
      let (found, b, w) = >>=-eq-ok (bind_leaf ib schema case (set_kind op) fs) _ h in
      or_widen-IsOver positive strictness found _ p
        (λ q f.
          let (operand, name, e, r, g) =
            term_name (operand_of fs) (bind_set ib schema case op fs) q (b ∙ ap ok f) in
          set-IsOver op fs name _ q (term-IsIn ib schema fs operand name names e r) g)
        w

  mutual
    unfolding parse_with_polarity collect_columns

    parse-IsOver :
        (positive : Bool) (strictness : Strictness) (json : Value) (names : List Text)
        (p : ib.Predicate)
        → parse_with_polarity ib schema case positive strictness json ≡ ok p
        → IsOver ib (collect_columns ib schema json names) p
    parse-IsOver positive strictness (bool true) names p h = built _ ib.always_true p always h
    parse-IsOver positive strictness (bool false) names p h = built _ ib.always_false p never h
    parse-IsOver positive strictness (object fs) names p h = elim (Option-cases (read_kind fs)) [
      | inl none' ↦ absurd (ground arith)
      | inr (k, e) ↦ rw e (
          kind-IsOver positive strictness fs k names p
            (λ polarity name found q f. child-IsOver polarity strictness fs name found q f)
            (sym (parse_of_kind ib schema case positive strictness fs k e) ∙ h))
    ]
    parse-IsOver positive strictness null names p h = absurd (ground arith)
    parse-IsOver positive strictness (number n) names p h = absurd (ground arith)
    parse-IsOver positive strictness (string s) names p h = absurd (ground arith)
    parse-IsOver positive strictness (array xs) names p h = absurd (ground arith)

    child-IsOver :
        (positive : Bool) (strictness : Strictness) (fs : Fields) (name : Text) (names : List Text)
        (p : ib.Predicate)
        → parse_child ib schema case positive strictness fs name ≡ ok p
        → IsOver ib (collect_child ib schema fs name names) p
    child-IsOver positive strictness end name names p h = absurd (ground arith)
    child-IsOver positive strictness (entry k v fs) name names p h =
        elim (Bool-cases (text_eq k name)) [
          | inl here ↦
              rw (collect_child, here)
                (parse-IsOver positive strictness v names p
                  (sym (child_here ib schema case positive strictness k v fs name here) ∙ h))
          | inr later ↦
              rw (collect_child, later)
                (child-IsOver positive strictness fs name names p
                  (sym (child_later ib schema case positive strictness k v fs name later) ∙ h))
        ]

  -- Whatever a filter parses to, by either entry point and under either case rule, is built from the
  -- constants, the connectives and terms over the columns that `referenced_columns` reports of it.
  pub parsed-IsOver_referenced :
      (positive : Bool) (strictness : Strictness) (json : Value) (p : ib.Predicate)
      → parse_with_polarity ib schema case positive strictness json ≡ ok p
      → IsOver ib (referenced_columns ib schema json) p
  unfolding referenced_columns
  parsed-IsOver_referenced positive strictness json p h =
      parse-IsOver positive strictness json [] p h

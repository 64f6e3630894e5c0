-- ===== src/Predicate/Parse/Columns.antt =====
-- The columns that a parsed filter of src/predicate.rs reads are those that it names.
use rustberg.Common.{
  IsIn, Text, codes, text_eq, text_ltb, text_eq_iff, Bool-cases, Option-cases, inl, inr, Option,
  none, some, List, [], ◌∷◌, Result, ok, err, ◌>>=◌, ◌≡◌, refl, arith,
}
use rustberg.Json.{Value, null, bool, number, string, array, object, Fields, end, entry, get}
use rustberg.Predicate.{
  Iceberg, UnaryOp, BinaryOp, SetOp, Kind, constant, and_kind, or_kind, not_kind, unary_kind,
  binary_kind, set_kind, unknown, read_kind, Operand, reference_operand, operand_of,
  comparison_operand_of, resolve, Fault,
}
use rustberg.Predicate.Columns.{
  insert, add_resolved, collect_operand, collect_operands, collect_kind, collect_columns,
  collect_child,
}

-- The predicates whose terms are of the given columns.
pub data IsOver (ib : Iceberg) (names : List Text) : ib.Predicate → Type 0 where
  always : IsOver ib names ib.always_true
  never : IsOver ib names ib.always_false
  conjunction :
      {p q : ib.Predicate} → IsOver ib names p → IsOver ib names q → IsOver ib names (ib.both p q)
  disjunction :
      {p q : ib.Predicate} → IsOver ib names p → IsOver ib names q → IsOver ib names (ib.either p q)
  negation : {p : ib.Predicate} → IsOver ib names p → IsOver ib names (ib.negate p)
  unary_term : (op : UnaryOp) (name : Text) → IsIn name names → IsOver ib names (ib.unary op name)
  comparison :
      (op : BinaryOp) (name : Text) (d : ib.Datum)
      → IsIn name names
      → IsOver ib names (ib.compare op name d)
  membership :
      (op : SetOp) (name : Text) (ds : List ib.Datum)
      → IsIn name names
      → IsOver ib names (ib.among op name ds)

IsIn-insert : (name : Text) (names : List Text) → IsIn name (insert name names)
unfolding insert
IsIn-insert name [] = inl refl
IsIn-insert name (n ∷ names) = elim (Bool-cases (text_ltb name n)) [
  | inl less ↦ rw less (inl refl)
  | inr more ↦ elim (Bool-cases (text_eq name n)) [
    | inl same ↦ rw (more, same) (inl ((text_eq_iff name n).0 same))
    | inr other ↦ rw (more, other) (inr (IsIn-insert name names))
  ]
]

insert-keeps : (c name : Text) (names : List Text) → IsIn c names → IsIn c (insert name names)
unfolding insert
insert-keeps c name [] h = inr h
insert-keeps c name (n ∷ names) h = elim (Bool-cases (text_ltb name n)) [
  | inl less ↦ rw less (inr h)
  | inr more ↦ elim (Bool-cases (text_eq name n)) [
    | inl same ↦ rw (more, same) h
    | inr other ↦
        rw (more, other)
          (elim h [ inl e ↦ inl e | inr later ↦ inr (insert-keeps c name names later) ])
  ]
]

pub IsOver-mono :
    (ib : Iceberg) {names names' : List Text} {p : ib.Predicate}
    → ((c : Text) → IsIn c names → IsIn c names')
    → IsOver ib names p
    → IsOver ib names' p
IsOver-mono ib k always = always
IsOver-mono ib k never = never
IsOver-mono ib k (conjunction h i) = conjunction (IsOver-mono ib k h) (IsOver-mono ib k i)
IsOver-mono ib k (disjunction h i) = disjunction (IsOver-mono ib k h) (IsOver-mono ib k i)
IsOver-mono ib k (negation h) = negation (IsOver-mono ib k h)
IsOver-mono ib k (unary_term op name h) = unary_term op name (k name h)
IsOver-mono ib k (comparison op name d h) = comparison op name d (k name h)
IsOver-mono ib k (membership op name ds h) = membership op name ds (k name h)

resolved-keeps :
    (c : Text) (r : Result (Option Text) Fault) (names : List Text)
    → IsIn c names
    → IsIn c (add_resolved r names)
unfolding add_resolved
resolved-keeps c (ok (some name)) names h = insert-keeps c name names h
resolved-keeps c (ok none) names h = h
resolved-keeps c (err e) names h = h

module _ (ib : Iceberg) (schema : ib.Schema) where
  operand-keeps :
      (c : Text) (o : Option Value) (names : List Text)
      → IsIn c names
      → IsIn c (collect_operand ib schema o names)
  unfolding collect_operand
  operand-keeps c none names h = h
  operand-keeps c (some v) names h =
      resolved-keeps c (reference_operand v >>= λ operand. resolve ib operand schema) names h

  operands-keep :
      (c : Text) (fs : Fields) (names : List Text)
      → IsIn c names
      → IsIn c (collect_operands ib schema fs names)
  unfolding collect_operands
  operands-keep c fs names h =
      operand-keeps c (get fs (codes "left")) _ (
        operand-keeps c (get fs (codes "term")) _
          (operand-keeps c (get fs (codes "child")) names h))

  operand-IsIn :
      (v : Value) (operand : Operand) (name : Text) (names : List Text)
      → reference_operand v ≡ ok operand
      → resolve ib operand schema ≡ ok (some name)
      → IsIn name (collect_operand ib schema (some v) names)
  unfolding collect_operand add_resolved
  operand-IsIn v operand name names e f =
      let found : (reference_operand v >>= λ o. resolve ib o schema) ≡ ok (some name) =
        rw (e, f) refl in
      rw found (IsIn-insert name names)

  -- The operand of a term is found under one of the keys.
  pub term-IsIn :
      (fs : Fields) (operand : Operand) (name : Text) (names : List Text)
      → operand_of fs ≡ ok operand
      → resolve ib operand schema ≡ ok (some name)
      → IsIn name (collect_operands ib schema fs names)
  unfolding operand_of collect_operands
  term-IsIn fs operand name names e f = elim (Option-cases (get fs (codes "child"))) [
    | inr (v, g) ↦ operand-keeps name (get fs (codes "left")) _ (
        operand-keeps name (get fs (codes "term")) _
          (rw g (operand-IsIn v operand name names (ground arith) f)))
    | inl g ↦ elim (Option-cases (get fs (codes "term"))) [
      | inr (v, h) ↦
          operand-keeps name (get fs (codes "left")) _
            (rw h (operand-IsIn v operand name _ (ground arith) f))
      | inl h ↦ absurd (ground arith)
    ]
  ]

  pub comparison-IsIn :
      (fs : Fields) (operand : Operand) (name : Text) (names : List Text)
      → comparison_operand_of fs ≡ ok operand
      → resolve ib operand schema ≡ ok (some name)
      → IsIn name (collect_operands ib schema fs names)
  unfolding comparison_operand_of collect_operands
  comparison-IsIn fs operand name names e f = elim (Option-cases (get fs (codes "left"))) [
    | inr (v, g) ↦ rw g (operand-IsIn v operand name _ (ground arith) f)
    | inl g ↦ elim (Option-cases (get fs (codes "term"))) [
      | inr (v, h) ↦
          operand-keeps name (get fs (codes "left")) _
            (rw h (operand-IsIn v operand name _ (ground arith) f))
      | inl h ↦ absurd (ground arith)
    ]
  ]

  kind-keeps :
      (c : Text) (fs : Fields) (k : Kind) (names : List Text)
      → ((name : Text) (found : List Text)
          → IsIn c found
          → IsIn c (collect_child ib schema fs name found))
      → IsIn c names
      → IsIn c (
          collect_kind ib schema
            (λ name found. collect_child ib schema fs name found)
            fs
            (some k)
            names)
  unfolding collect_kind
  kind-keeps c fs and_kind names rec h = rec (codes "right") _ (rec (codes "left") names h)
  kind-keeps c fs or_kind names rec h = rec (codes "right") _ (rec (codes "left") names h)
  kind-keeps c fs not_kind names rec h = rec (codes "child") names h
  kind-keeps c fs (constant b) names rec h = operands-keep c fs names h
  kind-keeps c fs (unary_kind op) names rec h = operands-keep c fs names h
  kind-keeps c fs (binary_kind op) names rec h = operands-keep c fs names h
  kind-keeps c fs (set_kind op) names rec h = operands-keep c fs names h
  kind-keeps c fs unknown names rec h = operands-keep c fs names h

  mutual
    unfolding collect_columns collect_kind

    pub columns-keep :
        (c : Text) (json : Value) (names : List Text)
        → IsIn c names
        → IsIn c (collect_columns ib schema json names)
    columns-keep c (object fs) names h = elim (Option-cases (read_kind fs)) [
      | inl e ↦ rw e h
      | inr (k, e) ↦
          rw e (kind-keeps c fs k names (λ name found i. child-keeps c fs name found i) h)
    ]
    columns-keep c null names h = h
    columns-keep c (bool b) names h = h
    columns-keep c (number n) names h = h
    columns-keep c (string s) names h = h
    columns-keep c (array xs) names h = h

    pub child-keeps :
        (c : Text) (fs : Fields) (name : Text) (names : List Text)
        → IsIn c names
        → IsIn c (collect_child ib schema fs name names)
    child-keeps c end name names h = h
    child-keeps c (entry k v fs) name names h = elim (Bool-cases (text_eq k name)) [
      | inl here ↦ rw (collect_child, here) (columns-keep c v names h)
      | inr later ↦ rw (collect_child, later) (child-keeps c fs name names h)
    ]

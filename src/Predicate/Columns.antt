-- ===== src/Predicate/Columns.antt =====
-- `referenced_columns` of src/predicate.rs: the columns that a filter names.
use rustberg.Common.{
  Text, codes, text_eq, text_ltb, true, false, Option, none, some, List, [], ◌∷◌, Result, ok, ◌>>=◌,
  if◌then◌else◌,
}
use rustberg.Json.{Value, object, Fields, end, entry, get}
use rustberg.Predicate.{
  Iceberg, Fault, Kind, and_kind, or_kind, not_kind, read_kind, reference_operand, resolve,
}

-- `BTreeSet::insert`
unfoldable pub insert : Text → List Text → List Text
insert name [] = name ∷ []
insert name (n ∷ names) =
    let rest = insert name names in
    if text_ltb name n then name ∷ n ∷ names else if text_eq name n then n ∷ names else n ∷ rest

unfoldable pub add_resolved : Result (Option Text) Fault → List Text → List Text
unfolding insert
add_resolved (ok (some name)) names = insert name names
add_resolved _ names = names

module _ (ib : Iceberg) (schema : ib.Schema) where
  -- What the entry of one key adds.
  unfoldable pub collect_operand : Option Value → List Text → List Text
  unfolding add_resolved
  collect_operand none names = names
  collect_operand (some v) names =
      add_resolved (reference_operand v >>= λ operand. resolve ib operand schema) names

  unfoldable pub collect_operands : Fields → List Text → List Text
  unfolding collect_operand get
  collect_operands fs names =
      collect_operand (get fs (codes "left"))
        (collect_operand (get fs (codes "term")) (collect_operand (get fs (codes "child")) names))

  -- One expression, `rec` collecting from a named child.
  unfoldable pub collect_kind :
      (Text → List Text → List Text) → Fields → Option Kind → List Text → List Text
  unfolding collect_operands
  collect_kind rec fs none names = names
  collect_kind rec fs (some and_kind) names = rec (codes "right") (rec (codes "left") names)
  collect_kind rec fs (some or_kind) names = rec (codes "right") (rec (codes "left") names)
  collect_kind rec fs (some not_kind) names = rec (codes "child") names
  collect_kind rec fs (some _) names = collect_operands fs names

  unfoldable mutual
    pub collect_columns : Value → List Text → List Text
    collect_columns (object fs) names =
        collect_kind (λ name found. collect_child fs name found) fs (read_kind fs) names
    collect_columns _ names = names

    -- `if let Some(value) = object.get(name) { collect_columns(value, …) }`
    pub collect_child : Fields → Text → List Text → List Text
    collect_child end name names = names
    collect_child (entry k v fs) name names = elim (text_eq k name) [
      | true ↦ collect_columns v names
      | false ↦ collect_child fs name names
    ]

  unfoldable pub referenced_columns : Value → List Text
  unfolding collect_columns
  referenced_columns json = collect_columns json []

-- ===== src/Predicate/Parse/Meaning.antt =====
-- What a filter of src/predicate.rs means, apart from its parser: the connectives are those of Bool,
-- a term that binds to a column means what the Iceberg library makes of it, and one that does not
-- bind may mean anything.
use rustberg.Common.{codes, Bool, true, false, not, ◌&&◌, ◌||◌, none, some, ok, ◌≡◌}
use rustberg.Json.{Value, bool, object, Fields, get}
use rustberg.Predicate.{
  Iceberg, CaseSensitivity, Kind, constant, and_kind, or_kind, not_kind, unknown, read_kind,
}
use rustberg.Predicate.Parse.{bind_leaf}
use rustberg.Predicate.Parse.Steps.{IsLeaf}

-- What the library documents of its predicates: each is true or false of a row, and the builders are
-- named for what they mean.
pub record Semantics (ib : Iceberg) : Type 1 where
  pub Row : Type 0
  pub eval : ib.Predicate → Row → Bool
  pub eval-true : (r : Row) → eval ib.always_true r ≡ true
  pub eval-false : (r : Row) → eval ib.always_false r ≡ false
  pub eval-both : (p q : ib.Predicate) (r : Row) → eval (ib.both p q) r ≡ (eval p r && eval q r)
  pub eval-either : (p q : ib.Predicate) (r : Row) → eval (ib.either p q) r ≡ (eval p r || eval q r)
  pub eval-negate : (p : ib.Predicate) (r : Row) → eval (ib.negate p) r ≡ not (eval p r)

module _ (ib : Iceberg) (schema : ib.Schema) (case : CaseSensitivity) (m : Semantics ib)
    (row : m.Row) where
  pub data Means : Value → Bool → Type 0 where
    literal : (b : Bool) → Means (bool b) b
    constantly : (fs : Fields) (b : Bool) → read_kind fs ≡ some (constant b) → Means (object fs) b
    conjunction :
        (fs : Fields) (l r : Value) {a b : Bool}
        → read_kind fs ≡ some and_kind
        → get fs (codes "left") ≡ some l
        → get fs (codes "right") ≡ some r
        → Means l a
        → Means r b
        → Means (object fs) (a && b)
    disjunction :
        (fs : Fields) (l r : Value) {a b : Bool}
        → read_kind fs ≡ some or_kind
        → get fs (codes "left") ≡ some l
        → get fs (codes "right") ≡ some r
        → Means l a
        → Means r b
        → Means (object fs) (a || b)
    negation :
        (fs : Fields) (c : Value) {a : Bool}
        → read_kind fs ≡ some not_kind
        → get fs (codes "child") ≡ some c
        → Means c a
        → Means (object fs) (not a)
    bound_term :
        (fs : Fields) (kind : Kind) (p : ib.Predicate)
        → read_kind fs ≡ some kind
        → IsLeaf kind
        → bind_leaf ib schema case kind fs ≡ ok (some p)
        → Means (object fs) (m.eval p row)
    unbound_term :
        (fs : Fields) (kind : Kind) (b : Bool)
        → read_kind fs ≡ some kind
        → IsLeaf kind
        → bind_leaf ib schema case kind fs ≡ ok none
        → Means (object fs) b
    unknown_operator : (fs : Fields) (b : Bool) → read_kind fs ≡ some unknown → Means (object fs) b

-- ===== src/Predicate/Parse/Steps.antt =====
-- What the parser of src/predicate.rs does with an expression of each kind, and what a parse that
-- ends well has gone through.
use rustberg.Common.{
  Text, codes, text_eq, Bool, true, false, not, Bool-cases, inl, inr, Option, some, ok, err, ◌>>=◌,
  >>=-eq-ok, ◌≡◌, ◌≢◌, refl, sym, ◌∙◌, arith,
}
use rustberg.Json.{Value, object, Fields, end, entry, get}
use rustberg.Predicate.{
  Iceberg, CaseSensitivity, Strictness, Fault, Kind, constant, unknown, and_kind, or_kind, not_kind,
  unary_kind, binary_kind, set_kind, read_kind, child,
}
use rustberg.Predicate.Parse.{bind_leaf, or_widen, parse_kind, parse_with_polarity, parse_child}

-- The kinds that stand for a term.
abbrev pub IsLeaf : Kind → Type 0
IsLeaf (unary_kind _) = Unit
IsLeaf (binary_kind _) = Unit
IsLeaf (set_kind _) = Unit
IsLeaf _ = ⊥

module _ (ib : Iceberg) (schema : ib.Schema) (case : CaseSensitivity) (positive : Bool)
    (strictness : Strictness) where
  -- A child is parsed as the first entry of its name.
  pub child_here :
      (k : Text) (v : Value) (fs : Fields) (name : Text)
      → text_eq k name ≡ true
      → parse_child ib schema case positive strictness (entry k v fs) name
        ≡ parse_with_polarity ib schema case positive strictness v
  unfolding parse_with_polarity
  child_here k v fs name here = rw (parse_child, here) refl

  pub child_later :
      (k : Text) (v : Value) (fs : Fields) (name : Text)
      → text_eq k name ≡ false
      → parse_child ib schema case positive strictness (entry k v fs) name
        ≡ parse_child ib schema case positive strictness fs name
  unfolding parse_with_polarity
  child_later k v fs name later = rw (parse_child, later) refl

  -- A child is parsed as the code says: looked up, then parsed.
  pub parse_child-eq :
      (fs : Fields) (name : Text)
      → parse_child ib schema case positive strictness fs name
        ≡ (child fs name >>= parse_with_polarity ib schema case positive strictness)
  unfolding parse_with_polarity child get
  parse_child-eq end name = refl
  parse_child-eq (entry k v fs) name = elim (Bool-cases (text_eq k name)) [
    | inl here ↦ rw (parse_child, here) refl
    | inr later ↦ rw (parse_child, later) (parse_child-eq fs name)
  ]

  pub parse_child_of_get :
      (fs : Fields) (name : Text) (v : Value)
      → get fs name ≡ some v
      → parse_child ib schema case positive strictness fs name
        ≡ parse_with_polarity ib schema case positive strictness v
  unfolding child
  parse_child_of_get fs name v e = rw (parse_child-eq fs name, e) refl

  pub parse_of_kind :
      (fs : Fields) (k : Kind)
      → read_kind fs ≡ some k
      → parse_with_polarity ib schema case positive strictness (object fs)
        ≡ parse_kind ib schema case
            (λ polarity name. parse_child ib schema case polarity strictness fs name)
            positive
            strictness
            fs
            k
  unfolding parse_with_polarity
  parse_of_kind fs k e = rw e refl

  pub parse_of_leaf :
      (fs : Fields) (k : Kind) (found : Option ib.Predicate)
      → read_kind fs ≡ some k
      → IsLeaf k
      → bind_leaf ib schema case k fs ≡ ok found
      → parse_with_polarity ib schema case positive strictness (object fs)
        ≡ or_widen ib schema case positive strictness found
  unfolding parse_kind
  parse_of_leaf fs (unary_kind op) found e leaf b = parse_of_kind fs (unary_kind op) e ∙ rw b refl
  parse_of_leaf fs (binary_kind op) found e leaf b = parse_of_kind fs (binary_kind op) e ∙ rw b refl
  parse_of_leaf fs (set_kind op) found e leaf b = parse_of_kind fs (set_kind op) e ∙ rw b refl
  parse_of_leaf fs (constant _) found e leaf b = absurd leaf
  parse_of_leaf fs and_kind found e leaf b = absurd leaf
  parse_of_leaf fs or_kind found e leaf b = absurd leaf
  parse_of_leaf fs not_kind found e leaf b = absurd leaf
  parse_of_leaf fs unknown found e leaf b = absurd leaf

  pub leaf_failed :
      (fs : Fields) (k : Kind) (p : ib.Predicate) (fault : Fault)
      → read_kind fs ≡ some k
      → IsLeaf k
      → bind_leaf ib schema case k fs ≡ err fault
      → parse_with_polarity ib schema case positive strictness (object fs) ≢ ok p
  unfolding parse_kind
  leaf_failed fs (unary_kind op) p fault e leaf b parsed =
      let f = sym (parse_of_kind fs (unary_kind op) e) ∙ parsed in absurd (ground arith)
  leaf_failed fs (binary_kind op) p fault e leaf b parsed =
      let f = sym (parse_of_kind fs (binary_kind op) e) ∙ parsed in absurd (ground arith)
  leaf_failed fs (set_kind op) p fault e leaf b parsed =
      let f = sym (parse_of_kind fs (set_kind op) e) ∙ parsed in absurd (ground arith)
  leaf_failed fs (constant _) p fault e leaf b parsed = leaf
  leaf_failed fs and_kind p fault e leaf b parsed = leaf
  leaf_failed fs or_kind p fault e leaf b parsed = leaf
  leaf_failed fs not_kind p fault e leaf b parsed = leaf
  leaf_failed fs unknown p fault e leaf b parsed = leaf

  pub both_children :
      (fs : Fields) (join : ib.Predicate → ib.Predicate → ib.Predicate) (p : ib.Predicate)
      → (parse_child ib schema case positive strictness fs (codes "left") >>= λ left.
          parse_child ib schema case positive strictness fs (codes "right") >>= λ right.
          ok (join left right))
        ≡ ok p
      → (pl : ib.Predicate) × (pr : ib.Predicate) × (parse_child ib schema case positive strictness
            fs
            (codes "left")
          ≡ ok pl)
        × (parse_child ib schema case positive strictness fs (codes "right") ≡ ok pr)
        × (p ≡ join pl pr)
  both_children fs join p e =
      let (pl, el, f) =
        >>=-eq-ok (parse_child ib schema case positive strictness fs (codes "left")) _ e in
      let (pr, er, g) =
        >>=-eq-ok (parse_child ib schema case positive strictness fs (codes "right")) _ f in
      (pl, pr, el, er, cc)

  pair_parts :
      (join : ib.Predicate → ib.Predicate → ib.Predicate) (fs : Fields) (l r : Value)
      (p : ib.Predicate)
      → get fs (codes "left") ≡ some l
      → get fs (codes "right") ≡ some r
      → (parse_child ib schema case positive strictness fs (codes "left") >>= λ left.
          parse_child ib schema case positive strictness fs (codes "right") >>= λ right.
          ok (join left right))
        ≡ ok p
      → (pl : ib.Predicate) × (pr : ib.Predicate) × (parse_with_polarity ib schema case positive
            strictness l
          ≡ ok pl)
        × (parse_with_polarity ib schema case positive strictness r ≡ ok pr)
        × (p ≡ join pl pr)
  pair_parts join fs l r p gl gr e =
      let (pl, pr, el, er, f) = both_children fs join p e in
      (
        pl,
        pr,
        sym (parse_child_of_get fs (codes "left") l gl) ∙ el,
        sym (parse_child_of_get fs (codes "right") r gr) ∙ er,
        f,
      )

  pub and_parts :
      (fs : Fields) (l r : Value) (p : ib.Predicate)
      → read_kind fs ≡ some and_kind
      → get fs (codes "left") ≡ some l
      → get fs (codes "right") ≡ some r
      → parse_with_polarity ib schema case positive strictness (object fs) ≡ ok p
      → (pl : ib.Predicate) × (pr : ib.Predicate) × (parse_with_polarity ib schema case positive
            strictness l
          ≡ ok pl)
        × (parse_with_polarity ib schema case positive strictness r ≡ ok pr)
        × (p ≡ ib.both pl pr)
  unfolding parse_kind
  and_parts fs l r p k gl gr e =
      pair_parts ib.both fs l r p gl gr (sym (parse_of_kind fs and_kind k) ∙ e)

  pub or_parts :
      (fs : Fields) (l r : Value) (p : ib.Predicate)
      → read_kind fs ≡ some or_kind
      → get fs (codes "left") ≡ some l
      → get fs (codes "right") ≡ some r
      → parse_with_polarity ib schema case positive strictness (object fs) ≡ ok p
      → (pl : ib.Predicate) × (pr : ib.Predicate) × (parse_with_polarity ib schema case positive
            strictness l
          ≡ ok pl)
        × (parse_with_polarity ib schema case positive strictness r ≡ ok pr)
        × (p ≡ ib.either pl pr)
  unfolding parse_kind
  or_parts fs l r p k gl gr e =
      pair_parts ib.either fs l r p gl gr (sym (parse_of_kind fs or_kind k) ∙ e)

module _ (ib : Iceberg) (schema : ib.Schema) (case : CaseSensitivity) (positive : Bool)
    (strictness : Strictness) where
  pub not_parts :
      (fs : Fields) (c : Value) (p : ib.Predicate)
      → read_kind fs ≡ some not_kind
      → get fs (codes "child") ≡ some c
      → parse_with_polarity ib schema case positive strictness (object fs) ≡ ok p
      → (q : ib.Predicate) × (parse_with_polarity ib schema case (not positive) strictness c ≡ ok q)
        × (p ≡ ib.negate q)
  unfolding parse_kind
  not_parts fs c p k gc e =
      let (q, eq, f) =
        >>=-eq-ok (parse_child ib schema case (not positive) strictness fs (codes "child")) _
          (sym (parse_of_kind ib schema case positive strictness fs not_kind k) ∙ e) in
      (
        q,
        sym (parse_child_of_get ib schema case (not positive) strictness fs (codes "child") c gc)
            ∙ eq,
        cc,
      )

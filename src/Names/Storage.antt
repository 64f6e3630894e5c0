-- ===== src/Names/Storage.antt =====
-- What the names that src/names.rs accepts promise the storage layout of src/location.rs and the
-- keys of src/catalog/redb.rs.
use rustberg.Common.{
  ℕ, Text, codes, true, ◌≡◌, refl, sym, ◌≢◌, inl, inr, some, List, [], ◌∷◌, ◌++◌, arith, length,
  All, All-append, split_once, trim_end_char, ok,
}
use rustberg.Location.{dot_dot, is_within}
use rustberg.Location.Segments.{NoTraversal}
use rustberg.Location.Within.{candidate_path}
use rustberg.Location.Bound.{canonical_prefix}
use rustberg.Location.Bound.Layout.{IsSegment, resource_path}
use rustberg.Location.Bound.Inside.{is_within-canonical_prefix}
use rustberg.Location.Bound.Overlap.{overlap_nested}
use rustberg.Redb.Keys.{TableIdent, table_key, part_separator, name_separator}
use rustberg.Redb.Keys.Injective.{IsPlain, IsTableIdent, table_key_inj}
use rustberg.Names.{Unicode, table_name, validate_namespace, validate_table_name}
use rustberg.Names.Accepted.{IsUnicode, IsName, validate_name_iff, validate_namespace_iff}

-- The documented fact that control characters are in the group `Other`.
pub record IsControlOther (u : Unicode) : Type 0 where
  pub part : u.is_other part_separator ≡ true
  pub name : u.is_other name_separator ≡ true

pub All-map {ℓ κ μ} :
    {A : Type ℓ} {P : A → Type κ} {Q : A → Type μ} (xs : List A)
    → ((x : A) → P x → Q x)
    → All P xs
    → All Q xs
All-map [] f h = tt
All-map (x ∷ xs) f (p, h) = (f x p, All-map xs f h)

IsName-IsSegment : (u : Unicode) (s : Text) → IsName u s → IsSegment s
IsName-IsSegment u s w = (w.some_text, All-map s (λ c h. h.0) w.whole)

pub IsName-IsPlain : (u : Unicode) (s : Text) → IsControlOther u → IsName u s → IsPlain s
IsName-IsPlain u s k w = (
  All-map s (λ c h e. ground (arith, k.part, h, e)) w.visible,
  All-map s (λ c h e. ground (arith, k.name, h, e)) w.visible,
)

-- A namespace and a name that pass their validation.
pub record IsValid (u : Unicode) (ns : List Text) (name : Text) : Type 0 where
  pub namespace_ok : validate_namespace u ns ≡ ok tt
  pub name_ok : validate_table_name u name ≡ ok tt

IsValid-IsName :
    (u : Unicode) (ns : List Text) (name : Text)
    → IsUnicode u
    → IsValid u ns name
    → (ns ≢ []) × All (IsName u) ns × IsName u name
unfolding validate_table_name
IsValid-IsName u ns name h v =
    let (ne, _, names) = (validate_namespace_iff u ns h).0 v.namespace_ok in
    (ne, names, (validate_name_iff u name table_name h).0 v.name_ok)

IsValid-IsTableIdent :
    (u : Unicode) (t : TableIdent)
    → IsUnicode u
    → IsControlOther u
    → IsValid u t.namespace t.name
    → IsTableIdent t
IsValid-IsTableIdent u t h k v =
    let (ne, names, name) = IsValid-IsName u t.namespace t.name h v in
    record {
      namespace = record {
        some_level = ne;
        plain = All-map t.namespace (λ s. IsName-IsPlain u s k) names;
      };
      name = IsName-IsPlain u t.name k name;
    }

-- Two tables whose names pass validation have one key only if they have one namespace and one name.
-- The separators are in the group `Other`, and the quick check of normal form says yes of normal
-- text only.
pub valid_key_inj :
    (u : Unicode) (a b : TableIdent)
    → IsUnicode u
    → IsControlOther u
    → IsValid u a.namespace a.name
    → IsValid u b.namespace b.name
    → table_key a ≡ table_key b
    → (a.namespace ≡ b.namespace) × (a.name ≡ b.name)
valid_key_inj u a b h k va vb =
    table_key_inj a b (IsValid-IsTableIdent u a h k va) (IsValid-IsTableIdent u b h k vb)

NoTraversal-names : (u : Unicode) (ss : List Text) → All (IsName u) ss → NoTraversal ss
NoTraversal-names u ss h = All-map ss (λ s w. w.proper.1) h

same_path :
    (a : List Text) (x : Text) (b : List Text) (y : Text) (extra : List Text)
    → length a ≡ length b
    → resource_path a x ≡ resource_path b y ++ extra
    → (a ≡ b) × (x ≡ y)
same_path [] x [] y extra l e = (refl, cc)
same_path [] x (q ∷ b) y extra l e = absurd (omega (arith, l))
same_path (p ∷ a) x [] y extra l e = absurd (omega (arith, l))
same_path (p ∷ a) x (q ∷ b) y extra l e =
    let (same, last) = same_path a x b y extra (omega (arith, l)) cc in (cc, last)

module _ (u : Unicode) (h : IsUnicode u) (warehouse scheme : Text) (c : ℕ) (rest : Text)
    (found : split_once (codes "://") (trim_end_char b'/' warehouse)
      ≡ some (scheme, c ∷ rest)) where
  -- The storage of a resource whose namespace and name pass validation lies inside the warehouse,
  -- which is written `scheme://` and more than a slash, with no slash at its end and no ".."
  -- segment. The quick check of normal form says yes of normal text only.
  pub valid-is_within :
      (ns : List Text) (name : Text)
      → IsValid u ns name
      → trim_end_char b'/' warehouse ≡ warehouse
      → NoTraversal (candidate_path warehouse)
      → is_within warehouse (canonical_prefix warehouse ns name) ≡ true
  valid-is_within ns name v bare clean =
      let (_, ns_ok, name_ok) = IsValid-IsName u ns name h v in
      is_within-canonical_prefix warehouse scheme c rest bare found ns name
        (All-map ns (IsName-IsSegment u) ns_ok) (IsName-IsSegment u name name_ok) clean
        (All-append (λ s. s ≢ dot_dot) ns (name ∷ []) (NoTraversal-names u ns ns_ok)
          (name_ok.proper.1, tt))

  -- Two resources whose names pass validation and whose namespaces are equally deep, as those of
  -- one namespace are, have a location of storage in common only if they have one namespace and one
  -- name. The warehouse is written `scheme://` and more than a slash, and the quick check of normal
  -- form says yes of normal text only.
  pub valid_disjoint :
      (ns₁ : List Text) (name₁ : Text) (ns₂ : List Text) (name₂ location : Text)
      → IsValid u ns₁ name₁
      → IsValid u ns₂ name₂
      → length ns₁ ≡ length ns₂
      → is_within (canonical_prefix warehouse ns₁ name₁) location ≡ true
      → is_within (canonical_prefix warehouse ns₂ name₂) location ≡ true
      → (ns₁ ≡ ns₂) × (name₁ ≡ name₂)
  valid_disjoint ns₁ name₁ ns₂ name₂ location v₁ v₂ deep in₁ in₂ =
      let (_, n₁, k₁) = IsValid-IsName u ns₁ name₁ h v₁ in
      let (_, n₂, k₂) = IsValid-IsName u ns₂ name₂ h v₂ in
      elim (overlap_nested warehouse scheme c rest found ns₁ name₁ ns₂ name₂ location
        (All-map ns₁ (IsName-IsSegment u) n₁) (IsName-IsSegment u name₁ k₁)
        (All-map ns₂ (IsName-IsSegment u) n₂) (IsName-IsSegment u name₂ k₂) in₁ in₂) [
          | inl (extra, e) ↦
              let (a, b) = same_path ns₂ name₂ ns₁ name₁ extra (sym deep) e in (sym a, sym b)
          | inr (extra, e) ↦ same_path ns₁ name₁ ns₂ name₂ extra deep e
        ]

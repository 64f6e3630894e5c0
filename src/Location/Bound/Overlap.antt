-- ===== src/Location/Bound/Overlap.antt =====
-- Which resources of one warehouse share storage, by the layout of src/location.rs, and the bound
-- that `LocationBound::new` makes from a namespace's prefix.
use mathlib.Core.List.{append-nil, append_assoc, append_cancel_left}
use rustberg.Common.{
  ℕ, Text, codes, true, ◌≡◌, refl, ap, sym, ◌∙◌, ◌≢◌, ◌⊎◌, inl, inr, some, List, [], ◌∷◌, ◌++◌,
  arith, All, All-append, split_once, trim_end_char, ==_iff,
}
use rustberg.Common.Splits.{Lacks}
use rustberg.Location.{is_within, is_absolute}
use rustberg.Location.Segments.{NoTraversal}
use rustberg.Location.Within.{candidate_path, is_within_iff}
use rustberg.Location.Bound.{table, new, join_segments, namespace_prefix, canonical_prefix}
use rustberg.Location.Bound.Layout.{
  IsSegment, resource_path, join_tail, join_tail-append, push_levels-eq, canonical_prefix-eq,
  append-ne-nil, base, split_of_canonical, segments_of_canonical, root_path_of_canonical,
}

-- Of two lists that begin one list, one begins the other.
prefix_total {ℓ} :
    {A : Type ℓ} (p q : List A) (r s : List A)
    → p ++ r ≡ q ++ s
    → ((extra : List A) × (q ≡ p ++ extra)) ⊎ ((extra : List A) × (p ≡ q ++ extra))
prefix_total [] q r s e = inl (q, refl)
prefix_total (a ∷ p) [] r s e = inr (a ∷ p, refl)
prefix_total (a ∷ p) (b ∷ q) r s e =
    let same : a ≡ b = cc in
    elim (prefix_total p q r s (cc)) [
      | inl (extra, f) ↦ inl (extra, cc)
      | inr (extra, f) ↦ inr (extra, cc)
    ]

module _ (warehouse scheme : Text) (c : ℕ) (rest : Text)
    (found : split_once (codes "://") (trim_end_char b'/' warehouse)
      ≡ some (scheme, c ∷ rest)) where
  -- Two resources whose storage has a location in common have names one of whose paths, the
  -- namespace's levels and then the name, is the beginning of the other's or equal to it. The
  -- warehouse is written `scheme://` and more than a slash, and no level or name is empty or holds
  -- a slash.
  pub overlap_nested :
      (ns₁ : List Text) (name₁ : Text) (ns₂ : List Text) (name₂ location : Text)
      → All IsSegment ns₁
      → IsSegment name₁
      → All IsSegment ns₂
      → IsSegment name₂
      → is_within (canonical_prefix warehouse ns₁ name₁) location ≡ true
      → is_within (canonical_prefix warehouse ns₂ name₂) location ≡ true
      → ((extra : List Text) × (resource_path ns₂ name₂ ≡ resource_path ns₁ name₁ ++ extra))
        ⊎ ((extra : List Text) × (resource_path ns₁ name₁ ≡ resource_path ns₂ name₂ ++ extra))
  overlap_nested ns₁ name₁ ns₂ name₂ location h₁ k₁ h₂ k₂ in₁ in₂ =
      let (r, e) = ((is_within_iff (canonical_prefix warehouse ns₁ name₁) location).0 in₁).below in
      let (s, f) = ((is_within_iff (canonical_prefix warehouse ns₂ name₂) location).0 in₂).below in
      let p₁ = root_path_of_canonical warehouse scheme c rest found ns₁ name₁ h₁ k₁ in
      let p₂ = root_path_of_canonical warehouse scheme c rest found ns₂ name₂ h₂ k₂ in
      let b : List Text = base warehouse scheme c rest found in
      let path₁ = resource_path ns₁ name₁ in
      let path₂ = resource_path ns₂ name₂ in
      prefix_total path₁ path₂ r s (
        append_cancel_left b (path₁ ++ r) (path₂ ++ s) (
          sym (append_assoc b path₁ r)
          ∙ ap (λ l. l ++ r) (sym p₁)
          ∙ sym e
          ∙ f
          ∙ ap (λ l. l ++ s) p₂
          ∙ append_assoc b path₂ s))

  -- The storage of a table `ns.name` contains that of every resource in a namespace `ns.name` and
  -- below it. The warehouse is written `scheme://` and more than a slash, no level or name is empty
  -- or holds a slash, and the resource's location has no ".." segment.
  pub nested_overlap :
      (ns : List Text) (name : Text) (levels : List Text) (child : Text)
      → All IsSegment ns
      → IsSegment name
      → All IsSegment levels
      → IsSegment child
      → NoTraversal (candidate_path (canonical_prefix warehouse (ns ++ name ∷ levels) child))
      → is_within
          (canonical_prefix warehouse ns name)
          (canonical_prefix warehouse (ns ++ name ∷ levels) child)
        ≡ true
  nested_overlap ns name levels child h k hs kc clean =
      let deep : List Text = ns ++ name ∷ levels in
      let names = All-append IsSegment ns (name ∷ levels) h (k, hs) in
      let whole = All-append IsSegment deep (child ∷ []) names (kc, tt) in
      let split_shallow = split_of_canonical warehouse scheme c rest found ns name in
      let split_deep = split_of_canonical warehouse scheme c rest found deep child in
      let b : List Text = base warehouse scheme c rest found in
      let shallow_path = root_path_of_canonical warehouse scheme c rest found ns name h k in
      let deep_path : candidate_path (canonical_prefix warehouse deep child)
          ≡ b ++ resource_path deep child =
        rw split_deep (
          segments_of_canonical warehouse scheme c rest found (resource_path deep child) whole
            (append-ne-nil deep child)) in
      (is_within_iff (canonical_prefix warehouse ns name) (canonical_prefix warehouse deep child)).1
        (record {
          store = record {
            scheme = ap (λ p. p.0) split_shallow ∙ sym (ap (λ p. p.0) split_deep);
            rooting = λ _. rw (split_shallow, split_deep) (unfold is_absolute in refl);
          };
          clean = clean;
          below = (levels ++ child ∷ [], rw (deep_path, shallow_path) (simp append_assoc));
        })

trim_end_char-append :
    (c : ℕ) (s t : Text) → t ≢ [] → trim_end_char c t ≡ t → trim_end_char c (s ++ t) ≡ s ++ t
unfolding trim_end_char
trim_end_char-append c [] t ne h = h
trim_end_char-append c (x ∷ s) [] ne h = absurd (ne refl)
trim_end_char-append c (x ∷ []) (y ∷ t) ne h = ground arith
trim_end_char-append c (x ∷ z ∷ s) (y ∷ t) ne h =
    ground (arith, trim_end_char-append c (z ∷ s) (y ∷ t))

trim_end_char_of_Lacks : (c : ℕ) (s : Text) → Lacks c s → trim_end_char c s ≡ s
unfolding trim_end_char
trim_end_char_of_Lacks c [] h = refl
trim_end_char_of_Lacks c (x ∷ s) (ne, h) = ground (arith, trim_end_char_of_Lacks c s h, ==_iff x c)

trim_end_char-cons :
    (c x : ℕ) (t : Text) → t ≢ [] → trim_end_char c t ≡ t → trim_end_char c (x ∷ t) ≡ x ∷ t
unfolding trim_end_char
trim_end_char-cons c x [] ne h = absurd (ne refl)
trim_end_char-cons c x (y ∷ t) ne h = ground arith

append-ne-nil_of_left : (s t : Text) → s ≢ [] → s ++ t ≢ []
append-ne-nil_of_left [] t h e = h refl
append-ne-nil_of_left (x ∷ s) t h e = absurd (ground arith)

cons-ne-nil : (x : ℕ) (s : Text) → x ∷ s ≢ []
cons-ne-nil x s e = absurd (ground arith)

-- Text that ends with a name is not trimmed.
trim_end_char-join_tail :
    (s n : Text) (ns : List Text)
    → IsSegment n
    → All IsSegment ns
    → trim_end_char b'/' (s ++ join_tail (n ∷ ns)) ≡ s ++ join_tail (n ∷ ns)
unfolding join_tail
trim_end_char-join_tail s n [] (ne, plain) _ =
    trim_end_char-append b'/' s (b'/' ∷ (n ++ [])) (cons-ne-nil b'/' (n ++ []))
      (rw append-nil (trim_end_char-cons b'/' b'/' n ne (trim_end_char_of_Lacks b'/' n plain)))
trim_end_char-join_tail s n (m ∷ ms) (ne, plain) (k, ks) =
    let tail = n ++ join_tail (m ∷ ms) in
    trim_end_char-append b'/' s (b'/' ∷ tail) (cons-ne-nil b'/' tail) (
      trim_end_char-cons b'/' b'/' tail (append-ne-nil_of_left n (join_tail (m ∷ ms)) ne)
        (trim_end_char-join_tail n m ms k ks))

trim_end_char_idem : (c : ℕ) (s : Text) → trim_end_char c (trim_end_char c s) ≡ trim_end_char c s
unfolding trim_end_char
trim_end_char_idem c [] = refl
trim_end_char_idem c (x ∷ s) = ground (arith, trim_end_char_idem c s)

trim_end_char-push_levels :
    (w : Text) (ns : List Text)
    → All IsSegment ns
    → trim_end_char b'/' (trim_end_char b'/' w ++ join_tail ns)
      ≡ trim_end_char b'/' w ++ join_tail ns
trim_end_char-push_levels w [] h = unfold join_tail in rw append-nil (trim_end_char_idem b'/' w)
trim_end_char-push_levels w (n ∷ ns) (k, h) =
    trim_end_char-join_tail (trim_end_char b'/' w) n ns k h

-- The bound of a named resource under the scope `table`, made from its namespace's prefix, is the
-- very prefix at which the registries lay the resource out, if no level of the namespace is empty or
-- holds a slash.
pub root-new :
    (warehouse : Text) (ns : List Text) (name : Text)
    → All IsSegment ns
    → (new table warehouse (namespace_prefix warehouse ns) name).root
      ≡ canonical_prefix warehouse ns name
unfolding new namespace_prefix join_segments
root-new warehouse ns name h =
    rw (canonical_prefix-eq, push_levels-eq, trim_end_char-push_levels warehouse ns h)
      (simp (join_tail-append, append_assoc) (unfold join_tail in rw append-nil))

-- ===== src/Common/Splits.antt =====
-- Lemmas on `split_once` and `split_at_char`: what a longer text splits into.
use rustberg.Common.Strings.{
  Text, is_empty, strip_prefix, split_once, split_at_char, ends_with_char,
}
use rustberg.Common.Tests.{==_iff, ◌==◌, Bool-cases, Option-cases}
use rustberg.Common.Lists.{length, All}
use Prim.Native.Nat.{ℕ, ◌+◌, ◌≤◌, ◌<◌}
use mathlib.Core.Path.{◌≡◌, refl, sym, ap, ◌∙◌}
use mathlib.Core.Logic.{◌≢◌, ◌⊎◌, inl, inr}
use mathlib.Core.Bool.{true, false}
use mathlib.Core.Option.{none, some}
use mathlib.Core.List.{List, [], ◌∷◌, ◌++◌}
use native.Mathlib.Omega.{arith}

strip_prefix-append :
    (p s t r : Text) → strip_prefix p s ≡ some r → strip_prefix p (s ++ t) ≡ some (r ++ t)
strip_prefix-append [] s t r h = ground arith
strip_prefix-append (a ∷ p) [] t r h = cc
strip_prefix-append (a ∷ p) (x ∷ s) t r h = ground (arith, strip_prefix-append p s t r)

strip_prefix-append_none :
    (p s t : Text) → length p ≤ length s → strip_prefix p s ≡ none → strip_prefix p (s ++ t) ≡ none
strip_prefix-append_none [] s t l h = cc
strip_prefix-append_none (a ∷ p) [] t l h = absurd (omega arith)
strip_prefix-append_none (a ∷ p) (x ∷ s) t l h = ground (arith, strip_prefix-append_none p s t)

length-strip_prefix : (p s r : Text) → strip_prefix p s ≡ some r → length p ≤ length s
length-strip_prefix [] s r h = omega arith
length-strip_prefix (a ∷ p) [] r h = absurd (ground arith)
length-strip_prefix (a ∷ p) (x ∷ s) r h = ground (arith, length-strip_prefix p s r)

-- The two ways in which a text with a first character splits.
split_once-cons :
    (p : Text) (c : ℕ) (s before after : Text)
    → split_once p (c ∷ s) ≡ some (before, after)
    → ((strip_prefix p (c ∷ s) ≡ some after) × (before ≡ []))
      ⊎ ((before' : Text) × (strip_prefix p (c ∷ s) ≡ none)
          × (split_once p s ≡ some (before', after))
          × (before ≡ c ∷ before'))
unfolding split_once
split_once-cons p c s before after h = elim (Option-cases (strip_prefix p (c ∷ s))) [
  | inr (r, e) ↦ inl (ground arith, ground arith)
  | inl e ↦ elim (Option-cases (split_once p s)) [
    | inl none' ↦ absurd (ground arith)
    | inr ((b, a), found) ↦ inr (b, e, ground arith, ground arith)
  ]
]

length-split_once :
    (p s before after : Text) → split_once p s ≡ some (before, after) → length p ≤ length s
unfolding split_once
length-split_once [] s before after h = omega arith
length-split_once (a ∷ p) [] before after h = absurd (ground arith)
length-split_once (a ∷ p) (c ∷ s) before after h =
    elim (split_once-cons (a ∷ p) c s before after h) [
      | inl (e, _) ↦ length-strip_prefix (a ∷ p) (c ∷ s) after e
      | inr (b, _, found, _) ↦ omega (arith, length-split_once (a ∷ p) s b after found)
    ]

-- A text that splits still splits at the same place when more is appended.
pub split_once-append :
    (p s t before after : Text)
    → split_once p s ≡ some (before, after)
    → split_once p (s ++ t) ≡ some (before, after ++ t)
unfolding split_once
split_once-append [] [] [] before after h = ground arith
split_once-append [] [] (c ∷ t) before after h = ground arith
split_once-append (a ∷ p) [] t before after h = absurd (ground arith)
split_once-append p (c ∷ s) t before after h = elim (split_once-cons p c s before after h) [
  | inl (e, b) ↦ ground (arith, strip_prefix-append p (c ∷ s) t after e)
  | inr (b, e, found, same) ↦
      let room = length-split_once p s b after found in
      let still = strip_prefix-append_none p (c ∷ s) t (omega arith) e in
      ground (arith, split_once-append p s t b after found)
]

pub split_at_char-cons :
    (c : ℕ) (s : Text)
    → (first : Text) × (others : List Text) × (split_at_char c s ≡ first ∷ others)
unfolding split_at_char
split_at_char-cons c [] = ([], [], refl)
split_at_char-cons c (x ∷ s) =
    let (first, others, e) = split_at_char-cons c s in
    elim (Bool-cases (x == c)) [
      | inl cut ↦ ([], first ∷ others, ground arith)
      | inr kept ↦ (x ∷ first, others, ground arith)
    ]

-- All segments but the last stay what they are when text is appended.
pub split_at_char-append :
    (c : ℕ) (s t : Text) (whole : List Text) (last : Text) (rest : List Text)
    → split_at_char c s ≡ whole ++ last ∷ rest
    → (last' : Text) × (rest' : List Text) × (split_at_char c (s ++ t) ≡ whole ++ last' ∷ rest')
unfolding split_at_char
split_at_char-append c s t [] last rest h = split_at_char-cons c (s ++ t)
split_at_char-append c [] t (w ∷ []) last rest h = absurd (ground arith)
split_at_char-append c [] t (w ∷ v ∷ ws) last rest h = absurd (ground arith)
split_at_char-append c (x ∷ s) t (w ∷ ws) last rest h =
    let (first, others, e) = split_at_char-cons c s in
    elim (Bool-cases (x == c)) [
      | inl cut ↦
          let (l, r, again) = split_at_char-append c s t ws last rest (ground arith) in
          (l, r, ground arith)
      | inr kept ↦
          let (l, r, again) = split_at_char-append c s t (first ∷ ws) last rest (ground arith) in
          (l, r, ground arith)
    ]

-- A text that ends with the separator splits into two segments at least, the last one empty.
pub split_at_char-ends_with :
    (c : ℕ) (s : Text)
    → ends_with_char c s ≡ true
    → (first : Text) × (middle : List Text) × (split_at_char c s ≡ first ∷ (middle ++ [] ∷ []))
unfolding split_at_char
split_at_char-ends_with c [] h = absurd (ground arith)
split_at_char-ends_with c (x ∷ []) h = ([], [], ground arith)
split_at_char-ends_with c (x ∷ y ∷ s) h =
    let (first, middle, e) = split_at_char-ends_with c (y ∷ s) h in
    elim (Bool-cases (x == c)) [
      | inl cut ↦ ([], first ∷ middle, ground arith)
      | inr kept ↦ (x ∷ first, middle, ground arith)
    ]

-- The text holds no such character.
abbrev pub Lacks : ℕ → Text → Type 0
Lacks c = All (λ x. x ≢ c)

pub split_at_char_of_Lacks : (c : ℕ) (s : Text) → Lacks c s → split_at_char c s ≡ s ∷ []
unfolding split_at_char
split_at_char_of_Lacks c [] h = refl
split_at_char_of_Lacks c (x ∷ s) (ne, h) = ground (arith, split_at_char_of_Lacks c s h, ==_iff x c)

-- Splitting at a separator that stands in the text splits the two sides.
pub split_at_char-join :
    (c : ℕ) (s t : Text) → split_at_char c (s ++ c ∷ t) ≡ split_at_char c s ++ split_at_char c t
unfolding split_at_char
split_at_char-join c [] t = ground (arith, ==_iff c c)
split_at_char-join c (x ∷ s) t =
    let (first, others, e) = split_at_char-cons c s in ground (arith, split_at_char-join c s t)

pub strip_prefix-eq : (p s r : Text) → strip_prefix p s ≡ some r → s ≡ p ++ r
strip_prefix-eq [] s r h = ground arith
strip_prefix-eq (a ∷ p) [] r h = absurd (ground arith)
strip_prefix-eq (a ∷ p) (x ∷ s) r h = ground (arith, strip_prefix-eq p s r)

pub strip_prefix-append_self : (p r : Text) → strip_prefix p (p ++ r) ≡ some r
strip_prefix-append_self [] r = refl
strip_prefix-append_self (a ∷ p) r = ground (arith, strip_prefix-append_self p r)

pub is_empty-append : (s : Text) (c : ℕ) (t : Text) → is_empty (s ++ c ∷ t) ≡ false
is_empty-append [] c t = refl
is_empty-append (_ ∷ s) c t = refl

-- The first occurrence of a character.
pub split_once_of_Lacks :
    (c : ℕ) (s t : Text) → Lacks c s → split_once (c ∷ []) (s ++ c ∷ t) ≡ some (s, t)
unfolding split_once
split_once_of_Lacks c [] t _ = ground arith
split_once_of_Lacks c (x ∷ s) t (other, h) = ground (arith, split_once_of_Lacks c s t h)

length-strip_prefix_after :
    (p s r : Text) → strip_prefix p s ≡ some r → length p + length r ≡ length s
length-strip_prefix_after [] s r h = ground arith
length-strip_prefix_after (a ∷ p) [] r h = absurd (ground arith)
length-strip_prefix_after (a ∷ p) (x ∷ s) r h = ground (arith, length-strip_prefix_after p s r)

-- A split leaves less than there was.
pub length-split_once_after :
    (p : ℕ) (ps s before after : Text)
    → split_once (p ∷ ps) s ≡ some (before, after)
    → length after < length s
unfolding split_once
length-split_once_after p ps [] before after h = absurd (ground arith)
length-split_once_after p ps (c ∷ s) before after h =
    elim (split_once-cons (p ∷ ps) c s before after h) [
      | inl (e, _) ↦ omega (arith, length-strip_prefix_after (p ∷ ps) (c ∷ s) after e)
      | inr (b, _, found, _) ↦ omega (arith, length-split_once_after p ps s b after found)
    ]

-- A text that splits is its parts around the pattern.
pub split_once-eq :
    (p s before after : Text) → split_once p s ≡ some (before, after) → s ≡ before ++ (p ++ after)
unfolding split_once
split_once-eq [] [] before after h = ground arith
split_once-eq (a ∷ p) [] before after h = absurd (ground arith)
split_once-eq p (c ∷ s) before after h = elim (split_once-cons p c s before after h) [
  | inl (e, b) ↦ strip_prefix-eq p (c ∷ s) after e ∙ ap (λ x. x ++ (p ++ after)) (sym b)
  | inr (b, _, found, same) ↦
      ap (λ x. c ∷ x) (split_once-eq p s b after found) ∙ ap (λ x. x ++ (p ++ after)) (sym same)
]

-- ===== src/Common/Joins.antt =====
-- Lemmas on `split` at a character and `join` with one.
use rustberg.Common.Strings.{Text, split_at_char, join}
use rustberg.Common.Tests.{==_iff, ◌==◌, Bool-cases}
use rustberg.Common.Lists.{All}
use rustberg.Common.Splits.{Lacks, split_at_char-cons, split_at_char-join, split_at_char_of_Lacks}
use Prim.Native.Nat.{ℕ}
use mathlib.Core.Path.{subst, ◌≡◌, refl, sym, ap, ap₂, ◌∙◌}
use mathlib.Core.Logic.{inl, inr}
use mathlib.Core.List.{List, [], ◌∷◌}
use native.Mathlib.Omega.{arith}

pub split-join :
    (c : ℕ) (s : Text) (ss : List Text)
    → All (Lacks c) (s ∷ ss)
    → split_at_char c (join c (s ∷ ss)) ≡ s ∷ ss
unfolding join
split-join c s [] (h, _) = split_at_char_of_Lacks c s h
split-join c s (t ∷ ss) (h, k) =
    rw (split_at_char-join c s (join c (t ∷ ss)), split_at_char_of_Lacks c s h, split-join c t ss k)
      refl

join_push : (c x : ℕ) (s : Text) (ss : List Text) → join c ((x ∷ s) ∷ ss) ≡ x ∷ join c (s ∷ ss)
unfolding join
join_push c x s [] = refl
join_push c x s (t ∷ ss) = refl

-- Splitting and joining are inverse.
pub join-split : (c : ℕ) (s : Text) → join c (split_at_char c s) ≡ s
unfolding split_at_char join
join-split c [] = refl
join-split c (x ∷ s) =
    let (first, others, e) = split_at_char-cons c s in
    elim (Bool-cases (x == c)) [
      | inl cut ↦
          let whole : join c (first ∷ others) ≡ s = ap (join c) (sym e) ∙ join-split c s in
          rw (cut, e) (ap₂ ◌∷◌ (sym ((==_iff x c).0 cut)) whole)
      | inr kept ↦
          let whole : join c (first ∷ others) ≡ s = ap (join c) (sym e) ∙ join-split c s in
          rw (kept, e) (join_push c x first others ∙ ap (λ t. x ∷ t) whole)
    ]

pub split_at_char-Lacks : (c : ℕ) (s : Text) → All (Lacks c) (split_at_char c s)
unfolding split_at_char
split_at_char-Lacks c [] = (tt, tt)
split_at_char-Lacks c (x ∷ s) =
    let (first, others, e) = split_at_char-cons c s in
    let (h, k) = subst (All (Lacks c)) e (split_at_char-Lacks c s) in
    elim (Bool-cases (x == c)) [
      | inl cut ↦ rw (cut, e) (tt, (h, k))
      | inr kept ↦ rw (kept, e) ((ground (arith, ==_iff x c), h), k)
    ]

-- What every character is, every character of every part is.
pub split_at_char-All {ℓ} :
    (P : ℕ → Type ℓ) (c : ℕ) (s : Text) → All P s → All (All P) (split_at_char c s)
unfolding split_at_char
split_at_char-All P c [] h = (tt, tt)
split_at_char-All P c (x ∷ s) (k, h) =
    let (first, others, e) = split_at_char-cons c s in
    let (a, b) = subst (All (All P)) e (split_at_char-All P c s h) in
    elim (Bool-cases (x == c)) [
      | inl cut ↦ rw (cut, e) (tt, (a, b))
      | inr kept ↦ rw (kept, e) ((k, a), b)
    ]

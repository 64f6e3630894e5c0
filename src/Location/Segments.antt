-- ===== src/Location/Segments.antt =====
-- Facts about the segment functions of src/location.rs: the zip test is the prefix relation, and
-- trimming a root.
use mathlib.Core.List.{append_assoc}
use rustberg.Common.{
  ℕ, ◌==◌, ap, length-append, ◌≤◌, Text, text_eq, text_eq_iff, true, false, ◌≡◌, refl, ◌≢◌, ◌↔◌,
  List, [], ◌∷◌, ◌++◌, any, Bool-cases, inl, inr, is_empty, ◌&&◌, All, arith, length,
}
use rustberg.Location.{strip_slash, dot_dot, trim_empty, zip_all_eq, within_segments}

-- The segments of `candidate` begin with those of `root`.
abbrev pub StartsWith : List Text → List Text → Type 0
StartsWith root candidate = (rest : List Text) × (candidate ≡ root ++ rest)

abbrev pub NoTraversal : List Text → Type 0
NoTraversal = All (λ s. s ≢ dot_dot)

pub no_dot_dot_iff : (ss : List Text) → (any (λ s. text_eq s dot_dot) ss ≡ false) ↔ NoTraversal ss
no_dot_dot_iff [] = (λ _. tt, λ _. refl)
no_dot_dot_iff (s ∷ ss) = ground (arith, text_eq_iff s dot_dot, no_dot_dot_iff ss)

zip_sound :
    (root candidate : List Text)
    → length root ≤ length candidate
    → zip_all_eq root candidate ≡ true
    → StartsWith root candidate
unfolding zip_all_eq
zip_sound [] candidate l h = (candidate, refl)
zip_sound (a ∷ as') [] l h = absurd (omega arith)
zip_sound (a ∷ as') (b ∷ bs) l h =
    let same : a ≡ b = ground (arith, text_eq_iff a b) in
    let (rest, e) = zip_sound as' bs (omega arith) (ground arith) in (rest, cc)

zip_complete : (root rest : List Text) → zip_all_eq root (root ++ rest) ≡ true
unfolding zip_all_eq
zip_complete [] rest = refl
zip_complete (a ∷ as') rest = ground (arith, text_eq_iff a a, zip_complete as' rest)

pub within_segments_iff :
    (root candidate : List Text)
    → (within_segments root candidate ≡ true) ↔ (NoTraversal candidate × StartsWith root candidate)
unfolding within_segments
within_segments_iff root candidate = (
  λ h. (
    (no_dot_dot_iff candidate).0 (ground arith),
    zip_sound root candidate (ground arith) (ground arith),
  ),
  λ w.
      let (clean, (rest, e)) = w in
      let found = (no_dot_dot_iff candidate).1 clean in
      rw found (rw e (ground (arith, zip_complete root rest, length-append root rest))),
)

-- Trimmed segments stay whole in front of others.
trim_empty-append_of_trimmed :
    (ss rest : List Text) → trim_empty ss ≡ ss → trim_empty (ss ++ rest) ≡ ss ++ trim_empty rest
unfolding trim_empty
trim_empty-append_of_trimmed [] rest h = refl
trim_empty-append_of_trimmed (s ∷ []) rest h = ground arith
trim_empty-append_of_trimmed (s ∷ t ∷ ss) rest h =
    ground (arith, trim_empty-append_of_trimmed (t ∷ ss) rest)

pub trim_empty_idem : (ss : List Text) → trim_empty (trim_empty ss) ≡ trim_empty ss
unfolding trim_empty
trim_empty_idem [] = refl
trim_empty_idem (s ∷ ss) = ground (arith, trim_empty_idem ss)

pub trim_empty-append :
    (ss rest : List Text) → trim_empty (trim_empty ss ++ rest) ≡ trim_empty ss ++ trim_empty rest
trim_empty-append ss rest = trim_empty-append_of_trimmed (trim_empty ss) rest (trim_empty_idem ss)

pub trim_empty-StartsWith : (ss : List Text) → StartsWith (trim_empty ss) ss
unfolding trim_empty
trim_empty-StartsWith [] = ([], refl)
trim_empty-StartsWith (s ∷ ss) = elim (Bool-cases (is_empty (trim_empty ss) && is_empty s)) [
  | inl gone ↦ rw gone (s ∷ ss, refl)
  | inr kept ↦ rw kept (let (rest, e) = trim_empty-StartsWith ss in (rest, ap (λ l. s ∷ l) e))
]

-- A prefix of segments whose own root is trimmed is a prefix of the trimmed segments.
pub StartsWith-trans :
    (a b c : List Text)
    → StartsWith (trim_empty a) b
    → StartsWith (trim_empty b) c
    → StartsWith (trim_empty a) c
StartsWith-trans a b c (r, e) (s, f) =
    (trim_empty r ++ s, rw (f, e, trim_empty-append) (append_assoc (trim_empty a) (trim_empty r) s))

length-trim_empty_closed : (ss : List Text) → length (trim_empty (ss ++ [] ∷ [])) ≤ length ss
unfolding trim_empty
length-trim_empty_closed [] = omega arith
length-trim_empty_closed (s ∷ ss) = ground (arith, length-trim_empty_closed ss)

-- Segments that end with an empty one are not trimmed.
pub trim_empty-ne_closed : (ss : List Text) → trim_empty (ss ++ [] ∷ []) ≢ ss ++ [] ∷ []
trim_empty-ne_closed ss e =
    let longer : length (trim_empty (ss ++ [] ∷ [])) ≡ length (ss ++ [] ∷ []) = ap length e in
    absurd (omega (arith, length-trim_empty_closed ss, length-append ss ([] ∷ [])))

pub strip_slash_of_slash : (c : ℕ) (s : Text) → (b'/' == c) ≡ true → strip_slash (c ∷ s) ≡ s
unfolding strip_slash
strip_slash_of_slash c s h = ground arith

pub strip_slash_of_other : (c : ℕ) (s : Text) → (b'/' == c) ≡ false → strip_slash (c ∷ s) ≡ c ∷ s
unfolding strip_slash
strip_slash_of_other c s h = ground arith

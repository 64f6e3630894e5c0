-- ===== src/Names/Chain/Recorded.antt =====
-- src/names.rs: what is recorded of a chain of views.
use mathlib.Core.Path.{subst}
use mathlib.Core.List.{append_assoc}
use rustberg.Common.{
  ap, sym, ◌∙◌, ◌≡◌, ◌≢◌, ◌↔◌, refl, ℕ, Text, false, Bool-cases, inl, inr, All, Option, none, some,
  List, [], ◌∷◌, ◌++◌, any, not, length, ltb, ok, err, Result, is_empty, split_at_char, join, arith,
  ◌≤◌, ◌||◌, if◌then◌else◌,
}
use rustberg.Common.Options.{◌>>=◌, >>=-eq-some}
use rustberg.Names.{Unicode, AppError, view_chain, validate_name}
use rustberg.Names.Accepted.{IsUnicode, IsName, validate_name_iff}
use rustberg.Names.Chain.{
  percent_decode, pop, is_err, render, is_unnamed, read_identifier, read_identifiers,
  parse_view_chain,
}
use rustberg.Redb.Keys.{part_separator}

-- What `pop` takes apart.
popped :
    (s : Text) (ss : List Text)
    → (rest : List Text) × (last : Text) × (pop (s ∷ ss) ≡ some (rest, last))
      × (s ∷ ss ≡ rest ++ last ∷ [])
unfolding pop
popped s [] = ([], s, refl, refl)
popped s (t ∷ ss) =
    let (rest, last, e, same) = popped t ss in
    (s ∷ rest, last, rw (pop, e) refl, ap (λ l. s ∷ l) same)

join-snoc :
    (c : ℕ) (s last : Text) (rest : List Text)
    → join c (s ∷ rest) ++ c ∷ last ≡ join c (s ∷ (rest ++ last ∷ []))
unfolding join
join-snoc c s last [] = refl
join-snoc c s last (t ∷ rest) =
    append_assoc s (c ∷ join c (t ∷ rest)) (c ∷ last)
    ∙ ap (λ l. s ++ c ∷ l) (join-snoc c t last rest)

-- Two segments or more are rendered with slashes between them.
pop-render :
    (s t : Text) (ss : List Text)
    → (pop (s ∷ t ∷ ss) >>= λ p. some (render p)) ≡ some (join b'/' (s ∷ t ∷ ss))
unfolding pop render
pop-render s t ss =
    let (rest, last, e, same) = popped t ss in
    rw (pop, e) (ap some (join-snoc b'/' s last rest ∙ ap (λ l. join b'/' (s ∷ l)) (sym same)))

-- Names that can be recorded: a namespace of a level at least, and a view.
pub record IsView (u : Unicode) (segments : List Text) : Type 0 where
  pub two : 2 ≤ length segments
  pub names : All (IsName u) segments

-- A recorded identifier is a view's.
abbrev pub IsRecorded : Unicode → Text → Type 0
IsRecorded u identifier =
    (segments : List Text) × IsView u segments × (identifier ≡ join b'/' segments)

is_err-ok : (r : Result (Unit {0}) AppError) → is_err r ≡ false → r ≡ ok tt
is_err-ok (ok tt) h = refl
is_err-ok (err e) h = cc

named_iff :
    (u : Unicode) (ss : List Text)
    → IsUnicode u
    → (any (is_unnamed u) ss ≡ false) ↔ All (IsName u) ss
unfolding is_unnamed
named_iff u [] h = (λ _. tt, λ _. refl)
named_iff u (s ∷ ss) h = (
  λ e. (
    (validate_name_iff u s view_chain h).0
        (is_err-ok (validate_name u s view_chain) (ground arith)),
    (named_iff u ss h).0 (ground arith),
  ),
  λ (name, names).
      ground (arith, (validate_name_iff u s view_chain h).1 name, (named_iff u ss h).1 names),
)

-- An identifier is read exactly if it is a view's.
pub read_identifier-view :
    (u : Unicode) (segments : List Text)
    → IsUnicode u
    → IsView u segments
    → read_identifier u segments ≡ some (join b'/' segments)
unfolding read_identifier
read_identifier-view u [] h v = absurd (omega (arith, v.two))
read_identifier-view u (s ∷ []) h v = absurd (omega (arith, v.two))
read_identifier-view u (s ∷ t ∷ ss) h v =
    let long : ltb (length (s ∷ t ∷ ss)) 2 ≡ false = ground arith in
    let named = (named_iff u (s ∷ t ∷ ss) h).1 v.names in
    rw (read_identifier, long, named) (pop-render s t ss)

read_identifier-some :
    (u : Unicode) (segments : List Text) (identifier : Text)
    → IsUnicode u
    → read_identifier u segments ≡ some identifier
    → IsView u segments
unfolding read_identifier
read_identifier-some u segments identifier h e =
    elim (Bool-cases (ltb (length segments) 2 || any (is_unnamed u) segments)) [
      | inl refused ↦ absurd (ground arith)
      | inr read ↦ record { two = ground arith; names = (named_iff u segments h).0 (ground arith) }
    ]

cons_ne : {s : Text} {ss : List Text} → s ∷ ss ≢ []
cons_ne e = cc

none_ne : {chain : List Text} → none ≢ some chain
none_ne e = cc

some-inj : {A : Type 0} {a b : A} → some a ≡ some b → a ≡ b
some-inj e = cc

read_identifier-IsRecorded :
    (u : Unicode) (segments : List Text) (identifier : Text)
    → IsUnicode u
    → read_identifier u segments ≡ some identifier
    → IsRecorded u identifier
read_identifier-IsRecorded u segments identifier h e =
    let view = read_identifier-some u segments identifier h e in
    (segments, view, some-inj (sym e ∙ read_identifier-view u segments h view))

identifiers-IsRecorded :
    (u : Unicode) (raws chain : List Text)
    → IsUnicode u
    → read_identifiers u raws ≡ some chain
    → All (IsRecorded u) chain
unfolding read_identifiers
identifiers-IsRecorded u [] chain h e = subst (All (IsRecorded u)) (some-inj e) tt
identifiers-IsRecorded u (raw ∷ raws) chain h e =
    let (decoded, _, e1) = >>=-eq-some (percent_decode raw) _ e in
    let segments = split_at_char part_separator decoded in
    let (identifier, read, e2) = >>=-eq-some (read_identifier u segments) _ e1 in
    let (rest, more, e3) = >>=-eq-some (read_identifiers u raws) _ e2 in
    subst (All (IsRecorded u)) (some-inj e3) (
      read_identifier-IsRecorded u segments identifier h read,
      identifiers-IsRecorded u raws rest h more,
    )

abbrev some_chain : List Text → Option (List Text)
some_chain chain = if not (is_empty chain) then some chain else none

some_chain-eq :
    (chain last : List Text) → some_chain chain ≡ some last → (last ≢ []) × (chain ≡ last)
some_chain-eq [] last e = absurd (cc e)
some_chain-eq (s ∷ ss) last e = (λ empty. absurd (cons_ne (some-inj e ∙ empty)), some-inj e)

-- Whatever is recorded of a parameter is a chain of one view at least, each of a namespace and a
-- name that are acceptable, so that no control or bidirectional character reaches the record.
pub parse_view_chain-IsRecorded :
    (u : Unicode) (raw : Text) (chain : List Text)
    → IsUnicode u
    → parse_view_chain u raw ≡ some chain
    → (chain ≢ []) × All (IsRecorded u) chain
unfolding parse_view_chain
parse_view_chain-IsRecorded u raw chain h e = elim (Bool-cases (is_empty raw)) [
  | inl empty ↦
      let at : parse_view_chain u raw ≡ none = rw (parse_view_chain, empty) refl in
      absurd (none_ne (sym at ∙ e))
  | inr full ↦
      let at : parse_view_chain u raw
          ≡ (read_identifiers u (split_at_char b',' raw) >>= some_chain) =
        rw (parse_view_chain, full) refl in
      let (read, found, last) =
        >>=-eq-some (read_identifiers u (split_at_char b',' raw)) some_chain (sym at ∙ e) in
      let (ne, same) = some_chain-eq read chain last in
      (ne, identifiers-IsRecorded u (split_at_char b',' raw) chain h (found ∙ ap some same))
]

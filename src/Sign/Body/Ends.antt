-- ===== src/Sign/Body/Ends.antt =====
-- src/catalog/v1/sign.rs: the scanner of a `DeleteObjects` body comes to an end.
use rustberg.Common.{
  ap, sym, ◌∙◌, ℕ, zero, suc, ◌<◌, ◌≡◌, ◌≢◌, refl, Text, codes, Bool-cases, Option-cases,
  Result-cases, inl, inr, Option, none, some, List, [], ◌∷◌, length, Result, ok, err, ok_or, ◌>>=◌,
  is_empty, split_once, starts_with_char, not, arith, >>=-eq-ok,
}
use rustberg.Common.Splits.{length-split_once_after}
use rustberg.Sign.{
  BodyFault, inner_instruction, open_declaration, open_tag, no_objects, unclosed_element,
}
use rustberg.Sign.Body.{
  Scan, refuse, require_blank, read_text, read_tag, read_declaration, read_element, read_markup,
  turn, scan, finish, start, delete_keys,
}

ok_or-found : {A : Type 0} (e : BodyFault) (o : Option A) (a : A) → ok_or e o ≡ ok a → o ≡ some a
ok_or-found e none a h = cc
ok_or-found e (some b) a h = cc

read_declaration_shorter :
    (after left : Text) (st st' : Scan)
    → read_declaration after st ≡ ok (left, st')
    → length left < length after
unfolding read_declaration
read_declaration_shorter after left st st' h =
    let (_, _, h1) = >>=-eq-ok (refuse (not (is_empty st.open_names)) inner_instruction) _ h in
    let ((before, rest), found, h2) =
      >>=-eq-ok (ok_or open_declaration (split_once (codes "?>") after)) _ h1 in
    let same : rest ≡ left = cc in
    let shorter =
      length-split_once_after b'?' (codes ">") after before rest
        (ok_or-found open_declaration _ (before, rest) found) in
    ground arith

read_element_shorter :
    (after left : Text) (st st' : Scan)
    → read_element after st ≡ ok (left, st')
    → length left < length after
unfolding read_element
read_element_shorter after left st st' h =
    let ((tag, rest), found, h1) = >>=-eq-ok (ok_or open_tag (split_once (codes ">") after)) _ h in
    let (next, _, h2) = >>=-eq-ok (read_tag tag st) _ h1 in
    let same : rest ≡ left = cc in
    let shorter =
      length-split_once_after b'>' [] after tag rest (ok_or-found open_tag _ (tag, rest) found) in
    ground arith

read_markup_shorter :
    (after left : Text) (st st' : Scan)
    → read_markup after st ≡ ok (left, st')
    → length left < length after
unfolding read_markup
read_markup_shorter after left st st' h = elim (Bool-cases (starts_with_char b'?' after)) [
  | inl instruction ↦ read_declaration_shorter after left st st' (ground arith)
  | inr other ↦ elim (Bool-cases (starts_with_char b'!' after)) [
    | inl excl ↦ absurd (ground arith)
    | inr plain ↦ read_element_shorter after left st st' (ground arith)
  ]
]

abbrev with_keys : List Text → Scan → Scan
with_keys keys st = record { open_names = st.open_names; keys = keys; root_closed = st.root_closed }

-- A turn at a tag.
abbrev turn_text : Text → Text → Scan → Result (Option (Text × Scan)) BodyFault
turn_text text after st = do
  keys ← read_text st.open_names st.keys text
  next ← read_markup after (with_keys keys st)
  ok (some next)

-- A turn takes something of the body.
pub turn_shorter :
    (rest left : Text) (st st' : Scan)
    → turn rest st ≡ ok (some (left, st'))
    → length left < length rest
unfolding turn
turn_shorter rest left st st' h = elim (Option-cases (split_once (codes "<") rest)) [
  | inl e ↦
      let at : turn rest st ≡ (require_blank rest >>= λ _. ok none) = rw (turn, e) refl in
      let (_, _, last) = >>=-eq-ok (require_blank rest) _ (sym at ∙ h) in absurd (ground arith)
  | inr ((text, after), e) ↦
      let at : turn rest st ≡ turn_text text after st = rw (turn, e) refl in
      let (keys, _, marked) = >>=-eq-ok (read_text st.open_names st.keys text) _ (sym at ∙ h) in
      let (next, read, last) = >>=-eq-ok (read_markup after (with_keys keys st)) _ marked in
      let same : next ≡ (left, st') = cc in
      let inner = read_markup_shorter after left (with_keys keys st) st' (read ∙ ap ok same) in
      let outer = length-split_once_after b'<' [] rest text after e in omega arith
]

scan_ends : (fuel : ℕ) (rest : Text) (st : Scan) → length rest < fuel → scan fuel rest st ≢ ok none
unfolding scan
scan_ends zero rest st lt h = absurd (omega arith)
scan_ends (suc fuel) [] st lt h = absurd (ground arith)
scan_ends (suc fuel) (c ∷ s) st lt h = elim (Result-cases (turn (c ∷ s) st)) [
  | inr (e, fails) ↦
      let at : scan (suc fuel) (c ∷ s) st ≡ err e = rw (scan, fails) refl in absurd (ground arith)
  | inl (none, e) ↦
      let at : scan (suc fuel) (c ∷ s) st ≡ ok (some st) = rw (scan, e) refl in
      absurd (ground arith)
  | inl (some (left, st'), e) ↦
      let at : scan (suc fuel) (c ∷ s) st ≡ scan fuel left st' = rw (scan, e) refl in
      let shorter : length left < length (c ∷ s) = turn_shorter (c ∷ s) left st st' e in
      scan_ends fuel left st' (omega arith) (sym at ∙ h)
]

finish-some : (st : Scan) → finish (some st) ≢ ok none
unfolding finish
finish-some st h =
    let (_, _, h1) = >>=-eq-ok (refuse (not (is_empty st.open_names)) unclosed_element) _ h in
    let (_, _, h2) = >>=-eq-ok (refuse (is_empty st.keys) no_objects) _ h1 in absurd (ground arith)

-- The scanner has turns enough for every body: it names the keys or says what is wrong.
pub delete_keys_ends : (body : Text) → delete_keys body ≢ ok none
unfolding delete_keys
delete_keys_ends body h =
    let (st, scanned, h1) = >>=-eq-ok (scan (suc (length body)) body start) finish h in
    elim (Option-cases st) [
      | inl e ↦ scan_ends (suc (length body)) body start (omega arith) (scanned ∙ ap ok e)
      | inr (st', e) ↦ finish-some st' (sym (ap finish e) ∙ h1)
    ]

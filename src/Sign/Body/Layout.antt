-- ===== src/Sign/Body/Layout.antt =====
-- src/catalog/v1/sign.rs: the body of a `DeleteObjects` as a client writes it, and what its texts are
-- read as.
use rustberg.Common.{
  ap, sym, ◌∙◌, ℕ, ◌≡◌, Bool, Option, none, All, is_whitespace, trim, trim_start, trim_end, ◌≢◌,
  refl, Text, codes, true, false, Bool-cases, inl, inr, some, List, [], ◌∷◌, ◌++◌, ok, ◌==◌,
  if◌then◌else◌, any, arith, ==_iff, All-append,
}
use rustberg.Common.Splits.{Lacks}
use rustberg.Sign.Body.{require_blank, resolve_entities, decode_entities}

-- How a body is laid out: with the declaration of XML, with the namespace of S3 on its root, with
-- white space between the elements, and with which of `>`, `"` and `'` as entities.
pub record Layout : Type 0 where
  pub declared : Bool
  pub namespaced : Bool
  pub gap : Text
  pub as_entity : ℕ → Bool

-- An object to delete.
pub record Object : Type 0 where
  pub key : Text
  pub version_id : Option Text

entity_of : ℕ → Text
entity_of c =
    if c == b'>'
    then codes "&gt;"
    else if c == b'"'
    then codes "&quot;"
    else if c == 0x27
    then codes "&apos;"
    else c ∷ []

-- A character as the content of an element: `&` and `<` as entities, others as the layout says.
unfoldable pub escape_char : (ℕ → Bool) → ℕ → Text
unfolding entity_of
escape_char as_entity c =
    if c == b'&'
    then codes "&amp;"
    else if c == b'<'
    then codes "&lt;"
    else if as_entity c
    then entity_of c
    else c ∷ []

unfoldable pub escape_text : (ℕ → Bool) → Text → Text
unfolding escape_char
escape_text as_entity [] = []
escape_text as_entity (c ∷ s) = escape_char as_entity c ++ escape_text as_entity s

unfoldable pub declaration_of : Bool → Text → Text → Text
declaration_of false gap rest = rest
declaration_of true gap rest = codes "<?xml version=\"1.0\" encoding=\"UTF-8\"?>" ++ (gap ++ rest)

unfoldable pub root_of : Bool → Text → Text
root_of false rest = codes "<Delete>" ++ rest
root_of true rest = codes "<Delete xmlns=\"http://s3.amazonaws.com/doc/2006-03-01/\">" ++ rest

unfoldable pub version_of : Layout → Option Text → Text → Text
unfolding escape_text
version_of layout none rest = rest
version_of layout (some v) rest =
    layout.gap
    ++ (codes "<VersionId>" ++ (escape_text layout.as_entity v ++ (codes "</VersionId>" ++ rest)))

unfoldable pub quiet_of : Layout → Bool → Text → Text
quiet_of layout false rest = rest
quiet_of layout true rest =
    layout.gap ++ (codes "<Quiet>" ++ (codes "true" ++ (codes "</Quiet>" ++ rest)))

unfoldable pub object_of : Layout → Object → Text → Text
unfolding escape_text version_of
object_of layout object rest =
    layout.gap
    ++ (codes "<Object>"
        ++ (layout.gap
            ++ (codes "<Key>"
                ++ (escape_text layout.as_entity object.key
                    ++ (codes "</Key>"
                        ++ version_of layout object.version_id
                            (layout.gap ++ (codes "</Object>" ++ rest)))))))

unfoldable pub objects_of : Layout → List Object → Text → Text
unfolding object_of
objects_of layout [] rest = rest
objects_of layout (object ∷ objects) rest = object_of layout object (objects_of layout objects rest)

-- A body: the objects in order, and whether the answer is to be quiet.
unfoldable pub body_of : Layout → List Object → Bool → Text
unfolding declaration_of root_of objects_of quiet_of
body_of layout objects quiet = declaration_of layout.declared layout.gap (
    root_of layout.namespaced (
      objects_of layout objects
        (quiet_of layout quiet (layout.gap ++ (codes "</Delete>" ++ layout.gap)))))

abbrev pub keys_of : List Object → List Text
keys_of [] = []
keys_of (object ∷ objects) = object.key ∷ keys_of objects

-- White space.
abbrev pub IsGap : Text → Type 0
IsGap gap = All (λ c. is_whitespace c ≡ true) gap

pub gap-Lacks : (gap : Text) → IsGap gap → Lacks b'<' gap
gap-Lacks [] h = tt
gap-Lacks (c ∷ gap) (k, h) = (
  λ e. let differs : ◌≡◌ {A = Bool} false true = sym (ap (λ (x : ℕ). is_whitespace x) e) ∙ k in cc,
  gap-Lacks gap h,
)

trim_start_gap : (gap : Text) → IsGap gap → trim_start gap ≡ []
unfolding trim_start
trim_start_gap [] h = refl
trim_start_gap (c ∷ gap) (k, h) = rw (k, trim_start_gap gap h) refl

pub require_blank_gap : (gap : Text) → IsGap gap → require_blank gap ≡ ok tt
unfolding require_blank trim trim_end
require_blank_gap gap h = rw (trim_start_gap gap h) refl

resolve_plain_char :
    (c : ℕ) (s out : Text)
    → (c == b'&') ≡ false
    → resolve_entities 0 s ≡ ok out
    → resolve_entities 0 (c ∷ s) ≡ ok (c ∷ out)
unfolding resolve_entities
resolve_plain_char c s out e h = rw (resolve_entities, e, h) refl

resolve_entity :
    (c : ℕ) (s out : Text)
    → (c == b'&') ≡ false
    → resolve_entities 0 s ≡ ok out
    → resolve_entities 0 (entity_of c ++ s) ≡ ok (c ∷ out)
unfolding resolve_entities entity_of
resolve_entity c s out e h = elim (Bool-cases (c == b'>')) [
  | inl gt ↦ rw (gt, h) (ap (λ (x : ℕ). ok (x ∷ out)) (sym ((==_iff c b'>').0 gt)))
  | inr f ↦ elim (Bool-cases (c == b'"')) [
    | inl quot ↦ rw (f, quot, h) (ap (λ (x : ℕ). ok (x ∷ out)) (sym ((==_iff c b'"').0 quot)))
    | inr g ↦ elim (Bool-cases (c == 0x27)) [
      | inl apos ↦ rw (f, g, apos, h) (ap (λ (x : ℕ). ok (x ∷ out)) (sym ((==_iff c 0x27).0 apos)))
      | inr k ↦ rw (f, g, k) (resolve_plain_char c s out e h)
    ]
  ]
]

resolve_char :
    (as_entity : ℕ → Bool) (c : ℕ) (s out : Text)
    → resolve_entities 0 s ≡ ok out
    → resolve_entities 0 (escape_char as_entity c ++ s) ≡ ok (c ∷ out)
unfolding resolve_entities escape_char
resolve_char as_entity c s out h = elim (Bool-cases (c == b'&')) [
  | inl amp ↦ rw (amp, h) (ap (λ (x : ℕ). ok (x ∷ out)) (sym ((==_iff c b'&').0 amp)))
  | inr e ↦ elim (Bool-cases (c == b'<')) [
    | inl lt ↦ rw (e, lt, h) (ap (λ (x : ℕ). ok (x ∷ out)) (sym ((==_iff c b'<').0 lt)))
    | inr f ↦ elim (Bool-cases (as_entity c)) [
      | inl named ↦ rw (e, f, named) (resolve_entity c s out e h)
      | inr plain ↦ rw (e, f, plain) (resolve_plain_char c s out e h)
    ]
  ]
]

resolve-escape_text :
    (as_entity : ℕ → Bool) (s : Text) → resolve_entities 0 (escape_text as_entity s) ≡ ok s
unfolding escape_text resolve_entities
resolve-escape_text as_entity [] = refl
resolve-escape_text as_entity (c ∷ s) =
    resolve_char as_entity c (escape_text as_entity s) s (resolve-escape_text as_entity s)

resolve_plain : (s : Text) → any (λ c. c == b'&') s ≡ false → resolve_entities 0 s ≡ ok s
unfolding resolve_entities
resolve_plain [] h = refl
resolve_plain (c ∷ s) h =
    let plain : (c == b'&') ≡ false = ground arith in
    let rest : any (λ c. c == b'&') s ≡ false = ground arith in
    rw (resolve_entities, plain, resolve_plain s rest) refl

pub decode-escape_text :
    (as_entity : ℕ → Bool) (s : Text) → decode_entities (escape_text as_entity s) ≡ ok s
unfolding decode_entities
decode-escape_text as_entity s =
    let text = escape_text as_entity s in
    elim (Bool-cases (any (λ c. c == b'&') (escape_text as_entity s))) [
      | inl some_entity ↦ rw some_entity (resolve-escape_text as_entity s)
      | inr plain ↦ rw plain (sym (resolve_plain text plain) ∙ resolve-escape_text as_entity s)
    ]

entity_of-Lacks : (c : ℕ) → (c == b'<') ≡ false → Lacks b'<' (entity_of c)
unfolding entity_of
entity_of-Lacks c h = ground arith

escape_char-Lacks : (as_entity : ℕ → Bool) (c : ℕ) → Lacks b'<' (escape_char as_entity c)
unfolding escape_char
escape_char-Lacks as_entity c = elim (Bool-cases (c == b'<')) [
  | inl lt ↦ ground arith
  | inr other ↦ let plain = entity_of-Lacks c other in ground arith
]

pub escape_text-Lacks : (as_entity : ℕ → Bool) (s : Text) → Lacks b'<' (escape_text as_entity s)
unfolding escape_text
escape_text-Lacks as_entity [] = tt
escape_text-Lacks as_entity (c ∷ s) =
    All-append (λ x. x ≢ b'<') (escape_char as_entity c) (escape_text as_entity s)
      (escape_char-Lacks as_entity c) (escape_text-Lacks as_entity s)

-- ===== src/Common/Percent.antt =====
-- Percent-escapes over bytes, as src/names.rs and src/catalog/v1/sign.rs both read them, and as the
-- latter writes them; numbers in base 16.
use Prim.Native.Nat.{ℕ, ◌+◌, ◌-◌, ◌*◌, ◌/◌, ◌%◌, ◌<◌}
use mathlib.Core.Path.{◌≡◌, refl, ap, ◌∙◌}
use mathlib.Core.Logic.{inl, inr}
use mathlib.Core.Bool.{Bool, true, false, ◌&&◌, ◌||◌}
use mathlib.Core.Option
use mathlib.Core.Option.{Option, none, some}
use mathlib.Core.List.{List, [], ◌∷◌}
use native.Mathlib.Omega.{arith}
use rustberg.Common.Tests.{leb, ltb, ◌==◌, if◌then◌else◌, Bool-cases}
use rustberg.Common.Lists.{All}
use rustberg.Common.Strings.{is_ascii_alphanumeric}

-- One digit of base 16.
unfoldable pub hex_digit : ℕ → Option ℕ
hex_digit c =
    if leb b'0' c && leb c b'9'
    then some (c - b'0')
    else if leb b'a' c && leb c b'f'
    then some (c - b'a' + 10)
    else if leb b'A' c && leb c b'F'
    then some (c - b'A' + 10)
    else none

-- `u8::from_str_radix` of two characters: the first may be a plus sign.
unfoldable pub hex_pair : ℕ → ℕ → Option ℕ
unfolding hex_digit
hex_pair c d = elim (hex_digit d) [
  | none ↦ none
  | some low ↦
      if c == b'+'
      then some low
      else elim (hex_digit c) [ none ↦ none | some high ↦ some (high * 16 + low) ]
]

-- The loop of `percent_decode`; `none` is a malformed escape.
unfoldable pub unescape : List ℕ → Option (List ℕ)
unfolding hex_pair
unescape [] = some []
unescape (b ∷ []) = if b == b'%' then none else some (b ∷ [])
unescape (b ∷ c ∷ []) =
    if b == b'%' then none else Option.map (λ (out : List ℕ). b ∷ out) (unescape (c ∷ []))
unescape (b ∷ c ∷ d ∷ bytes) = elim (b == b'%') [
  | true ↦ elim (hex_pair c d) [
    | none ↦ none
    | some hex ↦ Option.map (λ (out : List ℕ). hex ∷ out) (unescape bytes)
  ]
  | false ↦ Option.map (λ (out : List ℕ). b ∷ out) (unescape (c ∷ d ∷ bytes))
]

-- The bytes that a segment carries literally.
abbrev pub is_unreserved : ℕ → Bool
is_unreserved b = is_ascii_alphanumeric b || b == b'-' || b == b'.' || b == b'_' || b == b'~'

unfoldable pub upper_digit : ℕ → ℕ
upper_digit n = if ltb n 10 then b'0' + n else b'A' + (n - 10)

-- `encode_path_segment`, over the bytes; `%{other:02X}` is two digits.
unfoldable pub escape : List ℕ → List ℕ
unfolding upper_digit
escape [] = []
escape (b ∷ bytes) =
    let rest = escape bytes in
    if is_unreserved b then b ∷ rest else b'%' ∷ upper_digit (b / 16) ∷ upper_digit (b % 16) ∷ rest

digit_lem : (n : ℕ) → n < 16 → hex_digit (upper_digit n) ≡ some n
unfolding hex_digit upper_digit
digit_lem n h = ground arith

plain_lem : (n : ℕ) → n < 16 → (upper_digit n == b'+') ≡ false
unfolding upper_digit
plain_lem n h = ground arith

pair_lem : (b : ℕ) → b < 256 → hex_pair (upper_digit (b / 16)) (upper_digit (b % 16)) ≡ some b
unfolding hex_pair
pair_lem b h =
    rw
      (
        hex_pair,
        digit_lem (b % 16) (omega arith),
        plain_lem (b / 16) (omega arith),
        digit_lem (b / 16) (omega arith),
      )
      (ap some (omega arith))

-- A byte that begins no escape.
unescape_plain :
    (b : ℕ) (bytes : List ℕ)
    → (b == b'%') ≡ false
    → unescape (b ∷ bytes) ≡ Option.map (λ (out : List ℕ). b ∷ out) (unescape bytes)
unfolding unescape
unescape_plain b [] h = rw h refl
unescape_plain b (c ∷ []) h = rw h refl
unescape_plain b (c ∷ d ∷ bytes) h = rw (unescape, h) refl

unescape_pair :
    (b : ℕ) (bytes : List ℕ)
    → b < 256
    → unescape (b'%' ∷ upper_digit (b / 16) ∷ upper_digit (b % 16) ∷ bytes)
      ≡ Option.map (λ (out : List ℕ). b ∷ out) (unescape bytes)
unfolding unescape
unescape_pair b bytes h = rw (unescape, pair_lem b h) refl

unreserved_lem : (b : ℕ) → is_unreserved b ≡ true → (b == b'%') ≡ false
unreserved_lem b h = ground arith

-- What `escape` wrote is read back.
pub unescape-escape :
    (bytes : List ℕ) → All (λ b. b < 256) bytes → unescape (escape bytes) ≡ some bytes
unfolding escape unescape
unescape-escape [] h = refl
unescape-escape (b ∷ bytes) (lt, h) = elim (Bool-cases (is_unreserved b)) [
  | inl plain ↦ rw plain (
      unescape_plain b (escape bytes) (unreserved_lem b plain)
      ∙ ap (Option.map (λ (out : List ℕ). b ∷ out)) (unescape-escape bytes h))
  | inr other ↦ rw other (
      unescape_pair b (escape bytes) lt
      ∙ ap (Option.map (λ (out : List ℕ). b ∷ out)) (unescape-escape bytes h))
]

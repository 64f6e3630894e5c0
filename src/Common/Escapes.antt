-- ===== src/Common/Escapes.antt =====
-- A text that was percent-encoded: its characters, and what it is decoded to.
use rustberg.Common.Strings.{Text}
use rustberg.Common.Tests.{ltb, Bool-cases}
use rustberg.Common.Lists.{All, All-append}
use rustberg.Common.Splits.{Lacks}
use rustberg.Common.Utf8.{is_char, char_bytes, as_bytes}
use rustberg.Common.Percent.{escape, unescape, unescape-escape, is_unreserved, upper_digit}
use Prim.Native.Nat.{ℕ, ◌/◌, ◌%◌, ◌<◌}
use mathlib.Core.Path.{◌≡◌, refl, sym, ap, ◌∙◌}
use mathlib.Core.Logic.{◌≢◌, inl, inr}
use mathlib.Core.Bool.{true, false}
use mathlib.Core.Option.{some}
use mathlib.Core.List.{List, [], ◌∷◌}
use native.Mathlib.Omega.{arith}

-- Text of the characters that may be.
abbrev pub IsText : Text → Type 0
IsText = All (λ c. is_char c ≡ true)

char_bytes_lt : (c : ℕ) → is_char c ≡ true → All (λ b. b < 256) (char_bytes c)
unfolding char_bytes
char_bytes_lt c h = elim (Bool-cases (ltb c 0x80)) [
  | inl one ↦ rw one (ground arith, tt)
  | inr more ↦ rw more (elim (Bool-cases (ltb c 0x800)) [
    | inl two ↦ rw two (ground arith, (ground arith, tt))
    | inr more2 ↦ rw more2 (elim (Bool-cases (ltb c 0x10000)) [
      | inl three ↦ rw three (ground arith, (ground arith, (ground arith, tt)))
      | inr four ↦ rw four (ground arith, (ground arith, (ground arith, (ground arith, tt))))
    ])
  ])
]

as_bytes_lt : (s : Text) → IsText s → All (λ b. b < 256) (as_bytes s)
unfolding as_bytes
as_bytes_lt [] h = tt
as_bytes_lt (c ∷ s) (k, h) =
    All-append (λ b. b < 256) (char_bytes c) (as_bytes s) (char_bytes_lt c k) (as_bytes_lt s h)

upper_digit_lt : (n : ℕ) → n < 16 → upper_digit n < 0x80
unfolding upper_digit
upper_digit_lt n h = ground arith

escape_lt : (bytes : List ℕ) → All (λ b. b < 256) bytes → All (λ b. b < 0x80) (escape bytes)
unfolding escape
escape_lt [] h = tt
escape_lt (b ∷ bytes) (lt, h) = elim (Bool-cases (is_unreserved b)) [
  | inl plain ↦ rw plain (ground arith, escape_lt bytes h)
  | inr other ↦ rw other (
    omega arith,
    (
      upper_digit_lt (b / 16) (omega arith),
      (upper_digit_lt (b % 16) (omega arith), escape_lt bytes h),
    ),
  )
]

char_bytes_ascii : (c : ℕ) → c < 0x80 → char_bytes c ≡ c ∷ []
unfolding char_bytes
char_bytes_ascii c h = ground arith

pub as_bytes_ascii : (s : Text) → All (λ c. c < 0x80) s → as_bytes s ≡ s
unfolding as_bytes
as_bytes_ascii [] h = refl
as_bytes_ascii (c ∷ s) (k, h) = rw (char_bytes_ascii c k, as_bytes_ascii s h) refl

-- Every text that was encoded is decoded to its bytes.
pub unescape-escaped :
    (s : Text) → IsText s → unescape (as_bytes (escape (as_bytes s))) ≡ some (as_bytes s)
unescape-escaped s h =
    let lt = as_bytes_lt s h in
    ap unescape (as_bytes_ascii (escape (as_bytes s)) (escape_lt (as_bytes s) lt))
    ∙ unescape-escape (as_bytes s) lt

unreserved_lt : (c : ℕ) → is_unreserved c ≡ true → c < 0x80
unreserved_lt c h = ground arith

-- What needs no escape is written as it is.
pub escape_unreserved : (s : Text) → All (λ c. is_unreserved c ≡ true) s → escape (as_bytes s) ≡ s
unfolding escape as_bytes
escape_unreserved [] h = refl
escape_unreserved (c ∷ s) (k, h) =
    rw (char_bytes_ascii c (unreserved_lt c k), k, escape_unreserved s h) refl

true_ne_false : true ≢ false
true_ne_false e = cc

upper_digit_lem : (n : ℕ) → n < 16 → is_unreserved (upper_digit n) ≡ true
unfolding upper_digit
upper_digit_lem n h = ground arith

ne_unreserved : (b d : ℕ) → is_unreserved b ≡ true → is_unreserved d ≡ false → b ≢ d
ne_unreserved b d h k e = absurd (true_ne_false (sym h ∙ ap (λ x. is_unreserved x) e ∙ k))

escape-Lacks :
    (d : ℕ) (bytes : List ℕ)
    → is_unreserved d ≡ false
    → d ≢ b'%'
    → All (λ b. b < 256) bytes
    → Lacks d (escape bytes)
unfolding escape
escape-Lacks d [] k ne h = tt
escape-Lacks d (b ∷ bytes) k ne (lt, h) = elim (Bool-cases (is_unreserved b)) [
  | inl plain ↦ rw plain (ne_unreserved b d plain k, escape-Lacks d bytes k ne h)
  | inr other ↦
      let digit : (n : ℕ) → n < 16 → upper_digit n ≢ d =
        λ n l. ne_unreserved (upper_digit n) d (upper_digit_lem n l) k in
      rw other (
        λ e. ne (sym e),
        (digit (b / 16) (omega arith), (digit (b % 16) (omega arith), escape-Lacks d bytes k ne h)),
      )
]

-- A character that is always escaped does not stand in what is written.
pub escaped-Lacks :
    (d : ℕ) (s : Text)
    → is_unreserved d ≡ false
    → d ≢ b'%'
    → IsText s
    → Lacks d (escape (as_bytes s))
escaped-Lacks d s k ne h = escape-Lacks d (as_bytes s) k ne (as_bytes_lt s h)

-- ===== src/Common/Utf8.antt =====
-- `str::as_bytes` and `str::from_utf8`: a text and its bytes in UTF-8.
use Prim.Native.Nat.{ℕ, suc, ◌+◌, ◌-◌, ◌*◌, ◌/◌, ◌%◌, ◌≤◌, ◌<◌}
use mathlib.Core.Path.{◌≡◌, refl, ap, ◌∙◌}
use mathlib.Core.Logic.{inl, inr}
use mathlib.Core.Bool.{Bool, true, false, ◌&&◌, ◌||◌}
use mathlib.Core.Option
use mathlib.Core.Option.{Option, none, some}
use mathlib.Core.List.{List, [], ◌∷◌, ◌++◌}
use native.Mathlib.Omega.{arith}
use rustberg.Common.Tests.{leb, ltb, ◌==◌, if◌then◌else◌, Bool-cases}
use rustberg.Common.Lists.{All}
use rustberg.Common.Strings.{Text}

-- What a `char` may be: a code point that is no surrogate.
abbrev pub is_char : ℕ → Bool
is_char c = ltb c 0xd800 || leb 0xe000 c && ltb c 0x110000

unfoldable pub char_bytes : ℕ → List ℕ
char_bytes c =
    if ltb c 0x80
    then c ∷ []
    else if ltb c 0x800
    then (0xc0 + c / 64) ∷ (0x80 + c % 64) ∷ []
    else if ltb c 0x10000
    then (0xe0 + c / 4096) ∷ (0x80 + c / 64 % 64) ∷ (0x80 + c % 64) ∷ []
    else (0xf0 + c / 262144) ∷ (0x80 + c / 4096 % 64) ∷ (0x80 + c / 64 % 64) ∷ (0x80 + c % 64) ∷ []

unfoldable pub as_bytes : Text → List ℕ
unfolding char_bytes
as_bytes [] = []
as_bytes (c ∷ s) = char_bytes c ++ as_bytes s

-- What has been read of a character: how many bytes are missing, the least code point that takes as
-- many bytes as its first byte says, and the bits so far.
pub record Partial : Type 0 where
  pub missing : ℕ
  pub least : ℕ
  pub bits : ℕ

-- A first byte: a character, or the part of one, or neither.
unfoldable pub first_byte : ℕ → Option Partial
first_byte b =
    if ltb b 0x80
    then some (record { missing = 0; least = 0; bits = b })
    else if leb 0xc0 b && ltb b 0xe0
    then some (record { missing = 1; least = 0x80; bits = b - 0xc0 })
    else if leb 0xe0 b && ltb b 0xf0
    then some (record { missing = 2; least = 0x800; bits = b - 0xe0 })
    else if leb 0xf0 b && ltb b 0xf8
    then some (record { missing = 3; least = 0x10000; bits = b - 0xf0 })
    else none

-- One more byte of a character.
unfoldable pub next_byte : Partial → ℕ → Option Partial
next_byte p b =
    if leb 0x80 b && ltb b 0xc0
    then some (record { missing = p.missing - 1; least = p.least; bits = p.bits * 64 + (b - 0x80) })
    else none

unfoldable pub feed : Option Partial → ℕ → Option Partial
unfolding first_byte next_byte
feed none b = first_byte b
feed (some p) b = next_byte p b

-- The character that is complete, if it is one and could not be written with fewer bytes.
unfoldable pub completed : Partial → Option ℕ
completed p = if leb p.least p.bits && is_char p.bits then some p.bits else none

-- The end of the bytes, which is no place for a part.
ended : Option Partial → Option Text
ended none = some []
ended (some _) = none

-- The bytes after a part of a character.
unfoldable pub reading : Option Partial → List ℕ → Option Text
unfolding feed completed ended
reading part [] = ended part
reading part (b ∷ bytes) = elim (feed part b) [
  | none ↦ none
  | some p ↦ elim (p.missing == 0) [
    | true ↦ elim (completed p) [
      | none ↦ none
      | some c ↦ Option.map (λ (s : Text). c ∷ s) (reading none bytes)
    ]
    | false ↦ reading (some p) bytes
  ]
]

unfoldable pub from_utf8 : List ℕ → Option Text
unfolding reading
from_utf8 bytes = reading none bytes

abbrev partial : (missing least bits : ℕ) → Partial
partial missing least bits = record { missing = missing; least = least; bits = bits }

completed_lem :
    (least bits c : ℕ)
    → bits ≡ c
    → least ≤ c
    → is_char c ≡ true
    → completed (partial 0 least bits) ≡ some c
unfolding completed
completed_lem least bits c e l h = ground arith

-- A last byte of a character.
reading_last :
    (p : Option Partial) (b least bits c : ℕ) (s : List ℕ)
    → feed p b ≡ some (partial 0 least bits)
    → bits ≡ c
    → least ≤ c
    → is_char c ≡ true
    → reading p (b ∷ s) ≡ Option.map (λ (t : Text). c ∷ t) (reading none s)
unfolding reading
reading_last p b least bits c s e same l h =
    rw (reading, e, completed_lem least bits c same l h) refl

suc_lem : (n : ℕ) → (suc n == 0) ≡ false
suc_lem n = ground arith

-- A byte of a character that is not the last one.
reading_byte :
    (p : Option Partial) (b missing least bits : ℕ) (s : List ℕ)
    → feed p b ≡ some (partial (suc missing) least bits)
    → reading p (b ∷ s) ≡ reading (some (partial (suc missing) least bits)) s
unfolding reading
reading_byte p b missing least bits s e = rw (reading, e, suc_lem missing) refl

next_byte_lem :
    (missing least bits low : ℕ)
    → low < 64
    → feed (some (partial (suc missing) least bits)) (0x80 + low)
      ≡ some (partial missing least (bits * 64 + low))
unfolding feed next_byte
next_byte_lem missing least bits low h = ground arith

first_two : (high : ℕ) → high < 0x20 → feed none (0xc0 + high) ≡ some (partial 1 0x80 high)
unfolding feed first_byte
first_two high h = ground arith

first_three : (high : ℕ) → high < 0x10 → feed none (0xe0 + high) ≡ some (partial 2 0x800 high)
unfolding feed first_byte
first_three high h = ground arith

first_four : (high : ℕ) → high < 8 → feed none (0xf0 + high) ≡ some (partial 3 0x10000 high)
unfolding feed first_byte
first_four high h = ground arith

first_one : (c : ℕ) → c < 0x80 → feed none c ≡ some (partial 0 0 c)
unfolding feed first_byte
first_one c h = ground arith

is_char_bound : (c : ℕ) → is_char c ≡ true → c < 0x110000
is_char_bound c h = ground arith

-- A character's bytes are read as that character, by the number of them.
reading_one :
    (c : ℕ) (s : List ℕ)
    → c < 0x80
    → is_char c ≡ true
    → reading none (c ∷ s) ≡ Option.map (λ (t : Text). c ∷ t) (reading none s)
reading_one c s lt h = reading_last none c 0 c c s (first_one c lt) refl (omega arith) h

reading_two :
    (c : ℕ) (s : List ℕ)
    → 0x80 ≤ c
    → c < 0x800
    → is_char c ≡ true
    → reading none ((0xc0 + c / 64) ∷ (0x80 + c % 64) ∷ s)
      ≡ Option.map (λ (t : Text). c ∷ t) (reading none s)
reading_two c s l lt h =
    reading_byte none (0xc0 + c / 64) 0 0x80 (c / 64) ((0x80 + c % 64) ∷ s)
      (first_two (c / 64) (omega arith))
    ∙ reading_last (some (partial 1 0x80 (c / 64))) (0x80 + c % 64) 0x80 (c / 64 * 64 + c % 64) c s
        (next_byte_lem 0 0x80 (c / 64) (c % 64) (omega arith)) (omega arith) l h

reading_three :
    (c : ℕ) (s : List ℕ)
    → 0x800 ≤ c
    → c < 0x10000
    → is_char c ≡ true
    → reading none ((0xe0 + c / 4096) ∷ (0x80 + c / 64 % 64) ∷ (0x80 + c % 64) ∷ s)
      ≡ Option.map (λ (t : Text). c ∷ t) (reading none s)
reading_three c s l lt h =
    let top = c / 4096 in
    let mid = top * 64 + c / 64 % 64 in
    reading_byte none (0xe0 + top) 1 0x800 top ((0x80 + c / 64 % 64) ∷ (0x80 + c % 64) ∷ s)
      (first_three top (omega arith))
    ∙ reading_byte (some (partial 2 0x800 top)) (0x80 + c / 64 % 64) 0 0x800 mid
        ((0x80 + c % 64) ∷ s) (next_byte_lem 1 0x800 top (c / 64 % 64) (omega arith))
    ∙ reading_last (some (partial 1 0x800 mid)) (0x80 + c % 64) 0x800 (mid * 64 + c % 64) c s
        (next_byte_lem 0 0x800 mid (c % 64) (omega arith)) (omega arith) l h

reading_four :
    (c : ℕ) (s : List ℕ)
    → 0x10000 ≤ c
    → is_char c ≡ true
    → reading none
        ((0xf0 + c / 262144) ∷ (0x80 + c / 4096 % 64) ∷ (0x80 + c / 64 % 64) ∷ (0x80 + c % 64) ∷ s)
      ≡ Option.map (λ (t : Text). c ∷ t) (reading none s)
reading_four c s l h =
    let top = c / 262144 in
    let high = top * 64 + c / 4096 % 64 in
    let mid = high * 64 + c / 64 % 64 in
    let bound = is_char_bound c h in
    reading_byte none (0xf0 + top) 2 0x10000 top
      ((0x80 + c / 4096 % 64) ∷ (0x80 + c / 64 % 64) ∷ (0x80 + c % 64) ∷ s)
      (first_four top (omega arith))
    ∙ reading_byte (some (partial 3 0x10000 top)) (0x80 + c / 4096 % 64) 1 0x10000 high
        ((0x80 + c / 64 % 64) ∷ (0x80 + c % 64) ∷ s)
        (next_byte_lem 2 0x10000 top (c / 4096 % 64) (omega arith))
    ∙ reading_byte (some (partial 2 0x10000 high)) (0x80 + c / 64 % 64) 0 0x10000 mid
        ((0x80 + c % 64) ∷ s) (next_byte_lem 1 0x10000 high (c / 64 % 64) (omega arith))
    ∙ reading_last (some (partial 1 0x10000 mid)) (0x80 + c % 64) 0x10000 (mid * 64 + c % 64) c s
        (next_byte_lem 0 0x10000 mid (c % 64) (omega arith)) (omega arith) l h

reading-char_bytes :
    (c : ℕ) (s : List ℕ)
    → is_char c ≡ true
    → reading none (char_bytes c ++ s) ≡ Option.map (λ (t : Text). c ∷ t) (reading none s)
unfolding char_bytes
reading-char_bytes c s h = elim (Bool-cases (ltb c 0x80)) [
  | inl one ↦ rw one (reading_one c s (ground arith) h)
  | inr more ↦ rw more (elim (Bool-cases (ltb c 0x800)) [
    | inl two ↦ rw two (reading_two c s (ground arith) (ground arith) h)
    | inr more2 ↦ rw more2 (elim (Bool-cases (ltb c 0x10000)) [
      | inl three ↦ rw three (reading_three c s (ground arith) (ground arith) h)
      | inr four ↦ rw four (reading_four c s (ground arith) h)
    ])
  ])
]

-- Bytes that were written from characters are read back.
pub from_utf8-as_bytes :
    (s : Text) → All (λ c. is_char c ≡ true) s → from_utf8 (as_bytes s) ≡ some s
unfolding from_utf8 as_bytes
from_utf8-as_bytes [] h = refl
from_utf8-as_bytes (c ∷ s) (k, h) =
    reading-char_bytes c (as_bytes s) k
    ∙ ap (Option.map (λ (t : Text). c ∷ t)) (from_utf8-as_bytes s h)

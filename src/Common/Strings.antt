-- ===== src/Common/Strings.antt =====
-- The parts of Rust's `str` that the program uses. A text is the list of its code points; `codes`
-- reads a literal. Splitting and comparing by ASCII characters is the same over code points as
-- over the bytes of UTF-8.
use Prim.Native.Nat.{ℕ, ◌+◌}
use Prim.Native.Char.{code}
use Prim.Native.String.{String}
use mathlib.Core.Path.{◌≡◌, refl}
use mathlib.Core.Logic.{◌↔◌}
use mathlib.Core.Bool.{not, Bool, true, false, ◌&&◌, ◌||◌}
use mathlib.Core.Option
use mathlib.Core.Option.{Option, none, some}
use mathlib.Core.List.{List, [], ◌∷◌, ◌++◌, map}
use native.Mathlib.Omega.{arith}
use rustberg.Common.Tests.{leb, ltb, ◌==◌, if◌then◌else◌}
use rustberg.Common.Lists.{any}

abbrev pub Text : Type 0
Text = List ℕ

abbrev pub codes : String → Text
codes String.[] = []
codes (String.◌∷◌ c s) = code c ∷ codes s

-- `==` on `str`
abbrev pub text_eq : Text → Text → Bool
text_eq [] [] = true
text_eq (a ∷ s) (b ∷ t) = a == b && text_eq s t
text_eq _ _ = false

pub text_eq_iff : (s t : Text) → (text_eq s t ≡ true) ↔ (s ≡ t)
text_eq_iff [] [] = (λ _. refl, λ _. refl)
text_eq_iff [] (b ∷ t) = ground arith
text_eq_iff (a ∷ s) [] = ground arith
text_eq_iff (a ∷ s) (b ∷ t) = ground (arith, text_eq_iff s t)

-- `str::is_empty`
abbrev pub is_empty {ℓ} : {A : Type ℓ} → List A → Bool
is_empty [] = true
is_empty (_ ∷ _) = false

-- `str::starts_with` and `str::ends_with`, with a character
abbrev pub starts_with_char : ℕ → Text → Bool
starts_with_char c [] = false
starts_with_char c (x ∷ s) = x == c

abbrev pub ends_with_char : ℕ → Text → Bool
ends_with_char c [] = false
ends_with_char c (x ∷ []) = x == c
ends_with_char c (x ∷ y ∷ s) = ends_with_char c (y ∷ s)

-- `str::strip_prefix`, the prefix first
abbrev pub strip_prefix : Text → Text → Option Text
strip_prefix [] s = some s
strip_prefix (p ∷ ps) [] = none
strip_prefix (p ∷ ps) (x ∷ s) = if p == x then strip_prefix ps s else none

abbrev pub push_front : ℕ → Text × Text → Text × Text
push_front c (before, after) = (c ∷ before, after)

-- `str::split_once`, the pattern first: at its first occurrence
unfoldable pub split_once : Text → Text → Option (Text × Text)
split_once p [] = Option.map (λ (rest : Text). ([], rest)) (strip_prefix p [])
split_once p (c ∷ s) =
    let later = Option.map (push_front c) (split_once p s) in
    elim (strip_prefix p (c ∷ s)) [ some rest ↦ some ([], rest) | none ↦ later ]

abbrev pub push_head : ℕ → List Text → List Text
push_head c [] = (c ∷ []) ∷ []
push_head c (s ∷ ss) = (c ∷ s) ∷ ss

-- `str::split`, at a character
unfoldable pub split_at_char : ℕ → Text → List Text
split_at_char c [] = [] ∷ []
split_at_char c (x ∷ s) =
    let rest = split_at_char c s in if x == c then [] ∷ rest else push_head x rest

-- `str::trim_end_matches`, with a character
unfoldable pub trim_end_char : ℕ → Text → Text
trim_end_char c [] = []
trim_end_char c (x ∷ s) =
    let rest = trim_end_char c s in if is_empty rest && x == c then [] else x ∷ rest

-- `char::is_whitespace`: the code points with the Unicode property White_Space
abbrev pub is_whitespace : ℕ → Bool
is_whitespace c =
    leb 9 c && leb c 13
    || leb 0x2000 c && leb c 0x200a
    || any (λ w. c == w)
        (0x20 ∷ 0x85 ∷ 0xa0 ∷ 0x1680 ∷ 0x2028 ∷ 0x2029 ∷ 0x202f ∷ 0x205f ∷ 0x3000 ∷ [])

unfoldable pub trim_start : Text → Text
trim_start [] = []
trim_start (x ∷ s) = let rest = trim_start s in if is_whitespace x then rest else x ∷ s

unfoldable pub trim_end : Text → Text
trim_end [] = []
trim_end (x ∷ s) =
    let rest = trim_end s in if is_empty rest && is_whitespace x then [] else x ∷ rest

-- `str::trim`
unfoldable pub trim : Text → Text
unfolding trim_start trim_end
trim s = trim_end (trim_start s)

abbrev pub is_ascii_alphabetic : ℕ → Bool
is_ascii_alphabetic c = leb b'A' c && leb c b'Z' || leb b'a' c && leb c b'z'

abbrev pub is_ascii_alphanumeric : ℕ → Bool
is_ascii_alphanumeric c = is_ascii_alphabetic c || leb b'0' c && leb c b'9'

abbrev pub ascii_lower : ℕ → ℕ
ascii_lower c = if leb b'A' c && leb c b'Z' then c + 32 else c

-- `str::to_ascii_lowercase`
abbrev pub to_ascii_lowercase : Text → Text
to_ascii_lowercase = map ascii_lower

-- The bytes of a code point in UTF-8, and `str::len`.
abbrev pub utf8_width : ℕ → ℕ
utf8_width c = if ltb c 0x80 then 1 else if ltb c 0x800 then 2 else if ltb c 0x10000 then 3 else 4

abbrev pub utf8_len : Text → ℕ
utf8_len [] = 0
utf8_len (c ∷ s) = utf8_width c + utf8_len s

-- `<` and `<=` on `str`: by bytes, which is by code points.
abbrev pub text_ltb : Text → Text → Bool
text_ltb _ [] = false
text_ltb [] (_ ∷ _) = true
text_ltb (a ∷ s) (b ∷ t) = ltb a b || a == b && text_ltb s t

abbrev pub text_leb : Text → Text → Bool
text_leb s t = not (text_ltb t s)

-- `[String]::join`, with a character
unfoldable pub join : ℕ → List Text → Text
join c [] = []
join c (s ∷ []) = s
join c (s ∷ t ∷ ss) = s ++ c ∷ join c (t ∷ ss)
